-- ===== src/Gateway/Admission/Overshoot.antt =====
-- `MaxWaiting` of gateway.go is a check before an increment, not a bound: requests that read `waiting`
-- before any of them adds to it are all let in.
use native.Mathlib.Nat.{zero-add, add-zero}
use native.Mathlib.Numerals.{add-one}
use populace.Prelude.{ℕ, zero, suc, ◌+◌, ◌<◌, ◌≡◌, refl, ap, subst, List, [], ◌∷◌, ◌++◌, arith}
use populace.Gateway.Config.{Lane, interactive, batch}
use populace.Gateway.Admission.{
  Limits, Stage, checked, queued, set_waiting, waiting, pass, enqueue, System, Step, arrive, move,
  idle, Reach, start, next,
}

-- `n` requests of the lane at a stage.
abbrev pub crowd : ℕ → Lane → Stage → List (Lane × Stage)
crowd zero lane stage = []
crowd (suc n) lane stage = (lane, stage) ∷ crowd n lane stage

abbrev pub queue_of : Lane → ℕ → ℕ → System
queue_of lane left entered = record {
  gate = set_waiting idle.gate lane entered;
  requests = crowd left lane checked ++ crowd entered lane queued;
}

crowd_shift :
    (n : ℕ) (lane : Lane) (stage : Stage) (rest : List (Lane × Stage))
    → crowd (suc n) lane stage ++ rest ≡ crowd n lane stage ++ (lane, stage) ∷ rest
crowd_shift zero lane stage rest = refl
crowd_shift (suc n) lane stage rest = ap (◌∷◌ (lane, stage)) (crowd_shift n lane stage rest)

-- Every one of `n` requests reads a counter of 0.
all_pass : (l : Limits) (lane : Lane) (n : ℕ) → 0 < l.max_waiting → Reach l (queue_of lane n 0)
all_pass l interactive zero h = start
all_pass l batch zero h = start
all_pass l interactive (suc n) h =
    next (next (all_pass l interactive n h) (arrive interactive))
      (move [] _ interactive refl (pass h))
all_pass l batch (suc n) h =
    next (next (all_pass l batch n h) (arrive batch)) (move [] _ batch refl (pass h))

enter_one :
    (l : Limits) (lane : Lane) (left entered : ℕ)
    → Step l (queue_of lane (suc left) entered) (queue_of lane left (suc entered))
enter_one l interactive left entered = rw (← add-one entered) (
    move (crowd left interactive checked) (crowd entered interactive queued) interactive
      (crowd_shift left interactive checked _) enqueue)
enter_one l batch left entered = rw (← add-one entered) (
    move (crowd left batch checked) (crowd entered batch queued) batch
      (crowd_shift left batch checked _) enqueue)

-- Then each of them adds to it.
all_enter :
    (l : Limits) (lane : Lane) (left entered : ℕ)
    → Reach l (queue_of lane left entered)
    → Reach l (queue_of lane 0 (left + entered))
all_enter l lane zero entered r = rw zero-add r
all_enter l lane (suc left) entered r =
    subst (λ n. Reach l (queue_of lane 0 n)) (omega arith)
      (all_enter l lane left (suc entered) (next r (enter_one l lane left entered)))

-- Whatever the positive `MaxWaiting`, any number of requests can be waiting on a lane at once.
pub waiting_overshoot :
    (l : Limits) (lane : Lane) (n : ℕ)
    → 0 < l.max_waiting
    → (s : System) × Reach l s × (waiting s.gate lane ≡ n)
waiting_overshoot l interactive n h = (
  queue_of interactive 0 n,
  subst (λ k. Reach l (queue_of interactive 0 k)) (add-zero n)
      (all_enter l interactive n 0 (all_pass l interactive n h)),
  refl,
)
waiting_overshoot l batch n h = (
  queue_of batch 0 n,
  subst (λ k. Reach l (queue_of batch 0 k)) (add-zero n)
      (all_enter l batch n 0 (all_pass l batch n h)),
  refl,
)
