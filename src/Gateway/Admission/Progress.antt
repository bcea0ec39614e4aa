-- ===== src/Gateway/Admission/Progress.antt =====
-- What admission in gateway.go gives each request: the bounds, room for interactive work, a `release`
-- that never blocks, and nothing left behind.
use populace.Prelude.{ℕ, ◌+◌, ◌-◌, ◌≤◌, ◌<◌, ◌≡◌, refl, ap, List, [], ◌∷◌, ◌++◌, All, arith}
use populace.Gateway.Config.{Lane, interactive, batch}
use populace.Gateway.Admission.{
  Limits, Gate, Stage, queued, slotted, running, refused, uncounted, finished, at_once, take_slot,
  free_slot, count_out, free_token, no_token, System, Step, move, idle, Run, Reach, start, next,
}
use populace.Gateway.Admission.Tally.{has_slot, has_token, is_counted, waits, tally, tally-middle}
use populace.Gateway.Admission.Invariant.{Reach-IsConsistent}

-- The requests that `admit` has let through and `release` has not begun with, by lane.
abbrev pub runs : Lane → Lane → Stage → ℕ
runs interactive interactive running = 1
runs batch batch running = 1
runs _ _ _ = 0

abbrev pub runs_or_takes : Lane → Lane → Stage → ℕ
runs_or_takes interactive interactive stage = has_slot interactive stage
runs_or_takes batch batch stage = has_slot batch stage
runs_or_takes _ _ stage = 0

runs-le :
    (rs : List (Lane × Stage))
    → (tally (runs interactive) rs + tally (runs batch) rs ≤ tally has_slot rs)
      × (tally (runs batch) rs ≤ tally has_token rs)
runs-le [] = omega arith
runs-le ((interactive, stage) ∷ rs) = ground (arith, runs-le rs)
runs-le ((batch, stage) ∷ rs) = ground (arith, runs-le rs)

slots-split :
    (rs : List (Lane × Stage))
    → tally has_slot rs ≤ tally (runs_or_takes interactive) rs + tally has_token rs
slots-split [] = omega arith
slots-split ((interactive, stage) ∷ rs) = ground (arith, slots-split rs)
slots-split ((batch, stage) ∷ rs) = ground (arith, slots-split rs)

-- Never more than `MaxInFlight` requests run, and never more than `BatchCap` of them on the batch
-- lane.
pub running_bounds :
    {l : Limits} {s : System}
    → Reach l s
    → (tally (runs interactive) s.requests + tally (runs batch) s.requests ≤ l.max_in_flight)
      × (tally (runs batch) s.requests ≤ l.batch_cap)
running_bounds {l} {s} r = omega (
  arith,
  (Reach-IsConsistent r).slots,
  (Reach-IsConsistent r).tokens,
  (Reach-IsConsistent r).slots_bound,
  (Reach-IsConsistent r).tokens_bound,
  runs-le s.requests,
)

-- However much batch work there is, while fewer than `MaxInFlight - BatchCap` interactive requests
-- hold slots, a queued interactive request can take one at once.
pub interactive_room :
    {l : Limits} {s : System} (before after : List (Lane × Stage))
    → Reach l s
    → s.requests ≡ before ++ (interactive, queued) ∷ after
    → tally (runs_or_takes interactive) s.requests + l.batch_cap < l.max_in_flight
    → Step l s (record {
      gate = record (s.gate) { slots = s.gate.slots + 1 };
      requests = before ++ (interactive, slotted) ∷ after;
    })
interactive_room {l} {s} before after r place room =
    let v = Reach-IsConsistent r in
    move before after interactive place
      (take_slot at_once (omega (arith, v.slots, v.tokens, v.tokens_bound, slots-split s.requests)))

abbrev pub IsOver : Lane × Stage → Type 0
IsOver (lane, refused r) = Unit {0}
IsOver (lane, finished) = Unit {0}
IsOver _ = ⊥

over_holds :
    (rs : List (Lane × Stage))
    → All IsOver rs
    → (tally has_slot rs ≡ 0)
      × (tally has_token rs ≡ 0)
      × (tally is_counted rs ≡ 0)
      × (tally (waits interactive) rs ≡ 0)
      × (tally (waits batch) rs ≡ 0)
over_holds [] a = omega arith
over_holds ((interactive, refused r) ∷ rs) a = omega (arith, over_holds rs a.1)
over_holds ((batch, refused r) ∷ rs) a = omega (arith, over_holds rs a.1)
over_holds ((interactive, finished) ∷ rs) a = omega (arith, over_holds rs a.1)
over_holds ((batch, finished) ∷ rs) a = omega (arith, over_holds rs a.1)
over_holds ((lane, stage) ∷ rs) a = absurd a.0

-- When every request is refused or finished, both channels are empty and all counters are zero:
-- no path through `admit` and `release` leaks a slot, a token or a count.
pub nothing_left :
    {l : Limits} {s : System} → Reach l s → All IsOver s.requests → s.gate ≡ idle.gate
nothing_left {l} {s} r over =
    let v = Reach-IsConsistent r in
    ground (
      arith,
      over_holds s.requests over,
      v.slots,
      v.tokens,
      v.in_flight,
      v.interactive_waiting,
      v.batch_waiting,
    )

-- What one request holds is in the counter.
holds :
    (s : System) (before after : List (Lane × Stage)) (lane : Lane) (stage : Stage)
    (f : Lane → Stage → ℕ) {n : ℕ}
    → s.requests ≡ before ++ (lane, stage) ∷ after
    → n ≡ tally f s.requests
    → f lane stage ≤ n
holds s before after lane stage f place total =
    omega (arith, ap (tally f) place, tally-middle f before after lane stage)

-- The part of `release` before its last `if`.
release_slot :
    {l : Limits} {s : System} (before after : List (Lane × Stage)) (lane : Lane)
    → Reach l s
    → s.requests ≡ before ++ (lane, running) ∷ after
    → Run l s (record {
      gate = record (s.gate) { slots = s.gate.slots - 1; in_flight = s.gate.in_flight - 1 };
      requests = before ++ (lane, uncounted) ∷ after;
    })
release_slot {l} {s} before after lane r place =
    next (next start (move before after lane place (free_slot held)))
      (move before after lane refl count_out)
  where
    held : 0 < s.gate.slots
    held = holds s before after lane running has_slot place (Reach-IsConsistent r).slots

-- A request that runs can go through the whole of `release` with no other request moving: neither
-- of its receives blocks.
pub release_completes :
    {l : Limits} {s : System} (before after : List (Lane × Stage)) (lane : Lane)
    → Reach l s
    → s.requests ≡ before ++ (lane, running) ∷ after
    → (g : Gate) × Run l s (record { gate = g; requests = before ++ (lane, finished) ∷ after })
release_completes before after interactive r place = (
  _,
  next (release_slot before after interactive r place)
      (move before after interactive refl no_token),
)
release_completes {l} {s} before after batch r place = (
  _,
  next (release_slot before after batch r place) (
      move before after batch refl (
        free_token
          (holds s before after batch running has_token place (Reach-IsConsistent r).tokens))),
)
