-- ===== src/Gateway/Admission/Tally.antt =====
-- What each request of gateway.go holds, by its stage, and the sums over all requests.
use populace.Prelude.{ℕ, ◌+◌, ◌≡◌, List, [], ◌∷◌, ◌++◌, arith}
use populace.Gateway.Config.{Lane, interactive, batch}
use populace.Gateway.Admission.{
  Stage, queued, reserved, slotted, counted, running, cancelled, leaving, unslotted, uncounted,
}

-- 1 where the request has sent to `g.slots` and not yet received from it.
abbrev pub has_slot : Lane → Stage → ℕ
has_slot lane slotted = 1
has_slot lane counted = 1
has_slot lane running = 1
has_slot lane _ = 0

-- 1 where it has sent to `g.batch` and not yet received from it.
abbrev pub has_token : Lane → Stage → ℕ
has_token batch reserved = 1
has_token batch slotted = 1
has_token batch counted = 1
has_token batch running = 1
has_token batch (cancelled r) = 1
has_token batch unslotted = 1
has_token batch uncounted = 1
has_token _ _ = 0

-- 1 where it is counted by `inFlight`.
abbrev pub is_counted : Lane → Stage → ℕ
is_counted lane counted = 1
is_counted lane running = 1
is_counted lane unslotted = 1
is_counted lane _ = 0

abbrev pub in_queue : Stage → ℕ
in_queue queued = 1
in_queue reserved = 1
in_queue slotted = 1
in_queue counted = 1
in_queue (cancelled r) = 1
in_queue (leaving r) = 1
in_queue _ = 0

-- 1 where it is counted by `waiting` of the lane.
abbrev pub waits : Lane → Lane → Stage → ℕ
waits interactive interactive stage = in_queue stage
waits batch batch stage = in_queue stage
waits _ _ stage = 0

abbrev pub of_lane : Lane → (Lane → Stage → ℕ) → Lane → Stage → ℕ
of_lane interactive f interactive stage = f interactive stage
of_lane batch f batch stage = f batch stage
of_lane _ f _ stage = 0

abbrev pub tally : (Lane → Stage → ℕ) → List (Lane × Stage) → ℕ
tally f [] = 0
tally f ((lane, stage) ∷ rs) = f lane stage + tally f rs

pub tally-middle :
    (f : Lane → Stage → ℕ) (before after : List (Lane × Stage)) (lane : Lane) (stage : Stage)
    → tally f (before ++ (lane, stage) ∷ after) ≡ tally f before + f lane stage + tally f after
tally-middle f [] after lane stage = omega arith
tally-middle f ((lane', stage') ∷ before) after lane stage =
    omega (arith, tally-middle f before after lane stage)
