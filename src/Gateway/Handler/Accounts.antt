-- ===== src/Gateway/Handler/Accounts.antt =====
-- The counters of `handleCompletions` in gateway.go: which one each request ends in.
use populace.Prelude.{
  List, ℕ, ◌+◌, ◌≡◌, Option, none, some, Bool, true, false, ◌||◌, if◌then◌else◌, ◌==◌, arith,
}
use populace.Gateway.Admission.{Refusal, busy, gone}
use populace.Gateway.Handler.{
  Server, Request, Pending, Answer, Reply, replied, pending, begin, look_up, refuse, fail_build,
  finish, deliver,
}

-- What becomes of a request after `begin`.
pub data Course : Type 0 where
  refused : Refusal → ℕ → ℕ → Course
  unbuilt : Course
  sent : Option Answer → Course

module _ {K : Type 0} where
  abbrev pub total : Server K → ℕ
  total s = s.served + s.shed + s.errs

-- The counts that a request ends in.
pub record Ending : Type 0 where
  pub served : ℕ
  pub shed : ℕ
  pub errs : ℕ

abbrev is_whole : Option (List ℕ) → Bool
is_whole none = false
is_whole (some out) = true

abbrev pub ending : Pending → Course → Ending
ending p (refused r in_flight waiting) = record { served = 0; shed = 1; errs = 0 }
ending p unbuilt = record { served = 0; shed = 0; errs = 1 }
ending p (sent none) = record { served = 0; shed = 0; errs = 1 }
ending p (sent (some a)) =
    if p.streaming || is_whole a.out
    then record { served = 1; shed = 0; errs = 0 }
    else record { served = 0; shed = 0; errs = 1 }

module _ {K : Type 0} (dec : Discrete K) (sum256 : List ℕ → K) where
  unfoldable pub go_on : Server K → Pending → Course → Server K × Reply
  go_on s p (refused r in_flight waiting) = refuse s p r in_flight waiting
  go_on s p unbuilt = fail_build s
  go_on s p (sent answer) = finish dec sum256 s p answer

  -- `begin` counts a request exactly when it answers it from the cache; a refused method, an
  -- unreadable body and a request that goes on leave all three counters.
  pub begin-total :
      (s : Server K) (r : Request)
      → let (s', b) = begin dec sum256 s r in
        (total s'
          ≡ total s
            + elim b [ replied reply ↦ (if reply.status == 200 then 1 else 0) | pending p ↦ 0 ])
        × (s'.shed ≡ s.shed)
        × (s'.errs ≡ s.errs)
  unfolding begin look_up
  begin-total s r = ground arith

  -- A request that goes on is counted exactly once, whatever becomes of it: as shed if it is not
  -- admitted, as an error if the upstream request cannot be built or sent or if its body breaks off,
  -- as served otherwise, the upstream's own errors and all streams included.
  pub go_on-ending :
      (s : Server K) (p : Pending) (course : Course)
      → let (s', reply) = go_on s p course in
        (s'.served ≡ s.served + (ending p course).served)
        × (s'.shed ≡ s.shed + (ending p course).shed)
        × (s'.errs ≡ s.errs + (ending p course).errs)
        × ((ending p course).served + (ending p course).shed + (ending p course).errs ≡ 1)
  unfolding go_on refuse fail_build finish deliver
  go_on-ending s p (refused busy in_flight waiting) = ground arith
  go_on-ending s p (refused gone in_flight waiting) = ground arith
  go_on-ending s p unbuilt = ground arith
  go_on-ending s p (sent none) = ground arith
  go_on-ending s p (sent (some a)) = ground arith
