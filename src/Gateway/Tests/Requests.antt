-- ===== src/Gateway/Tests/Requests.antt =====
-- The theorems of the gateway's admission, handler, token check and sample window at concrete inputs.
use mathlib.Core.List.{lookup}
use populace.Prelude.{
  ℕ, ◌+◌, ◌-◌, ◌≤◌, ◌≡◌, ◌≢◌, inr, refl, none, some, true, false, List, [], ◌∷◌, ◌++◌,
  if◌then◌else◌, ◌==◌, ℕ_discrete, arith,
}
use populace.Prelude.Int.{pos}
use populace.Gateway.Config.{interactive, batch}
use populace.Gateway.Admission.{
  Limits, Gate, queued, slotted, running, finished, waiting, with_token, pass, enqueue, reserve,
  take_slot, count_in, admitted, refused, busy, give_up, leave, free_slot, count_out, free_token,
  System, Step, arrive, move, idle, Run, Reach, start, next,
}
use populace.Gateway.Admission.Tally.{tally}
use populace.Gateway.Admission.Progress.{
  runs, running_bounds, interactive_room, nothing_left, release_completes,
}
use populace.Gateway.Admission.Overshoot.{waiting_overshoot}
use populace.Gateway.Auth.{
  unauthorized, passed, too_many, bearer, Bytes-discrete, auth, auth-bearer,
}
use populace.Gateway.Cache.{new_cache}
use populace.Gateway.Cache.Invariant.{IsValid, new_cache-IsValid}
use populace.Gateway.Handler.{
  Server, Request, Pending, Answer, bytes, replied, pending, begin, finish,
}
use populace.Gateway.Handler.Accounts.{sent, total, begin-total, go_on, go_on-ending}
use populace.Gateway.Handler.Replay.{finish-begin, handler-IsValid}
use populace.Gateway.Limiter.{Limiter, allow}
use populace.Gateway.Window.{Meter}

abbrev limits : Limits
limits = record { max_in_flight = 2; batch_cap = 1; max_waiting = 1 }

-- One batch request runs.
abbrev one_runs : System
one_runs = record {
  gate = record {
    slots = 1;
    batch_tokens = 1;
    in_flight = 1;
    waiting_interactive = 0;
    waiting_batch = 0;
  };
  requests = (batch, running) ∷ [];
}

-- The request passes the check, waits, takes its token and its slot, and is let through.
one_runs_reached : Reach limits one_runs
one_runs_reached =
    next
      (next
        (next
          (next
            (next (next (next start (arrive batch)) (move [] [] batch refl (pass (omega arith))))
              (move [] [] batch refl enqueue))
            (move [] [] batch refl (reserve (omega arith))))
          (move [] [] batch refl (take_slot with_token (omega arith))))
        (move [] [] batch refl count_in))
      (move [] [] batch refl admitted)

running_bounds_example :
    (tally (runs interactive) one_runs.requests + tally (runs batch) one_runs.requests ≤ 2)
    × (tally (runs batch) one_runs.requests ≤ 1)
running_bounds_example = running_bounds {l = limits} {s = one_runs} one_runs_reached

release_completes_example :
    (g : Gate) × Run limits one_runs (record { gate = g; requests = (batch, finished) ∷ [] })
release_completes_example =
    release_completes {l = limits} {s = one_runs} [] [] batch one_runs_reached refl

-- An interactive request is queued beside it.
abbrev one_waits : System
one_waits = record {
  gate = record (one_runs.gate) { waiting_interactive = 1 };
  requests = (interactive, queued) ∷ (batch, running) ∷ [];
}

one_waits_reached : Reach limits one_waits
one_waits_reached =
    next
      (next (next one_runs_reached (arrive interactive))
        (move [] ((batch, running) ∷ []) interactive refl (pass (omega arith))))
      (move [] ((batch, running) ∷ []) interactive refl enqueue)

interactive_room_example : Step limits one_waits (record {
  gate = record (one_waits.gate) { slots = 2 };
  requests = (interactive, slotted) ∷ (batch, running) ∷ [];
})
interactive_room_example =
    interactive_room {l = limits} {s = one_waits} [] ((batch, running) ∷ []) one_waits_reached refl
      (omega arith)

-- The batch request is released, and an interactive one gives up in its queue.
abbrev emptied : System
emptied = record {
  gate = record {
    slots = one_runs.gate.slots - 1;
    batch_tokens = one_runs.gate.batch_tokens - 1;
    in_flight = one_runs.gate.in_flight - 1;
    waiting_interactive = 0 + 1 - 1;
    waiting_batch = 0;
  };
  requests = (interactive, refused busy) ∷ (batch, finished) ∷ [];
}

emptied_reached : Reach limits emptied
emptied_reached =
    next
      (next
        (next
          (next
            (next one_waits_reached
              (move [] ((batch, running) ∷ []) interactive refl (give_up busy)))
            (move [] ((batch, running) ∷ []) interactive refl leave))
          (move ((interactive, refused busy) ∷ []) [] batch refl (free_slot (omega arith))))
        (move ((interactive, refused busy) ∷ []) [] batch refl count_out))
      (move ((interactive, refused busy) ∷ []) [] batch refl (free_token (omega arith)))

nothing_left_example : emptied.gate ≡ idle.gate
nothing_left_example = nothing_left {l = limits} {s = emptied} emptied_reached (tt, (tt, tt))

waiting_overshoot_example : (s : System) × Reach limits s × (waiting s.gate interactive ≡ 5)
waiting_overshoot_example = waiting_overshoot limits interactive 5 (omega arith)

abbrev first_byte : List ℕ → ℕ
first_byte [] = 0
first_byte (b ∷ bs) = b

abbrev server : Server ℕ
server = record { cache = new_cache 4; served = 0; shed = 0; errs = 0; marks = [] }

abbrev ask : Request
ask = record { is_post = true; body = some (7 ∷ []); wants_interactive = true; streaming = false }

abbrev asked : Pending
asked = record { body = 7 ∷ []; lane = interactive; streaming = false }

abbrev answer : Answer
answer = record { status = 200; out = some (1 ∷ 2 ∷ []); tokens = 9 }

begin-total_example :
    let (s', b) = begin ℕ_discrete first_byte server ask in
    (total s'
      ≡ 0 + elim b [ replied reply ↦ (if reply.status == 200 then 1 else 0) | pending p ↦ 0 ])
    × (s'.shed ≡ 0)
    × (s'.errs ≡ 0)
begin-total_example = begin-total ℕ_discrete first_byte server ask

go_on-ending_example :
    let (s', reply) = go_on ℕ_discrete first_byte server asked (sent (some answer)) in
    (s'.served ≡ 1) × (s'.shed ≡ 0) × (s'.errs ≡ 0) × (◌≡◌ {A = ℕ} 1 1)
go_on-ending_example = go_on-ending ℕ_discrete first_byte server asked (sent (some answer))

server-IsValid : IsValid ℕ_discrete server.cache
server-IsValid = new_cache-IsValid ℕ_discrete 4

finish-begin_example :
    (begin ℕ_discrete first_byte (finish ℕ_discrete first_byte server asked (some answer)).0 ask).1
    ≡ replied (record {
      status = 200;
      body = bytes (1 ∷ 2 ∷ []);
      retry_after = none;
      cache_hit = some true;
      lane = none;
    })
unfolding new_cache
finish-begin_example =
    finish-begin ℕ_discrete first_byte server asked answer (1 ∷ 2 ∷ []) ask server-IsValid refl refl
      refl (omega arith) refl refl refl

handler-IsValid_example :
    IsValid ℕ_discrete (begin ℕ_discrete first_byte server ask).0.cache
    × IsValid ℕ_discrete (go_on ℕ_discrete first_byte server asked (sent (some answer))).0.cache
handler-IsValid_example =
    handler-IsValid ℕ_discrete first_byte server ask asked (sent (some answer)) server-IsValid

abbrev one_a_minute : Limiter ℕ
one_a_minute = record { per_min = pos 1; buckets = λ k. none }

abbrev tokens : List (List ℕ × ℕ)
tokens = (9 ∷ [], 1) ∷ []

-- A known token without "Bearer " before it.
bare : (rest : List ℕ) → 9 ∷ [] ≢ bearer ++ rest
bare rest same = absurd (cc)

auth-bearer_example :
    auth ℕ_discrete tokens one_a_minute 0 (9 ∷ []) ≡ elim (lookup Bytes-discrete (9 ∷ []) tokens) [
      | none ↦ (one_a_minute, unauthorized)
      | some name ↦
          let (l', ok) = allow ℕ_discrete one_a_minute 0 name in
          (l', if ok then passed (some name) else too_many name)
    ]
auth-bearer_example =
    auth-bearer ℕ_discrete tokens one_a_minute 0 (9 ∷ []) (9 ∷ []) (λ e. cc) (inr (refl, bare))

abbrev meter : Meter
meter = record {
  up_nanos = 0;
  up_tokens = 0;
  recent = record { at = 5; tokens = 3; dur = 2 } ∷ [];
  last_seen = 5;
}
