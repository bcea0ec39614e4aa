-- ===== src/Gateway/Admission/Invariant.antt =====
-- The invariant of admission in gateway.go: the channels and counters hold what the requests hold.
use populace.Prelude.{ℕ, ◌+◌, ◌≤◌, ◌≡◌, ap, ◌∙◌, ◌∷◌, ◌++◌, arith}
use populace.Gateway.Config.{Lane, interactive, batch}
use populace.Gateway.Admission.{
  Limits, Gate, Stage, at_once, with_token, Move, shed, pass, enqueue, reserve, take_slot, count_in,
  admitted, give_up, cancel, put_back, leave, free_slot, count_out, free_token, no_token, System,
  Step, arrive, move, Run, Reach, start, next,
}
use populace.Gateway.Admission.Tally.{has_slot, has_token, is_counted, waits, tally, tally-middle}

pub record IsConsistent (l : Limits) (s : System) : Type 0 where
  pub slots : s.gate.slots ≡ tally has_slot s.requests
  pub tokens : s.gate.batch_tokens ≡ tally has_token s.requests
  pub in_flight : s.gate.in_flight ≡ tally is_counted s.requests
  pub interactive_waiting : s.gate.waiting_interactive ≡ tally (waits interactive) s.requests
  pub batch_waiting : s.gate.waiting_batch ≡ tally (waits batch) s.requests
  pub slots_bound : s.gate.slots ≤ l.max_in_flight
  pub tokens_bound : s.gate.batch_tokens ≤ l.batch_cap

-- A move changes each counter by what the request takes up or gives back, within the capacities.
record IsBalanced (l : Limits) (lane : Lane) (g : Gate) (stage : Stage) (g' : Gate) (stage' : Stage)
    : Type 0 where
  slots : g'.slots + has_slot lane stage ≡ g.slots + has_slot lane stage'
  tokens : g'.batch_tokens + has_token lane stage ≡ g.batch_tokens + has_token lane stage'
  in_flight : g'.in_flight + is_counted lane stage ≡ g.in_flight + is_counted lane stage'
  interactive_waiting :
      g'.waiting_interactive + waits interactive lane stage
      ≡ g.waiting_interactive + waits interactive lane stage'
  batch_waiting :
      g'.waiting_batch + waits batch lane stage ≡ g.waiting_batch + waits batch lane stage'
  slots_bound : g.slots ≤ l.max_in_flight → g'.slots ≤ l.max_in_flight
  tokens_bound : g.batch_tokens ≤ l.batch_cap → g'.batch_tokens ≤ l.batch_cap

-- The request's own share is in the counters.
record HasShare (lane : Lane) (g : Gate) (stage : Stage) : Type 0 where
  flying : is_counted lane stage ≤ g.in_flight
  interactive_queue : waits interactive lane stage ≤ g.waiting_interactive
  batch_queue : waits batch lane stage ≤ g.waiting_batch

Move-IsBalanced :
    {l : Limits} {lane : Lane} {g : Gate} {stage : Stage} {g' : Gate} {stage' : Stage}
    → Move l lane g stage g' stage'
    → HasShare lane g stage
    → IsBalanced l lane g stage g' stage'
Move-IsBalanced (shed h) k = ground arith
Move-IsBalanced (pass h) k = ground arith
Move-IsBalanced enqueue k = ground arith
Move-IsBalanced (reserve h) k = ground arith
Move-IsBalanced (take_slot at_once h) k = ground arith
Move-IsBalanced (take_slot with_token h) k = ground arith
Move-IsBalanced count_in k = ground arith
Move-IsBalanced admitted k = ground arith
Move-IsBalanced (give_up r) k = ground arith
Move-IsBalanced (cancel r) k = ground arith
Move-IsBalanced (put_back h) k = ground arith
Move-IsBalanced leave k = ground arith
Move-IsBalanced (free_slot h) k = ground arith
Move-IsBalanced count_out k = ground arith
Move-IsBalanced (free_token h) k = ground arith
Move-IsBalanced no_token k = ground arith

Step-IsConsistent : {l : Limits} {s t : System} → Step l s t → IsConsistent l s → IsConsistent l t
Step-IsConsistent (arrive interactive) v = omega (
  arith, v.slots, v.tokens, v.in_flight, v.interactive_waiting, v.batch_waiting, v.slots_bound,
  v.tokens_bound,
)
Step-IsConsistent (arrive batch) v = omega (
  arith, v.slots, v.tokens, v.in_flight, v.interactive_waiting, v.batch_waiting, v.slots_bound,
  v.tokens_bound,
)
Step-IsConsistent {l} {s} (move before after lane {stage} {stage'} {g} place m) v = record {
  slots = omega (arith, balanced.slots, share has_slot, v.slots, now has_slot);
  tokens = omega (arith, balanced.tokens, share has_token, v.tokens, now has_token);
  in_flight = omega (arith, balanced.in_flight, share is_counted, v.in_flight, now is_counted);
  interactive_waiting = omega (
    arith,
    balanced.interactive_waiting,
    share (waits interactive),
    v.interactive_waiting,
    now (waits interactive),
  );
  batch_waiting =
      omega
        (arith, balanced.batch_waiting, share (waits batch), v.batch_waiting, now (waits batch));
  slots_bound = balanced.slots_bound v.slots_bound;
  tokens_bound = balanced.tokens_bound v.tokens_bound;
}
  where
    share :
        (f : Lane → Stage → ℕ) → tally f s.requests ≡ tally f before + f lane stage + tally f after
    share f = ap (tally f) place ∙ tally-middle f before after lane stage

    now :
        (f : Lane → Stage → ℕ)
        → tally f (before ++ (lane, stage') ∷ after)
          ≡ tally f before + f lane stage' + tally f after
    now f = tally-middle f before after lane stage'

    balanced : IsBalanced l lane s.gate stage g stage'
    balanced = Move-IsBalanced m (record {
      flying = omega (arith, share is_counted, v.in_flight);
      interactive_queue = omega (arith, share (waits interactive), v.interactive_waiting);
      batch_queue = omega (arith, share (waits batch), v.batch_waiting);
    })

pub Run-IsConsistent : {l : Limits} {s t : System} → Run l s t → IsConsistent l s → IsConsistent l t
Run-IsConsistent start v = v
Run-IsConsistent (next r step) v = Step-IsConsistent step (Run-IsConsistent r v)

-- After any interleaving the channels and the counters hold what the requests hold.
pub Reach-IsConsistent : {l : Limits} {s : System} → Reach l s → IsConsistent l s
Reach-IsConsistent r = Run-IsConsistent r (omega arith)
