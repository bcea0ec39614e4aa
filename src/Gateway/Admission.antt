-- ===== src/Gateway/Admission.antt =====
-- internal/gateway/gateway.go: `admit` and `release`, as they interleave. Each atomic operation and
-- each channel operation of the two functions is one step of one request. A send is a step only
-- while the channel has room, and a receive only while it holds something; the context of a waiting
-- request may end at any time, by its timeout or by the client, and `select` may then choose either.
pub mod Tally
pub mod Invariant
pub mod Progress
pub mod Overshoot
use populace.Prelude.{ℕ, suc, ◌+◌, ◌-◌, ◌≤◌, ◌<◌, ◌≡◌, List, [], ◌∷◌, ◌++◌}
use populace.Gateway.Config.{Lane, interactive, batch}

-- The fields of `Config` that `admit` reads, and the capacities that `New` gives the channels.
pub record Limits : Type 0 where
  pub max_in_flight : ℕ
  pub batch_cap : ℕ
  pub max_waiting : ℕ

-- The fields of `Gateway` that `admit` and `release` change: what the two channels hold, and the
-- counters.
pub record Gate : Type 0 where
  pub slots : ℕ
  pub batch_tokens : ℕ
  pub in_flight : ℕ
  pub waiting_interactive : ℕ
  pub waiting_batch : ℕ

-- `errBusy` where the deadline passed or the queue was full; otherwise the context's own error.
pub data Refusal : Type 0 where
  busy gone : Refusal

-- Where a request stands.
pub data Stage : Type 0 where
  -- before the load of `waiting`, and after it, before the first `Add`
  arrived checked : Stage
  -- counted as waiting; then with the batch token; then with a slot; then counted in flight
  queued reserved slotted counted : Stage
  -- `admit` has returned nil
  running : Stage
  -- the context has ended while the request held the batch token; then without it
  cancelled leaving : Refusal → Stage
  -- `admit` has returned an error
  refused : Refusal → Stage
  -- in `release`: without its slot; then not in flight; then done
  unslotted uncounted finished : Stage

abbrev pub waiting : Gate → Lane → ℕ
waiting g interactive = g.waiting_interactive
waiting g batch = g.waiting_batch

abbrev pub set_waiting : Gate → Lane → ℕ → Gate
set_waiting g interactive n = record g { waiting_interactive = n }
set_waiting g batch n = record g { waiting_batch = n }

-- The stage before the second `select`.
pub data IsReady : Lane → Stage → Type 0 where
  at_once : IsReady interactive queued
  with_token : IsReady batch reserved

-- One step of one request of the lane: `Move l lane g stage g' stage'`.
pub data Move (l : Limits) : Lane → Gate → Stage → Gate → Stage → Type 0 where
  -- `admit`
  shed :
      {lane : Lane} {g : Gate}
      → l.max_waiting ≤ waiting g lane
      → Move l lane g arrived g (refused busy)
  pass : {lane : Lane} {g : Gate} → waiting g lane < l.max_waiting → Move l lane g arrived g checked
  enqueue :
      {lane : Lane} {g : Gate}
      → Move l lane g checked (set_waiting g lane (waiting g lane + 1)) queued
  reserve :
      {g : Gate}
      → g.batch_tokens < l.batch_cap
      → Move l batch g queued (record g { batch_tokens = g.batch_tokens + 1 }) reserved
  take_slot :
      {lane : Lane} {g : Gate} {stage : Stage}
      → IsReady lane stage
      → g.slots < l.max_in_flight
      → Move l lane g stage (record g { slots = g.slots + 1 }) slotted
  count_in :
      {lane : Lane} {g : Gate}
      → Move l lane g slotted (record g { in_flight = g.in_flight + 1 }) counted
  admitted :
      {lane : Lane} {g : Gate}
      → Move l lane g counted (set_waiting g lane (waiting g lane - 1)) running
  give_up : {lane : Lane} {g : Gate} (r : Refusal) → Move l lane g queued g (leaving r)
  cancel : {g : Gate} (r : Refusal) → Move l batch g reserved g (cancelled r)
  put_back :
      {g : Gate} {r : Refusal}
      → 0 < g.batch_tokens
      → Move l batch g (cancelled r) (record g { batch_tokens = g.batch_tokens - 1 }) (leaving r)
  leave :
      {lane : Lane} {g : Gate} {r : Refusal}
      → Move l lane g (leaving r) (set_waiting g lane (waiting g lane - 1)) (refused r)
  -- `release`
  free_slot :
      {lane : Lane} {g : Gate}
      → 0 < g.slots
      → Move l lane g running (record g { slots = g.slots - 1 }) unslotted
  count_out :
      {lane : Lane} {g : Gate}
      → Move l lane g unslotted (record g { in_flight = g.in_flight - 1 }) uncounted
  free_token :
      {g : Gate}
      → 0 < g.batch_tokens
      → Move l batch g uncounted (record g { batch_tokens = g.batch_tokens - 1 }) finished
  no_token : {g : Gate} → Move l interactive g uncounted g finished

pub record System : Type 0 where
  pub gate : Gate
  pub requests : List (Lane × Stage)

pub data Step (l : Limits) (s : System) : System → Type 0 where
  arrive : (lane : Lane) → Step l s (record s { requests = (lane, arrived) ∷ s.requests })
  move :
      (before after : List (Lane × Stage)) (lane : Lane) {stage stage' : Stage} {g : Gate}
      → s.requests ≡ before ++ (lane, stage) ∷ after
      → Move l lane s.gate stage g stage'
      → Step l s (record { gate = g; requests = before ++ (lane, stage') ∷ after })

-- `New`: empty channels and counters at zero.
abbrev pub idle : System
idle = record {
  gate = record {
    slots = 0;
    batch_tokens = 0;
    in_flight = 0;
    waiting_interactive = 0;
    waiting_batch = 0;
  };
  requests = [];
}

pub data Run (l : Limits) (s : System) : System → Type 0 where
  start : Run l s s
  next : {t u : System} → Run l s t → Step l t u → Run l s u

-- The systems that a new gateway can come to.
abbrev pub Reach : Limits → System → Type 0
Reach l = Run l idle
