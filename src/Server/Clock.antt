-- ===== src/Server/Clock.antt =====
-- cmd/populace/resilience.go, and the time control of `handleControl` in main.go: who advances the simulation,
-- and how long the loop sleeps. Durations are nanoseconds. `Advance` is given: what it leaves of the
-- simulation, and whether it returned; a panic is recovered by `tickOnce`, which has released the lock.
pub mod Backoff
pub mod Steps
use populace.Prelude.{
  ℕ, zero, suc, ◌+◌, ◌-◌, ◌*◌, Bool, true, false, not, ◌&&◌, Option, none, some, List, [], ◌∷◌, min,
  ltb, ◌==◌, if◌then◌else◌,
}
use populace.Prelude.Int.{ℤ, pos, pos_part, ltb_ℤ}

-- The fields of `server` that the clock uses, and the panics recovered.
pub record Clock (Sim : Type 0) : Type 0 where
  pub sim : Sim
  pub running : Bool
  pub steps : ℕ
  pub recovered : ℕ

abbrev pub max_backoff : ℕ
max_backoff = 300_000_000_000

abbrev pub poll : ℕ
poll = 50_000_000

-- The part of the request to `handleControl` that sets the clock.
pub record Control : Type 0 where
  pub set_running : Option Bool
  pub step : ℤ
  pub reset : Bool

module _ {Sim : Type 0} where
  -- `handleControl`, the clock's part: `cleared` is the simulation after its reset.
  unfoldable pub control : Sim → Clock Sim → Control → Clock Sim
  control cleared c req =
      let started : Clock Sim = record c {
        running = elim req.set_running [ none ↦ c.running | some b ↦ b ];
      } in
      let stepped : Clock Sim =
        if ltb_ℤ (pos 0) req.step
        then record started { steps = c.steps + min (pos_part req.step) 100 }
        else started in
      if req.reset then record stepped { sim = cleared; steps = 0 } else stepped

  -- The body of `tickOnce` up to a call of `Advance`, and the call.
  unfoldable pub advance_sim : (Sim → Sim × Bool) → Clock Sim → Clock Sim × Bool
  advance_sim advance c =
      let (s, returned) = advance c.sim in
      if returned
      then (record c { sim = s }, true)
      else (record c { sim = s; recovered = c.recovered + 1 }, false)

  unfoldable pub tick_once : (Sim → Sim × Bool) → Clock Sim → Clock Sim × Bool
  unfolding advance_sim
  tick_once advance c =
      if ltb 0 c.steps
      then advance_sim advance (record c { steps = c.steps - 1 })
      else if c.running
      then advance_sim advance c
      else (c, true)

  -- Whether the loop only polls.
  abbrev pub is_paused : Clock Sim → Bool
  is_paused c = not c.running && c.steps == 0

-- The end of a round of `loop`: the next back-off, after a tick that succeeded or not.
unfoldable pub next_backoff : ℕ → ℕ → Bool → ℕ
next_backoff base backoff true = 0
next_backoff base backoff false =
    let b = if backoff == 0 then base else backoff in
    if ltb b max_backoff then (if ltb max_backoff (b * 4) then max_backoff else b * 4) else b

-- `loop` over ticks that succeed or not.
unfoldable pub backoff_after : ℕ → ℕ → List Bool → ℕ
backoff_after base backoff [] = backoff
backoff_after base backoff (ok ∷ ticks) = backoff_after base (next_backoff base backoff ok) ticks

-- What the loop sleeps before a tick: `interval` is the one of the speed.
unfoldable pub pause : ℕ → ℕ → Bool → ℕ
pause backoff interval paused = if ltb 0 backoff then backoff else if paused then poll else interval

-- `interval`, with the quotient of the base by the speed given.
unfoldable pub interval : ℕ → ℕ
interval d = if ltb d 25_000_000 then 25_000_000 else d
