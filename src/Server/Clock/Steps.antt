-- ===== src/Server/Clock/Steps.antt =====
-- The single steps of the clock of cmd/populace: what a stopped clock does with its budget.
use populace.Prelude.{
  inl, inr, ℕ, zero, suc, ◌+◌, ◌-◌, ◌*◌, ◌≤◌, ◌≡◌, ◌⊎◌, refl, ap, ◌∙◌, Bool, true, false, none, min,
  ltb, Bool-cases, arith,
}
use populace.Prelude.Int.{pos}
use populace.Server.Clock.{Clock, Control, control, advance_sim, tick_once}

ℕ-cases : (n : ℕ) → (n ≡ 0) ⊎ ((k : ℕ) × (n ≡ suc k))
ℕ-cases zero = inl refl
ℕ-cases (suc k) = inr (k, refl)

module _ {Sim : Type 0} where
  -- So many rounds of the loop.
  unfoldable pub ticks : ℕ → (Sim → Sim × Bool) → Clock Sim → Clock Sim
  ticks zero advance c = c
  ticks (suc m) advance c = ticks m advance (tick_once advance c).0

  -- So many calls of `Advance`.
  unfoldable pub advances : ℕ → (Sim → Sim × Bool) → Sim → Sim
  advances zero advance s = s
  advances (suc k) advance s = advances k advance (advance s).0

  -- So many requests for `n` steps.
  unfoldable pub requests : ℕ → Sim → ℕ → Clock Sim → Clock Sim
  requests zero cleared n c = c
  requests (suc k) cleared n c =
      requests k cleared n
        (control cleared c (record { set_running = none; step = pos n; reset = false }))

  -- A round of a stopped clock with a budget takes one of it and advances, whether or not `Advance` panics.
  tick_step :
      (advance : Sim → Sim × Bool) (c : Clock Sim) (k : ℕ)
      → c.steps ≡ suc k
      → let d = (tick_once advance c).0 in
        (d.sim ≡ (advance c.sim).0) × (d.steps ≡ k) × (d.running ≡ c.running)
  unfolding tick_once advance_sim
  tick_step advance c k h =
      let budget : ltb 0 c.steps ≡ true = ground arith in
      elim (Bool-cases (advance c.sim).1) [
        | inl returned ↦ rw (budget, returned) (refl, omega (arith, h), refl)
        | inr panics ↦ rw (budget, panics) (refl, omega (arith, h), refl)
      ]

  tick_idle :
      (advance : Sim → Sim × Bool) (c : Clock Sim)
      → c.steps ≡ 0
      → c.running ≡ false
      → (tick_once advance c).0 ≡ c
  unfolding tick_once advance_sim
  tick_idle advance c h off = rw (h, off) refl

  -- A stopped clock with a budget of steps calls `Advance` once for each of them, panics included, however long
  -- the loop goes on; and then it stands still.
  pub stopped_steps :
      (m : ℕ) (advance : Sim → Sim × Bool) (c : Clock Sim)
      → c.running ≡ false
      → let d = ticks m advance c in
        (d.sim ≡ advances (min m c.steps) advance c.sim)
        × (d.steps ≡ c.steps - m)
        × (d.running ≡ false)
  unfolding ticks advances
  stopped_steps zero advance c off =
      let none' : min 0 c.steps ≡ 0 = omega arith in rw none' (refl, omega arith, off)
  stopped_steps (suc m) advance c off = elim (ℕ-cases c.steps) [
    | inl h ↦
        let (sim, left, still) = stopped_steps m advance c off in
        let stay = ap (ticks m advance) (tick_idle advance c h off) in
        let none' : min m c.steps ≡ min (suc m) c.steps = omega (arith, h) in
        let spent : c.steps - m ≡ c.steps - suc m = omega (arith, h) in
        (
          ap (λ d. d.sim) stay ∙ sim ∙ ap (λ j. advances j advance c.sim) none',
          ap (λ d. d.steps) stay ∙ left ∙ spent,
          ap (λ d. d.running) stay ∙ still,
        )
    | inr (k, h) ↦
        let d = (tick_once advance c).0 in
        let (sim, less, same) = tick_step advance c k h in
        let (rest, left, still) = stopped_steps m advance d (same ∙ off) in
        let more : suc (min m d.steps) ≡ min (suc m) c.steps = omega (arith, less, h) in
        (
          rest
              ∙ ap (advances (min m d.steps) advance) sim
              ∙ ap (λ j. advances j advance c.sim) more,
          omega (arith, left, less, h),
          still,
        )
  ]

  -- `k` requests for `n` steps, `n` at least 100, add 100 `k` to the budget: `control` bounds what one request adds,
  -- and not the budget.
  pub control_accumulates :
      (cleared : Sim) (k n : ℕ) (c : Clock Sim)
      → 100 ≤ n
      → (requests k cleared n c).steps ≡ c.steps + 100 * k
  unfolding requests control
  control_accumulates cleared zero n c many = omega arith
  control_accumulates cleared (suc k) n c many =
      let req : Control = record { set_running = none; step = pos n; reset = false } in
      let one : (control cleared c req).steps ≡ c.steps + 100 = ground arith in
      omega (arith, one, control_accumulates cleared k n (control cleared c req) many)
