-- ===== src/Sim/Contagion/Timing.antt =====
-- `AdoptedAt`, `TransmitFor` and `Decay` of internal/sim/contagion.go: how long an adopter transmits.
use populace.Prelude.{
  ℕ, ◌+◌, ◌-◌, ◌≤◌, ◌≡◌, refl, sym, ◌∙◌, inl, inr, true, false, ◌&&◌, Option, none, some, arith,
  Bool-cases,
}
use populace.Prelude.Int.{ℤ, pos, ltb_ℤ, ◌<ℤ◌}
use populace.Prelude.Floats.{Floats}
use populace.Sim.Contagion.Rounds.{Outcome-cases, fade-state}
use populace.Sim.Contagion.{
  Status, unaware, adopted, fatigued, Outcome, Network, Contagion, evaluate, spent, advance_with,
  fade, take_up, decay,
}

-- An `AdoptedAt` that fits the status at a step: -1 until the persona adopts, a round up to now from then on.
abbrev pub IsDated : ℕ → Status → Option ℕ → Type 0
IsDated step unaware at = at ≡ none
IsDated step adopted at = (t : ℕ) × (at ≡ some t) × (t ≤ step)
IsDated step fatigued at = (t : ℕ) × (at ≡ some t) × (t ≤ step)

IsDated-later :
    (step : ℕ) (s : Status) (at : Option ℕ) → IsDated step s at → IsDated (step + 1) s at
IsDated-later step unaware at h = h
IsDated-later step adopted at (t, e, le) = (t, e, omega arith)
IsDated-later step fatigued at (t, e, le) = (t, e, omega arith)

IsDated-tired : (step : ℕ) (at : Option ℕ) → IsDated step adopted at → IsDated step fatigued at
IsDated-tired step at h = h

module _ (fl : Floats) where
  abbrev pub IsTimed : Contagion fl → Type 0
  IsTimed c = (i : ℕ) → IsDated c.step (c.state i) (c.adopted_at i)

  take_up-IsDated :
      (c : Contagion fl) (decided : ℕ → Outcome) (i : ℕ)
      → IsDated c.step (c.state i) (c.adopted_at i)
      → let d = take_up fl c decided in IsDated d.step (d.state i) (d.adopted_at i)
  unfolding take_up
  take_up-IsDated c decided i h = elim (Outcome-cases (decided i)) [
    | inl quiet ↦ rw quiet (IsDated-later c.step (c.state i) (c.adopted_at i) h)
    | inr (f, loud) ↦ rw loud (c.step + 1, refl, omega arith)
  ]

  fade-clock :
      (c : Contagion fl)
      → ((fade fl c).step ≡ c.step)
        × ((fade fl c).adopted_at ≡ c.adopted_at)
        × ((fade fl c).transmit_for ≡ c.transmit_for)
  unfolding fade decay
  fade-clock c = ground arith

  spent-adopted :
      (c : Contagion fl) (after : ℤ) (i : ℕ) → spent fl c after i ≡ true → c.state i ≡ adopted
  unfolding spent
  spent-adopted c after i h = ground arith

  unspent :
      (c : Contagion fl) (after : ℤ) (i t : ℕ)
      → spent fl c after i ≡ false
      → c.state i ≡ adopted
      → c.adopted_at i ≡ some t
      → pos (c.step - t) <ℤ after
  unfolding spent
  unspent c after i t h is at = ground arith

  fade-IsDated :
      (c : Contagion fl) (i : ℕ)
      → IsDated c.step (c.state i) (c.adopted_at i)
      → let d = fade fl c in IsDated d.step (d.state i) (d.adopted_at i)
  fade-IsDated c i h =
      rw ((fade-clock c).0, (fade-clock c).1, fade-state fl c i)
        (elim (Bool-cases (ltb_ℤ (pos 0) c.transmit_for && spent fl c c.transmit_for i)) [
          | inl tired ↦
              let is = spent-adopted c c.transmit_for i (ground arith) in
              rw tired (IsDated-tired c.step (c.adopted_at i) (rw is at h))
          | inr going ↦ rw going h
        ])

  -- An adopter that still transmits after a round adopted fewer than `TransmitFor` rounds ago.
  fade-bound :
      (c : Contagion fl) (i : ℕ)
      → IsDated c.step (c.state i) (c.adopted_at i)
      → pos 0 <ℤ c.transmit_for
      → (fade fl c).state i ≡ adopted
      → (t : ℕ) × (c.adopted_at i ≡ some t) × (t ≤ c.step) × (pos (c.step - t) <ℤ c.transmit_for)
  fade-bound c i h on is =
      let now = sym (fade-state fl c i) ∙ is in
      let still : spent fl c c.transmit_for i ≡ false = ground arith in
      let up : c.state i ≡ adopted = ground arith in
      let (t, at, past) = (rw up at h) in (t, at, past, unspent c c.transmit_for i t still up at)

  -- A round keeps every `AdoptedAt` in step with its status: -1 while unaware, a round of the past after.
  pub advance_with-IsTimed :
      (c : Contagion fl) (g : Network) (shown : Option (ℕ → ℕ)) (activity : Option (ℕ → fl.Float))
      → IsTimed c
      → IsTimed (advance_with fl c g shown activity).0
  unfolding advance_with
  advance_with-IsTimed c g shown activity h i =
      let decided = evaluate fl c g shown activity in
      fade-IsDated (take_up fl c decided) i (take_up-IsDated c decided i (h i))

  -- With a positive `TransmitFor`, from a state whose `AdoptedAt` fit its statuses, whoever still transmits
  -- after a round adopted fewer rounds ago than the bound.
  pub transmit_for_bound :
      (c : Contagion fl) (g : Network) (shown : Option (ℕ → ℕ)) (activity : Option (ℕ → fl.Float))
      (i : ℕ)
      → let d = (advance_with fl c g shown activity).0 in
        IsTimed c
        → pos 0 <ℤ c.transmit_for
        → d.state i ≡ adopted
        → (t : ℕ) × (d.adopted_at i ≡ some t) × (t ≤ d.step) × (pos (d.step - t) <ℤ c.transmit_for)
  unfolding advance_with take_up
  transmit_for_bound c g shown activity i h on is =
      let d = take_up fl c (evaluate fl c g shown activity) in
      rw ((fade-clock d).0, (fade-clock d).1)
        (fade-bound d i (take_up-IsDated c (evaluate fl c g shown activity) i (h i)) on is)
