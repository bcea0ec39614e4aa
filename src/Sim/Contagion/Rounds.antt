-- ===== src/Sim/Contagion/Rounds.antt =====
-- `AdvanceWith`, `Decay`, `Run` and `Reset` of internal/sim/contagion.go: how statuses move, and what the
-- counts they return mean.
use populace.Prelude.{
  ℕ, zero, suc, ◌+◌, ◌≤◌, ◌≡◌, refl, ap, ◌∙◌, ◌↔◌, ◌⊎◌, inl, inr, Bool, true, false, not, ◌&&◌,
  ◌||◌, Option, none, ◌==◌, if◌then◌else◌, arith, Bool-cases,
}
use populace.Prelude.Int.{pos, ltb_ℤ}
use populace.Prelude.Floats.{Floats}
use populace.Sim.Contagion.{
  Status, unaware, adopted, fatigued, Outcome, stays, adopts, is_adoption, is_unaware, Network,
  Contagion, count_below, evaluate, take_up, spent, decay, fade, advance_with, advance, run,
  run_from, reset, count,
}

-- A status is passed on only from left to right.
pub data Moves : Status → Status → Type 0 where
  same : (s : Status) → Moves s s
  adopting : Moves unaware adopted
  tiring : Moves adopted fatigued

pub Outcome-cases : (o : Outcome) → (o ≡ stays) ⊎ ((f : Bool) × (o ≡ adopts f))
Outcome-cases stays = inl refl
Outcome-cases (adopts f) = inr (f, refl)

-- Two tests that exclude each other.
pub count_or :
    (n : ℕ) (p q r : ℕ → Bool)
    → ((i : ℕ) → (r i ≡ p i || q i) × (p i && q i ≡ false))
    → count_below n r ≡ count_below n p + count_below n q
unfolding count_below
count_or zero p q r h = refl
count_or (suc n) p q r h = let ih = count_or n p q r h in let at = h n in ground arith

moves : (s t : Status) → (t ≡ s) ⊎ ((s ≡ adopted) × (t ≡ fatigued)) → Moves s t
moves s t (inl h) = rw h (same s)
moves s t (inr (h, k)) = rw (h, k) tiring

module _ (fl : Floats) where
  -- Only the unaware adopt.
  pub evaluate-unaware :
      (c : Contagion fl) (g : Network) (shown : Option (ℕ → ℕ)) (activity : Option (ℕ → fl.Float))
      (i : ℕ) (f : Bool)
      → evaluate fl c g shown activity i ≡ adopts f
      → c.state i ≡ unaware
  unfolding evaluate
  evaluate-unaware c g shown activity i f h = ground arith

  -- The statuses after a round.
  pub fade-state :
      (c : Contagion fl) (i : ℕ)
      → (fade fl c).state i ≡ (
          if ltb_ℤ (pos 0) c.transmit_for && spent fl c c.transmit_for i
          then fatigued
          else c.state i)
  unfolding fade decay
  fade-state c i = ground arith

  pub fade-n : (c : Contagion fl) → (fade fl c).n ≡ c.n
  unfolding fade decay
  fade-n c = ground arith

  fade-unaware :
      (c : Contagion fl) (i : ℕ) → is_unaware ((fade fl c).state i) ≡ is_unaware (c.state i)
  unfolding spent
  fade-unaware c i = rw (fade-state c i) (ground arith)

  take_up-unaware :
      (c : Contagion fl) (decided : ℕ → Outcome) (i : ℕ)
      → not (is_unaware ((take_up fl c decided).state i))
        ≡ not (is_unaware (c.state i)) || is_adoption (decided i)
  unfolding take_up
  take_up-unaware c decided i = elim (Outcome-cases (decided i)) [
    | inl h ↦ rw h (ground arith)
    | inr (f, h) ↦ rw h (ground arith)
  ]

  -- A persona that adopts does not tire in the same round.
  fresh :
      (c : Contagion fl) (decided : ℕ → Outcome) (i : ℕ) (f : Bool)
      → decided i ≡ adopts f
      → (fade fl (take_up fl c decided)).state i ≡ adopted
  unfolding take_up spent
  fresh c decided i f h = rw (fade-state (take_up fl c decided) i) (rw h (ground arith))

  -- `Decay` only moves an adopter on.
  fade-cases :
      (c : Contagion fl) (i : ℕ)
      → ((fade fl c).state i ≡ c.state i)
        ⊎ ((c.state i ≡ adopted) × ((fade fl c).state i ≡ fatigued))
  unfolding spent
  fade-cases c i = rw (fade-state c i) (ground arith)

  stale :
      (c : Contagion fl) (decided : ℕ → Outcome) (i : ℕ)
      → decided i ≡ stays
      → Moves (c.state i) ((fade fl (take_up fl c decided)).state i)
        × (is_unaware ((fade fl (take_up fl c decided)).state i) ≡ is_unaware (c.state i))
  unfolding take_up
  stale c decided i h =
      let kept : (take_up fl c decided).state i ≡ c.state i = rw h refl in
      (
        moves _ _ (rw kept at (fade-cases (take_up fl c decided) i)),
        fade-unaware (take_up fl c decided) i ∙ ap is_unaware kept,
      )

  apart :
      (c : Contagion fl) (g : Network) (shown : Option (ℕ → ℕ)) (activity : Option (ℕ → fl.Float))
      (i : ℕ)
      → not (is_unaware (c.state i)) && is_adoption (evaluate fl c g shown activity i) ≡ false
  apart c g shown activity i = elim (Outcome-cases (evaluate fl c g shown activity i)) [
    | inl h ↦ rw h (ground arith)
    | inr (f, h) ↦ rw (h, evaluate-unaware c g shown activity i f h) refl
  ]

  -- `AdvanceWith` returns by how many the adopters have grown.
  pub advance_with-count :
      (c : Contagion fl) (g : Network) (shown : Option (ℕ → ℕ)) (activity : Option (ℕ → fl.Float))
      → let r = advance_with fl c g shown activity in count fl r.0 ≡ count fl c + r.1
  unfolding advance_with take_up
  advance_with-count c g shown activity =
      let decided = evaluate fl c g shown activity in
      let d = take_up fl c decided in
      rw (fade-n d) (
        count_or c.n (λ i. not (is_unaware (c.state i))) (λ i. is_adoption (decided i))
          (λ i. not (is_unaware ((fade fl d).state i)))
          (λ i.
            (ap not (fade-unaware d i) ∙ take_up-unaware c decided i, apart c g shown activity i)))

  -- In a round a status stays, or goes one step on: an unaware persona adopts exactly when the rule says
  -- so, and does not tire in the round in which it adopts.
  pub advance_with-Moves :
      (c : Contagion fl) (g : Network) (shown : Option (ℕ → ℕ)) (activity : Option (ℕ → fl.Float))
      (i : ℕ)
      → let now = (advance_with fl c g shown activity).0 in
        Moves (c.state i) (now.state i)
        × ((is_adoption (evaluate fl c g shown activity i) ≡ true)
            ↔ ((c.state i ≡ unaware) × (now.state i ≡ adopted)))
  unfolding advance_with
  advance_with-Moves c g shown activity i =
      elim (Outcome-cases (evaluate fl c g shown activity i)) [
        | inl h ↦
            let (m, u) = stale c (evaluate fl c g shown activity) i h in
            (m, ((λ no. ground arith), λ both. ground arith))
        | inr (f, h) ↦
            let was = evaluate-unaware c g shown activity i f h in
            let is = fresh c (evaluate fl c g shown activity) i f h in
            (rw (was, is) adopting, ((λ yes. (was, is)), λ both. rw h refl))
      ]

  fade-feed_driven : (c : Contagion fl) → (fade fl c).feed_driven ≡ c.feed_driven
  unfolding fade decay
  fade-feed_driven c = ground arith

  take_up-feed_driven :
      (c : Contagion fl) (decided : ℕ → Outcome) (i : ℕ) (f : Bool)
      → decided i ≡ adopts f
      → (take_up fl c decided).feed_driven i ≡ f
  unfolding take_up
  take_up-feed_driven c decided i f h = rw h refl

  -- What a round notes of an adopter.
  pub advance_with-feed_driven :
      (c : Contagion fl) (g : Network) (shown : Option (ℕ → ℕ)) (activity : Option (ℕ → fl.Float))
      (i : ℕ) (f : Bool)
      → evaluate fl c g shown activity i ≡ adopts f
      → (advance_with fl c g shown activity).0.feed_driven i ≡ f
  unfolding advance_with
  advance_with-feed_driven c g shown activity i f h =
      let decided = evaluate fl c g shown activity in
      rw (fade-feed_driven (take_up fl c decided)) (take_up-feed_driven c decided i f h)

  -- The rule decides what becomes of an unaware persona.
  pub advance_with-decides :
      (c : Contagion fl) (g : Network) (shown : Option (ℕ → ℕ)) (activity : Option (ℕ → fl.Float))
      (i : ℕ)
      → let now = (advance_with fl c g shown activity).0.state i in
        c.state i ≡ unaware
        → ((evaluate fl c g shown activity i ≡ stays) × (now ≡ unaware))
          ⊎ ((f : Bool) × (evaluate fl c g shown activity i ≡ adopts f) × (now ≡ adopted))
  unfolding advance_with
  advance_with-decides c g shown activity i was =
      elim (Outcome-cases (evaluate fl c g shown activity i)) [
        | inl h ↦ let (m, u) = stale c (evaluate fl c g shown activity) i h in inl (h, ground arith)
        | inr (f, h) ↦ inr (f, h, fresh c (evaluate fl c g shown activity) i f h)
      ]

  run_from-count :
      (left : ℕ) (c : Contagion fl) (g : Network) (rounds total : ℕ)
      → let (d, last, grown) = run_from fl left c g rounds total in
        (last ≤ rounds + left) × (total + count fl d ≡ count fl c + grown)
  unfolding run_from advance
  run_from-count zero c g rounds total = omega arith
  run_from-count (suc left) c g rounds total =
      let (d, k) = advance fl c g in
      let grow = advance_with-count c g none none in
      let ih = run_from-count left d g (rounds + 1) (total + k) in
      elim (Bool-cases (k == 0)) [ inl h ↦ rw h omega arith | inr h ↦ rw h omega arith ]

  -- `Run` stops within its budget of rounds, and the adopters that it returns are those that the count has
  -- grown by.
  pub run-count :
      (c : Contagion fl) (g : Network) (max_rounds : ℕ)
      → let (d, rounds, grown) = run fl c g max_rounds in
        (rounds ≤ max_rounds) × (count fl d ≡ count fl c + grown)
  unfolding run
  run-count c g max_rounds = ground (arith, run_from-count max_rounds c g 0 0)

  pub reset-advance_with :
      (c : Contagion fl) (g : Network) (shown : Option (ℕ → ℕ)) (activity : Option (ℕ → fl.Float))
      → reset fl (advance_with fl c g shown activity).0 ≡ reset fl c
  unfolding reset advance_with fade take_up decay
  reset-advance_with c g shown activity = elim (Bool-cases (ltb_ℤ (pos 0) c.transmit_for)) [
    | inl h ↦ rw h refl
    | inr h ↦ rw h refl
  ]

  reset-run_from :
      (left : ℕ) (c : Contagion fl) (g : Network) (rounds total : ℕ)
      → reset fl (run_from fl left c g rounds total).0 ≡ reset fl c
  unfolding run_from advance
  reset-run_from zero c g rounds total = refl
  reset-run_from (suc left) c g rounds total =
      let (d, k) = advance fl c g in
      let ih = reset-run_from left d g (rounds + 1) (total + k) in
      elim (Bool-cases (k == 0)) [
        | inl h ↦ rw h (reset-advance_with c g none none)
        | inr h ↦ rw h (ih ∙ reset-advance_with c g none none)
      ]

  -- `Reset` after a run and after one more round with a feed and an activity leaves what `Reset` before the
  -- run leaves: no story reaches the next one.
  pub reset-run :
      (c : Contagion fl) (g : Network) (max_rounds : ℕ) (shown : Option (ℕ → ℕ))
      (activity : Option (ℕ → fl.Float))
      → reset fl (advance_with fl (run fl c g max_rounds).0 g shown activity).0 ≡ reset fl c
  unfolding run
  reset-run c g max_rounds shown activity =
      reset-advance_with (run fl c g max_rounds).0 g shown activity
      ∙ reset-run_from max_rounds c g 0 0
