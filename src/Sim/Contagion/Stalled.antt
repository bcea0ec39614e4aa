-- ===== src/Sim/Contagion/Stalled.antt =====
-- What `Run` of internal/sim/contagion.go relies on: a complex contagion that has stalled never restarts.
use populace.Prelude.{
  ℕ, zero, suc, ◌+◌, ◌≤◌, ◌<◌, ◌≡◌, refl, sym, All-mono, ◌∙◌, inl, inr, Bool, true, false, not,
  ◌&&◌, ◌||◌, none, length, arith, List, [], ◌∷◌, All, Bool-cases, ◌==◌, dec_lt,
}
use populace.Prelude.Int.{pos, leb_ℤ, ltb_ℤ}
use populace.Prelude.Floats.{Floats}
use populace.Sim.Contagion.Rounds.{
  Moves, same, adopting, tiring, advance_with-count, advance_with-Moves, fade-n,
}
use populace.Sim.Contagion.{
  Status, unaware, adopted, is_adopted, is_unaware, is_adoption, Network, Contagion, peers, need,
  decide_on, asleep, evaluate, count_below, advance_with, advance, run, run_from, count, fade,
  take_up, decay,
}

-- Every row of the first `n` personas stays among them.
abbrev pub IsWithin : Network → ℕ → Type 0
IsWithin g n = (i : ℕ) → i < n → All (λ j. j < n) (g i)

count_below-none : (n : ℕ) (p : ℕ → Bool) → count_below n p ≡ 0 → (i : ℕ) → i < n → p i ≡ false
unfolding count_below
count_below-none zero p h i below = ground arith
count_below-none (suc n) p h i below = elim (dec_lt i n) [
  | yes lower ↦ count_below-none n p (ground arith) i lower
  | no top ↦ let is : i ≡ n = omega arith in rw is (ground arith)
]

pub none-count_below :
    (n : ℕ) (p : ℕ → Bool) → ((i : ℕ) → i < n → p i ≡ false) → count_below n p ≡ 0
unfolding count_below
none-count_below zero p h = refl
none-count_below (suc n) p h =
    rw (h n (omega arith)) (none-count_below n p (λ i below. h i (omega arith)))

-- Fewer adopters are fewer confirmations.
peers-le :
    (s t : ℕ → Status) (row : List ℕ)
    → All (λ j. is_adopted (t j) ≡ true → is_adopted (s j) ≡ true) row
    → peers t row ≤ peers s row
unfolding peers
peers-le s t [] h = omega arith
peers-le s t (j ∷ row) h =
    let ih = peers-le s t row h.1 in
    elim (Bool-cases (is_adopted (t j))) [
      | inl up ↦ rw (up, h.0 up) omega arith
      | inr off ↦ rw off ground arith
    ]

Moves-quiet :
    {s t : Status}
    → Moves s t
    → (s ≡ unaware → t ≡ adopted → false ≡ true)
    → (is_adopted t ≡ true → is_adopted s ≡ true) × (is_unaware t ≡ is_unaware s)
Moves-quiet (same s) never = ((λ h. h), refl)
Moves-quiet adopting never = let wrong = never refl refl in ground arith
Moves-quiet tiring never = ((λ h. refl), refl)

module _ (fl : Floats) where
  -- No persona adopts on its ties alone.
  abbrev pub IsQuiet : Contagion fl → Network → Type 0
  IsQuiet c g = (i : ℕ) → i < c.n → is_adoption (evaluate fl c g none none i) ≡ false

  -- A round keeps what the rule depends on, but for the statuses.
  fade-rule :
      (c : Contagion fl) (i degree : ℕ)
      → ((fade fl c).simple ≡ c.simple) × (need fl (fade fl c) i degree ≡ need fl c i degree)
  unfolding fade decay need
  fade-rule c i degree = elim (Bool-cases (ltb_ℤ (pos 0) c.transmit_for)) [
    | inl h ↦ rw h (refl, refl)
    | inr h ↦ rw h (refl, refl)
  ]

  decide_on-complex :
      (c : Contagion fl) (i degree peer : ℕ)
      → c.simple ≡ false
      → is_adoption (decide_on fl c i degree peer 0)
        ≡ not (peer == 0 || degree == 0) && leb_ℤ (need fl c i degree) (pos peer)
  unfolding decide_on
  decide_on-complex c i degree peer complex = ground arith

  -- Fewer confirmations do not make a persona adopt.
  decide_on-le :
      (c d : Contagion fl) (i degree more less : ℕ)
      → c.simple ≡ false
      → d.simple ≡ c.simple
      → need fl d i degree ≡ need fl c i degree
      → less ≤ more
      → is_adoption (decide_on fl c i degree more 0) ≡ false
      → is_adoption (decide_on fl d i degree less 0) ≡ false
  decide_on-le c d i degree more less complex simple needs fewer h =
      let before = decide_on-complex c i degree more complex in
      let after = decide_on-complex d i degree less (simple ∙ complex) in
      let was = sym before ∙ h in rw (after, needs) ground arith

  round-rule :
      (c : Contagion fl) (g : Network) (i degree : ℕ)
      → let d = (advance fl c g).0 in
        (d.n ≡ c.n) × (d.simple ≡ c.simple) × (need fl d i degree ≡ need fl c i degree)
  unfolding advance advance_with take_up need
  round-rule c g i degree =
      let d = take_up fl c (evaluate fl c g none none) in
      (fade-n fl d, (fade-rule d i degree).0, (fade-rule d i degree).1)

  -- In a quiet round no one becomes an adopter, and the unaware stay so.
  quiet-state :
      (c : Contagion fl) (g : Network) (i : ℕ)
      → is_adoption (evaluate fl c g none none i) ≡ false
      → let now = (advance fl c g).0.state i in
        (is_adopted now ≡ true → is_adopted (c.state i) ≡ true)
        × (is_unaware now ≡ is_unaware (c.state i))
  unfolding advance
  quiet-state c g i quiet =
      let (m, e) = advance_with-Moves fl c g none none i in
      Moves-quiet m (λ was is. sym quiet ∙ e.1 (was, is))

  evaluate-none :
      (c : Contagion fl) (g : Network) (i : ℕ)
      → is_adoption (evaluate fl c g none none i)
        ≡ is_unaware (c.state i)
          && is_adoption (decide_on fl c i (length (g i)) (peers c.state (g i)) 0)
  unfolding evaluate asleep
  evaluate-none c g i = elim (Bool-cases (is_unaware (c.state i))) [
    | inl h ↦ rw h refl
    | inr h ↦ rw h refl
  ]

  IsQuiet-advance :
      (c : Contagion fl) (g : Network)
      → c.simple ≡ false
      → IsWithin g c.n
      → IsQuiet c g
      → IsQuiet (advance fl c g).0 g
  IsQuiet-advance c g complex within quiet i below =
      let d = (advance fl c g).0 in
      let (n, simple, needs) = round-rule c g i (length (g i)) in
      let inside : i < c.n = rw⁻¹ n below in
      let fewer : peers d.state (g i) ≤ peers c.state (g i) =
        peers-le c.state d.state (g i) (
          All-mono _ _ (g i) (λ j lower. (quiet-state c g j (quiet j lower)).0)
            (within i inside)) in
      let (_, asked) = quiet-state c g i (quiet i inside) in
      let was = sym (evaluate-none c g i) ∙ quiet i inside in
      elim (Bool-cases (is_unaware (c.state i))) [
        | inl fresh ↦
            rw (evaluate-none d g i, asked, fresh)
              (decide_on-le c d i (length (g i)) _ _ complex simple needs fewer (rw fresh at was))
        | inr aware ↦ rw (evaluate-none d g i, asked, aware) refl
      ]

  IsQuiet-none : (c : Contagion fl) (g : Network) → IsQuiet c g → (advance fl c g).1 ≡ 0
  unfolding advance advance_with
  IsQuiet-none c g quiet = none-count_below c.n _ quiet

  IsQuiet-count :
      (c : Contagion fl) (g : Network) → IsQuiet c g → count fl (advance fl c g).0 ≡ count fl c
  unfolding advance
  IsQuiet-count c g quiet =
      omega (arith, advance_with-count fl c g none none, IsQuiet-none c g quiet)

  count-IsQuiet : (c : Contagion fl) (g : Network) → (advance fl c g).1 ≡ 0 → IsQuiet c g
  unfolding advance advance_with
  count-IsQuiet c g h = count_below-none c.n _ h

  -- `k` rounds more.
  unfoldable pub later : ℕ → Contagion fl → Network → Contagion fl
  later zero c g = c
  later (suc k) c g = later k (advance fl c g).0 g

  later-count :
      (k : ℕ) (c : Contagion fl) (g : Network)
      → c.simple ≡ false
      → IsWithin g c.n
      → IsQuiet c g
      → count fl (later k c g) ≡ count fl c
  unfolding later
  later-count zero c g complex within quiet = refl
  later-count (suc k) c g complex within quiet =
      let (n, simple, _) = round-rule c g 0 0 in
      later-count k (advance fl c g).0 g (simple ∙ complex) (rw n within)
        (IsQuiet-advance c g complex within quiet)
      ∙ IsQuiet-count c g quiet

  run_from-IsQuiet :
      (left : ℕ) (c : Contagion fl) (g : Network) (rounds total : ℕ)
      → let (d, last, grown) = run_from fl left c g rounds total in
        c.simple ≡ false
        → IsWithin g c.n
        → last < rounds + left
        → (d.simple ≡ false) × IsWithin g d.n × IsQuiet d g
  unfolding run_from
  run_from-IsQuiet zero c g rounds total complex within = λ early. ground arith
  run_from-IsQuiet (suc left) c g rounds total complex within =
      let (d, k) = advance fl c g in
      let (n, simple, _) = round-rule c g 0 0 in
      let ih =
        run_from-IsQuiet left d g (rounds + 1) (total + k) (simple ∙ complex) (rw n within) in
      elim (Bool-cases (k == 0)) [
        | inl h ↦ rw h λ early. (
          simple ∙ complex,
          rw n within,
          IsQuiet-advance c g complex within (count-IsQuiet c g (ground arith)),
        )
        | inr h ↦ rw h λ early. ih omega arith
      ]

  -- When `Run` of a complex contagion, on a graph whose ties stay in the population, stops before its
  -- budget of rounds is spent, the fixed point is final: however many rounds over peer ties follow, the
  -- count of adopters stays.
  pub run_stalled :
      (c : Contagion fl) (g : Network) (max_rounds k : ℕ)
      → let (d, rounds, grown) = run fl c g max_rounds in
        c.simple ≡ false
        → IsWithin g c.n
        → rounds < max_rounds
        → count fl (later k d g) ≡ count fl d
  unfolding run
  run_stalled c g max_rounds k complex within early =
      let (still, inside, quiet) =
        run_from-IsQuiet max_rounds c g 0 0 complex within (omega arith) in
      later-count k _ g still inside quiet
