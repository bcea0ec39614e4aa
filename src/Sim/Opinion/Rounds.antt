-- ===== src/Sim/Opinion/Rounds.antt =====
-- internal/sim/opinion.go: rounds of `StepWith` after a `Broadcast`, and how `Settle` ends.
use populace.Prelude.{
  ℕ, zero, suc, ◌+◌, ◌≤◌, ◌<◌, ◌≡◌, ◌⊎◌, inl, inr, refl, sym, ap, ◌∙◌, subst, true, false, Option,
  none, some, List, [], ◌∷◌, Among, ltb, assign, assign_self, assign_ne, ℕ_discrete, Bool-cases,
  arith,
}
use populace.Prelude.Floats.{Floats}
use populace.Sim.Contagion.{Network}
use populace.Sim.Opinion.{
  Opinion, Pull, heard, social, step_with, step, next_y, move, settle_from, settle, broadcast,
}

module _ (fl : Floats) where
  open fl use {Float, of_ℕ, add, sub, mul, lt}

  -- What floats do with a susceptibility of 0 and this stance, of whatever is heard that is a finite number: it does not
  -- count.
  pub record IsAnchor (IsFinite : Float → Type 0) (stance : Float) : Type 0 where
    pub holds :
        (heard : Float)
        → IsFinite heard
        → add (mul (of_ℕ 0) heard) (mul (sub (of_ℕ 1) (of_ℕ 0)) stance) ≡ stance

  -- What persona `i` hears in a round, if it hears anything, is a finite number.
  abbrev pub Holds : (Float → Type 0) → Option Float → Type 0
  Holds IsFinite none = Unit {0}
  Holds IsFinite (some s) = IsFinite s

  -- So it is in each of these rounds.
  abbrev pub HearsFinite :
      (Float → Type 0) → ℕ → ℕ → Opinion fl → List (Network × Option (Pull fl)) → Type 0
  HearsFinite IsFinite gomaxprocs i o [] = Unit {0}
  HearsFinite IsFinite gomaxprocs i o ((g, pull) ∷ later) =
      Holds IsFinite (heard fl pull i (social fl o.y (g i)))
      × HearsFinite IsFinite gomaxprocs i (step_with fl gomaxprocs o g pull).0 later

  -- A persona that only ever says the same.
  pub record IsStubborn (o : Opinion fl) (stance : Float) (i : ℕ) : Type 0 where
    pub unmoved : o.lambda i ≡ of_ℕ 0
    pub anchored : o.prior i ≡ stance
    pub says : o.y i ≡ stance

  -- Rounds on any graphs and with any feeds.
  unfoldable pub rounds : ℕ → Opinion fl → List (Network × Option (Pull fl)) → Opinion fl
  rounds gomaxprocs o [] = o
  rounds gomaxprocs o ((g, pull) ∷ later) =
      rounds gomaxprocs (step_with fl gomaxprocs o g pull).0 later

  move-IsStubborn :
      (IsFinite : Float → Type 0) (o : Opinion fl) (stance : Float) (i : ℕ) (s : Option Float)
      → IsAnchor IsFinite stance
      → Holds IsFinite s
      → IsStubborn o stance i
      → move fl o i s ≡ stance
  unfolding move
  move-IsStubborn IsFinite o stance i none a fine h = h.says
  move-IsStubborn IsFinite o stance i (some s) a fine h =
      ap (λ l. add (mul l s) (mul (sub (of_ℕ 1) l) (o.prior i))) h.unmoved
      ∙ ap (λ q. add (mul (of_ℕ 0) s) (mul (sub (of_ℕ 1) (of_ℕ 0)) q)) h.anchored
      ∙ a.holds s fine

  step_with-IsStubborn :
      (IsFinite : Float → Type 0) (gomaxprocs : ℕ) (o : Opinion fl) (g : Network)
      (pull : Option (Pull fl)) (stance : Float) (i : ℕ)
      → IsAnchor IsFinite stance
      → Holds IsFinite (heard fl pull i (social fl o.y (g i)))
      → IsStubborn o stance i
      → IsStubborn (step_with fl gomaxprocs o g pull).0 stance i
  unfolding step_with next_y
  step_with-IsStubborn IsFinite gomaxprocs o g pull stance i a fine h = record {
    unmoved = h.unmoved;
    anchored = h.anchored;
    says = elim (Bool-cases (ltb i o.n)) [
      | inl low ↦ rw low (move-IsStubborn IsFinite o stance i _ a fine h)
      | inr high ↦ rw high h.says
    ];
  }

  rounds-IsStubborn :
      (IsFinite : Float → Type 0) (gomaxprocs : ℕ) (o : Opinion fl)
      (later : List (Network × Option (Pull fl))) (stance : Float) (i : ℕ)
      → IsAnchor IsFinite stance
      → HearsFinite IsFinite gomaxprocs i o later
      → IsStubborn o stance i
      → IsStubborn (rounds gomaxprocs o later) stance i
  unfolding rounds
  rounds-IsStubborn IsFinite gomaxprocs o [] stance i a fine h = h
  rounds-IsStubborn IsFinite gomaxprocs o ((g, pull) ∷ later) stance i a (fine, rest) h =
      rounds-IsStubborn IsFinite gomaxprocs (step_with fl gomaxprocs o g pull).0 later stance i a
        rest (step_with-IsStubborn IsFinite gomaxprocs o g pull stance i a fine h)

  abbrev anchor : Opinion fl → ℕ → Float → Opinion fl
  anchor o id stance = record o {
    lambda = assign ℕ_discrete o.lambda id (of_ℕ 0);
    prior = assign ℕ_discrete o.prior id stance;
    y = assign ℕ_discrete o.y id stance;
  }

  anchor-IsStubborn :
      (o : Opinion fl) (id : ℕ) (stance : Float) → IsStubborn (anchor o id stance) stance id
  anchor-IsStubborn o id stance = record {
    unmoved = assign_self ℕ_discrete o.lambda id (of_ℕ 0);
    anchored = assign_self ℕ_discrete o.prior id stance;
    says = assign_self ℕ_discrete o.y id stance;
  }

  anchor-kept :
      (o : Opinion fl) (id i : ℕ) (stance : Float)
      → IsStubborn o stance i
      → IsStubborn (anchor o id stance) stance i
  anchor-kept o id i stance h = elim (ℕ_discrete id i) [
    | yes e ↦
        subst (λ q. IsStubborn (anchor o id stance) stance q) e (anchor-IsStubborn o id stance)
    | no other ↦ record {
      unmoved = assign_ne ℕ_discrete o.lambda id i (of_ℕ 0) other ∙ h.unmoved;
      anchored = assign_ne ℕ_discrete o.prior id i stance other ∙ h.anchored;
      says = assign_ne ℕ_discrete o.y id i stance other ∙ h.says;
    }
  ]

  broadcast-kept :
      (o : Opinion fl) (ids : List ℕ) (stance : Float) (i : ℕ)
      → IsStubborn o stance i
      → IsStubborn (broadcast fl o ids stance).0 stance i
  unfolding broadcast
  broadcast-kept o [] stance i h = h
  broadcast-kept o (id ∷ ids) stance i h =
      broadcast-kept (anchor o id stance) ids stance i (anchor-kept o id i stance h)

  broadcast-IsStubborn :
      (o : Opinion fl) (ids : List ℕ) (stance : Float) (i : ℕ)
      → Among i ids
      → IsStubborn (broadcast fl o ids stance).0 stance i
  unfolding broadcast
  broadcast-IsStubborn o [] stance i m = absurd m
  broadcast-IsStubborn o (id ∷ ids) stance i (inl e) =
      broadcast-kept (anchor o id stance) ids stance i
        (subst (λ q. IsStubborn (anchor o id stance) stance q) e (anchor-IsStubborn o id stance))
  broadcast-IsStubborn o (id ∷ ids) stance i (inr m) =
      broadcast-IsStubborn (anchor o id stance) ids stance i m

  -- Where a susceptibility of 0 lets a finite number that is heard count for nothing against the stance: whoever is among
  -- those that `Broadcast` sets to the stance still says it after any rounds, on whatever graphs and with whatever feeds,
  -- in which what it hears is finite.
  pub broadcast-rounds :
      (IsFinite : Float → Type 0) (gomaxprocs : ℕ) (o : Opinion fl) (ids : List ℕ) (stance : Float)
      (later : List (Network × Option (Pull fl))) (i : ℕ)
      → IsAnchor IsFinite stance
      → HearsFinite IsFinite gomaxprocs i (broadcast fl o ids stance).0 later
      → Among i ids
      → (rounds gomaxprocs (broadcast fl o ids stance).0 later).y i ≡ stance
  broadcast-rounds IsFinite gomaxprocs o ids stance later i a fine m =
      (rounds-IsStubborn IsFinite gomaxprocs (broadcast fl o ids stance).0 later stance i a fine
        (broadcast-IsStubborn o ids stance i m)).says

  -- So many rounds without a feed.
  unfoldable pub iterate : ℕ → ℕ → Opinion fl → Network → Opinion fl
  iterate gomaxprocs zero o g = o
  iterate gomaxprocs (suc k) o g = iterate gomaxprocs k (step fl gomaxprocs o g).0 g

  -- How a run of rounds ends that has so many left, of which it does `k`, and gives `d`: the move of its last round, or
  -- `d0` if it does none. The move of every round before the last is not below the tolerance.
  pub record IsSettled (gomaxprocs left : ℕ) (o : Opinion fl) (g : Network) (tol d0 : Float) (k : ℕ)
      (d : Float) : Type 0 where
    pub within : k ≤ left
    pub none_done : k ≡ 0 → (left ≡ 0) × (d ≡ d0)
    pub last : (j : ℕ) → k ≡ suc j → d ≡ (step fl gomaxprocs (iterate gomaxprocs j o g) g).1
    pub moving :
        (j : ℕ) → suc j < k → lt (step fl gomaxprocs (iterate gomaxprocs j o g) g).1 tol ≡ false
    pub why : (lt d tol ≡ true) ⊎ (k ≡ left)

  later-IsSettled :
      (gomaxprocs left : ℕ) (o : Opinion fl) (g : Network) (tol d0 : Float) (k : ℕ) (d : Float)
      → let one = step fl gomaxprocs o g in
        lt one.1 tol ≡ false
        → IsSettled gomaxprocs left one.0 g tol one.1 k d
        → IsSettled gomaxprocs (suc left) o g tol d0 (suc k) d
  unfolding iterate
  later-IsSettled gomaxprocs left o g tol d0 zero d moving ends = record {
    within = omega arith;
    none_done = λ h. absurd (omega arith);
    last = λ j h. let first : j ≡ 0 = omega arith in rw first (ends.none_done refl).1;
    moving = λ j h. absurd (omega arith);
    why = inr (ap suc (sym (ends.none_done refl).0));
  }
  later-IsSettled gomaxprocs left o g tol d0 (suc k) d moving ends = record {
    within = omega (arith, ends.within);
    none_done = λ h. absurd (omega arith);
    last = λ j h. elim (ℕ_discrete j (suc k)) [
      | yes is ↦ rw is (ends.last k refl)
      | no other ↦ absurd (omega arith)
    ];
    moving = earlier;
    why = elim ends.why [ inl h ↦ inl h | inr e ↦ inr (ap suc e) ];
  }
    where
      earlier :
          (j : ℕ)
          → suc j < suc (suc k)
          → lt (step fl gomaxprocs (iterate gomaxprocs j o g) g).1 tol ≡ false
      earlier zero h = moving
      earlier (suc j) h = ends.moving j (omega arith)

  settle_from_lem :
      (gomaxprocs left : ℕ) (o : Opinion fl) (g : Network) (tol : Float) (r : ℕ) (d : Float)
      → let (o', r', d') = settle_from fl gomaxprocs left o g tol r d in
        (k : ℕ) × (r' ≡ r + k)
        × (o' ≡ iterate gomaxprocs k o g)
        × IsSettled gomaxprocs left o g tol d k d'
  unfolding settle_from iterate
  settle_from_lem gomaxprocs zero o g tol r d = (
    0,
    omega arith,
    refl,
    record {
      within = omega arith;
      none_done = λ h. (refl, refl);
      last = λ j h. absurd (omega arith);
      moving = λ j h. absurd (omega arith);
      why = inr refl;
    },
  )
  settle_from_lem gomaxprocs (suc left) o g tol r d =
      let one = step fl gomaxprocs o g in
      elim (Bool-cases (lt one.1 tol)) [
        | inl still ↦ rw still (
          1,
          refl,
          refl,
          record {
            within = omega arith;
            none_done = λ h. absurd (omega arith);
            last = λ j h. let first : j ≡ 0 = omega arith in rw first refl;
            moving = λ j h. absurd (omega arith);
            why = inl still;
          },
        )
        | inr moving ↦
            let (k, is, at, ends) = settle_from_lem gomaxprocs left one.0 g tol (r + 1) one.1 in
            rw moving
              (suc k, omega arith, at, later-IsSettled gomaxprocs left o g tol d k _ moving ends)
      ]

  -- `Settle` ends within its budget of rounds, and leaves what as many calls of `Step` leave as it says that it made. The
  -- move that it reports is that of the last of them, or infinite if its budget is 0; the move of every one before the
  -- last is not below the tolerance; and if they are fewer than the budget, that of the last one is.
  pub settle_lem :
      (gomaxprocs : ℕ) (o : Opinion fl) (g : Network) (max_rounds : ℕ) (tol infinity : Float)
      → let (o', r, d) = settle fl gomaxprocs o g max_rounds tol infinity in
        (o' ≡ iterate gomaxprocs r o g) × IsSettled gomaxprocs max_rounds o g tol infinity r d
  unfolding settle
  settle_lem gomaxprocs o g max_rounds tol infinity =
      let out = settle_from fl gomaxprocs max_rounds o g tol 0 infinity in
      let (k, is, at, ends) = settle_from_lem gomaxprocs max_rounds o g tol 0 infinity in
      let same : k ≡ out.1 = omega arith in
      (
        at ∙ ap (λ q. iterate gomaxprocs q o g) same,
        subst (λ q. IsSettled gomaxprocs max_rounds o g tol infinity q out.2) same ends,
      )
