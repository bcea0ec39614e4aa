-- ===== src/Sim/Graph/Rank/Archetypes.antt =====
-- `bucketByArchetype` of internal/sim/graph.go: what a bucket holds.
use populace.Prelude.{
  ℕ, zero, suc, ◌+◌, ◌-◌, ◌≤◌, ◌≡◌, refl, sym, ap, ◌∙◌, Bool, true, false, List, [], ◌∷◌, ◌++◌,
  length, length-append, ◌==◌, ==_iff, if◌then◌else◌, ℕ_discrete, arith, subst,
}
use native.Mathlib.Numerals.{add-one}
use mathlib.Core.List.{append-nil, append_assoc}
use populace.Sim.Contagion.{count_below}
use populace.Sim.Graph.{Event, back, Slots, place, place_pass, slice, offset}
use populace.Sim.Graph.Placement.{
  entries, received, entries_self, entries_other, Fits, place_pass-slice,
}
use populace.Sim.Graph.Rank.{tally, deal, bucket_by_archetype}
use populace.Sim.Graph.Rank.Counting.{tally_lem}

-- The numbers below `n` that pass the test, in order.
unfoldable pub those : ℕ → (ℕ → Bool) → List ℕ
those zero p = []
those (suc i) p = let rest = those i p in if p i then rest ++ i ∷ [] else rest

those-length : (n : ℕ) (p : ℕ → Bool) → length (those n p) ≡ count_below n p
unfolding those count_below
those-length zero p = refl
those-length (suc i) p = ground (arith, length-append (those i p) (i ∷ []), those-length i p)

module _ (arch : ℕ → ℕ) where
  events : ℕ → List Event
  events zero = []
  events (suc i) = events i ++ back i (arch i) ∷ []

  place_pass-append :
      (s : Slots) (es ds : List Event) → place_pass s (es ++ ds) ≡ place_pass (place_pass s es) ds
  unfolding place_pass
  place_pass-append s [] ds = refl
  place_pass-append s (e ∷ es) ds = place_pass-append (place s e) es ds

  deal-place_pass : (n : ℕ) (s : Slots) → deal n arch s ≡ place_pass s (events n)
  unfolding deal events place_pass
  deal-place_pass zero s = refl
  deal-place_pass (suc i) s =
      ap (λ t. place t (back i (arch i))) (deal-place_pass i s)
      ∙ sym (place_pass-append s (events i) (back i (arch i) ∷ []))

  received-append :
      (a : ℕ) (es ds : List Event) → received a (es ++ ds) ≡ received a es ++ received a ds
  unfolding received
  received-append a [] ds = refl
  received-append a (e ∷ es) ds =
      rw (received-append a es ds)
        (sym (append_assoc (entries a e) (received a es) (received a ds)))

  received-events : (a n : ℕ) → received a (events n) ≡ those n (λ i. arch i == a)
  unfolding received events those
  received-events a zero = refl
  received-events a (suc i) = elim (ℕ_discrete (arch i) a) [
    | yes e ↦
        let now : entries a (back i (arch i)) ≡ i ∷ [] =
          subst (λ q. entries q (back i (arch i)) ≡ i ∷ []) e (entries_self (back i (arch i))) in
        let on : (arch i == a) ≡ true = (==_iff (arch i) a).1 e in
        rw (received-append a (events i) (back i (arch i) ∷ []), now, received-events a i, on) refl
    | no other ↦
        let now = entries_other (back i (arch i)) a other in
        let off : (arch i == a) ≡ false = ground arith in
        rw (received-append a (events i) (back i (arch i) ∷ []), now, received-events a i, off)
          (append-nil (those i (λ k. arch k == a)))
  ]

  module _ (n : ℕ) where
    off' : ℕ → ℕ
    off' = offset (tally n arch)

    off-up : (i : ℕ) → off' i ≤ off' (suc i)
    unfolding off' offset
    off-up i = omega arith

    size : (a : ℕ) → off' (suc a) ≡ off' a + length (received a (events n))
    unfolding off' offset
    size a = rw (received-events a n, those-length n (λ i. arch i == a), tally_lem n arch a) refl

    starts_fit : Fits off' off-up (record { cur = off'; adj = λ p. 0 }) (events n)
    starts_fit = record { above = λ j. omega arith; room = λ j. omega (arith, size j) }

    -- The bucket of an archetype, from its offset to the next, holds exactly the personas of the archetype, in
    -- increasing order.
    pub bucket_by_archetype-those :
        (a : ℕ)
        → let b = bucket_by_archetype n arch in
          slice b.members (b.off a) (b.off (a + 1) - b.off a) ≡ those n (λ i. arch i == a)
    unfolding bucket_by_archetype off'
    bucket_by_archetype-those a =
        let s : Slots = record { cur = offset (tally n arch); adj = λ p. 0 } in
        let many : offset (tally n arch) (a + 1) - offset (tally n arch) a
            ≡ length (received a (events n)) =
          rw add-one omega (arith, size a) in
        rw (many, deal-place_pass n s)
          (place_pass-slice off' off-up s (events n) a starts_fit ∙ received-events a n)
