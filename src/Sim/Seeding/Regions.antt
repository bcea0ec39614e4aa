-- ===== src/Sim/Seeding/Regions.antt =====
-- `SeedRegion` of internal/sim/contagion.go: the positions it visits, and whom it makes adopters.
use populace.Prelude.{
  ℕ, zero, suc, ◌+◌, ◌-◌, ◌/◌, ◌%◌, ◌≤◌, ◌<◌, ◌≡◌, ◌≢◌, ◌⊎◌, inl, inr, refl, ◌∙◌, false, List, [],
  ◌∷◌, length, get_or, ltb, ◌==◌, if◌then◌else◌, dec_lt, dec_le, min, assign_ne, ℕ_discrete,
  length-append, Bool-cases, arith,
}
use populace.Prelude.Int.{pos, negsuc, sub_ℕ, ◌+ℤ◌, ◌-ℤ◌}
use native.Mathlib.Nat.{mod-eq_of_lt, mod-eq-sub-mod}
use populace.Prelude.Floats.{Floats}
use populace.Sim.Contagion.{is_unaware, unaware, adopted, Contagion, count}
use populace.Sim.Seeding.Growth.{Grown, Grown-refl, Grown-trans, seed_one-Grown}
use populace.Sim.Seeding.{seed_one, sweep, seed_region, wrap, position}

signed : (rank half off : ℕ) → pos rank -ℤ pos half +ℤ pos off ≡ sub_ℕ (rank + off) half
unfolding ◌-ℤ◌ ◌+ℤ◌
signed rank half off = ground arith

wrap-pos : (n a : ℕ) → wrap n (pos a) ≡ a
unfolding wrap
wrap-pos n a = ground arith

wrap-neg : (n b : ℕ) → 1 ≤ b → b ≤ n → wrap n (pos 0 -ℤ pos b) ≡ n - b
unfolding wrap ◌+ℤ◌ ◌-ℤ◌
wrap-neg n b some_one fits = ground arith

-- Below twice the modulus.
mod-cases : (a n : ℕ) → a < n + n → ((a < n) × (a % n ≡ a)) ⊎ ((n ≤ a) × (a % n ≡ a - n))
mod-cases a n h = elim (dec_lt a n) [
  | yes low ↦ inl (low, mod-eq_of_lt low)
  | no high ↦ inr (omega arith, mod-eq-sub-mod (omega arith) ∙ mod-eq_of_lt (omega arith))
]

-- `a` is `b - half`, modulo `n`.
abbrev IsShifted : ℕ → ℕ → ℕ → ℕ → Type 0
IsShifted n half a b = (a + half ≡ b) ⊎ ((a + half + n ≡ b) ⊎ (a + half ≡ b + n))

-- The position lies in the order, `off` places after the start of the region, around the end.
position_lem :
    (n rank k off : ℕ)
    → rank < n
    → off < k
    → k ≤ n
    → (position n rank k off < n) × IsShifted n (k / 2) (position n rank k off) (rank + off)
unfolding position
position_lem n rank k off ranked within fits = elim (dec_le (k / 2) (rank + off)) [
  | yes ahead ↦
      let is : sub_ℕ (rank + off) (k / 2) ≡ pos (rank + off - k / 2) = ground arith in
      rw (signed rank (k / 2) off, is)
        (elim (mod-cases (rank + off - k / 2) n (omega arith)) [
          | inl (low, e) ↦
              rw e (rw (wrap-pos n (rank + off - k / 2)) (omega arith, inl omega arith))
          | inr (high, e) ↦
              rw e (rw (wrap-pos n (rank + off - k / 2 - n)) (omega arith, inr (inl omega arith)))
        ])
  | no behind ↦
      let is : sub_ℕ (rank + off) (k / 2) ≡ negsuc (k / 2 - (rank + off) - 1) = ground arith in
      rw
        (
          signed rank (k / 2) off,
          is,
          mod-eq_of_lt {n = suc (k / 2 - (rank + off) - 1)} {m = n} (omega arith),
        )
        (rw (wrap-neg n (suc (k / 2 - (rank + off) - 1)) (omega arith) (omega arith))
          (omega arith, inr (inr omega arith)))
]

-- No position of a region of at most `n` is visited twice.
position_distinct :
    (n rank k off off' : ℕ)
    → rank < n
    → off < k
    → off' < k
    → k ≤ n
    → position n rank k off ≡ position n rank k off'
    → off ≡ off'
position_distinct n rank k off off' ranked within within' fits h =
    let a = position_lem n rank k off ranked within fits in
    let b = position_lem n rank k off' ranked within' fits in ground arith

-- The personas of an order are below its length, and each stands there once.
pub record IsOrder (order : List ℕ) : Type 0 where
  pub below : (p : ℕ) → p < length order → get_or order p 0 < length order
  pub once :
      (p q : ℕ) → p < length order → q < length order → get_or order p 0 ≡ get_or order q 0 → p ≡ q

module _ (fl : Floats) where
  -- A seeded persona was unaware or is left as it was; no one else changes.
  seed_one-others :
      (c : Contagion fl) (ids : List ℕ) (i j : ℕ)
      → i ≢ j
      → (seed_one fl c ids i).0.state j ≡ c.state j
  unfolding seed_one
  seed_one-others c ids i j other = elim (Bool-cases (is_unaware (c.state i))) [
    | inl free ↦ rw free (assign_ne ℕ_discrete c.state i j adopted other)
    | inr taken ↦ rw taken refl
  ]

  seed_one-length :
      (c : Contagion fl) (ids : List ℕ) (i : ℕ)
      → c.state i ≡ unaware
      → length (seed_one fl c ids i).1 ≡ suc (length ids)
  unfolding seed_one
  seed_one-length c ids i free = rw free omega (arith, length-append ids (i ∷ []))

  module _ (order : List ℕ) (rank k : ℕ) (o : IsOrder order) (ranked : rank < length order)
      (fits : k ≤ length order) where
    abbrev place : ℕ → ℕ
    place off = get_or order (position (length order) rank k off) 0

    inside : (off : ℕ) → off < k → position (length order) rank k off < length order
    inside off below = (position_lem (length order) rank k off ranked below fits).0

    apart : (off off' : ℕ) → off < off' → off' < k → place off ≢ place off'
    apart off off' less below same =
        let e =
          position_distinct (length order) rank k off off' ranked (omega arith) below fits
            (o.once _ _ (inside off (omega arith)) (inside off' below) same) in
        ground arith

    sweep-Grown :
        (left off : ℕ) (c : Contagion fl) (ids : List ℕ)
        → c.n ≡ length order
        → left + off ≡ k
        → ((later : ℕ) → off ≤ later → later < k → c.state (place later) ≡ unaware)
        → let all = sweep fl left off c order rank k ids in
          Grown fl c ids all.0 all.1 × (length all.1 ≡ length ids + left)
    unfolding sweep
    sweep-Grown zero off c ids n sum free = (Grown-refl fl c ids, omega arith)
    sweep-Grown (suc left) off c ids n sum free =
        let i = place off in
        let one = seed_one fl c ids i in
        let (step, _) = seed_one-Grown fl c ids i (rw n (o.below _ (inside off (omega arith)))) in
        let longer = seed_one-length c ids i (free off (omega arith) (omega arith)) in
        let (rest, sized) =
          sweep-Grown left (off + 1) one.0 one.1 (step.same_n ∙ n) (omega arith)
            (λ later after below.
              seed_one-others c ids i (place later) (apart off later (omega arith) below)
              ∙ free later (omega arith) below) in
        (Grown-trans fl c ids one.0 one.1 _ _ step rest, omega (arith, longer, sized))

  -- `SeedRegion` of `k` on a population that is all unaware, with an order that has each persona once,
  -- returns exactly `k` personas, or as many as there are if `k` is more, and the adopters grow by as many:
  -- though the region goes around the end of the order, no persona is met twice.
  pub seed_region-count :
      (c : Contagion fl) (order : List ℕ) (rank k : ℕ)
      → IsOrder order
      → c.n ≡ length order
      → rank < length order
      → ((i : ℕ) → c.state i ≡ unaware)
      → let (d, ids) = seed_region fl c order rank k in
        (length ids ≡ min k (length order)) × (count fl d ≡ count fl c + length ids)
  unfolding seed_region
  seed_region-count c order rank k o n ranked free =
      let k' = if ltb (length order) k then length order else k in
      let is : k' ≡ min k (length order) = ground arith in
      let some_one : (length order == 0) ≡ false = ground arith in
      let (grown, sized) =
        sweep-Grown order rank k' o ranked (ground arith) k' 0 c [] n (omega arith)
          (λ later after below. free _) in
      rw some_one (omega (arith, sized, is), omega (arith, grown.counted))
