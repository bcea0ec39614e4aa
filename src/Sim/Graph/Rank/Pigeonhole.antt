-- ===== src/Sim/Graph/Rank/Pigeonhole.antt =====
-- Ranks below `n` that are all different: each number below `n` is one of them.
use populace.Prelude.{
  ℕ, zero, suc, ◌≤◌, ◌<◌, ◌≡◌, ◌≢◌, inl, inr, refl, ◌∙◌, Bool, true, false, ◌||◌, ◌==◌, ap,
  ℕ_discrete, Bool-cases, arith,
}
use populace.Sim.Contagion.{count_below}
use populace.Sim.Seeding.Growth.{count_below-gain, count_below-le}

-- `p` is one of the first `m` values.
hit : ℕ → (ℕ → ℕ) → ℕ → Bool
hit zero f p = false
hit (suc m) f p = f m == p || hit m f p

hit-index : (m : ℕ) (f : ℕ → ℕ) (p : ℕ) → hit m f p ≡ true → (i : ℕ) × (i < m) × (f i ≡ p)
unfolding hit
hit-index zero f p h = absurd (cc)
hit-index (suc m) f p h = elim (Bool-cases (f m == p)) [
  | inl now ↦ (m, omega arith, ground arith)
  | inr other ↦ let (i, below, e) = hit-index m f p (ground arith) in (i, omega arith, e)
]

hit-none : (m : ℕ) (f : ℕ → ℕ) (p : ℕ) → ((i : ℕ) → i < m → f i ≢ p) → hit m f p ≡ false
unfolding hit
hit-none zero f p h = refl
hit-none (suc m) f p h =
    let now = h m (omega arith) in
    ground (arith, hit-none m f p (λ i below. h i (omega arith)), now)

count_below-none : (n : ℕ) → count_below n (λ p. false) ≡ 0
unfolding count_below
count_below-none zero = refl
count_below-none (suc n) = count_below-none n

-- A test that holds as often as there are numbers holds everywhere.
count_below-full : (n : ℕ) (p : ℕ → Bool) (i : ℕ) → count_below n p ≡ n → i < n → p i ≡ true
unfolding count_below
count_below-full zero p i h below = absurd (omega arith)
count_below-full (suc n) p i h below = elim (Bool-cases (p n)) [
  | inl on ↦
      let rest : count_below n p ≡ n = ground arith in
      elim (ℕ_discrete i n) [
        | yes e ↦ rw e on
        | no other ↦ count_below-full n p i rest (omega arith)
      ]
  | inr off ↦ absurd (let few = count_below-le n p in ground arith)
]

module _ (n : ℕ) (f : ℕ → ℕ) (inside : (i : ℕ) → i < n → f i < n)
    (apart : (i j : ℕ) → i < j → j < n → f i ≢ f j) where
  hits : (m : ℕ) → m ≤ n → count_below n (hit m f) ≡ m
  unfolding hit
  hits zero within = count_below-none n
  hits (suc m) within =
      count_below-gain n (hit m f) (hit (suc m) f) (f m) (inside m (omega arith))
        (hit-none m f (f m) (λ i below. apart i m below (omega arith))) (ground arith)
        (λ j other. ground arith)
      ∙ ap suc (hits m (omega arith))

  pub onto : (p : ℕ) → p < n → (i : ℕ) × (i < n) × (f i ≡ p)
  onto p below = hit-index n f p (count_below-full n (hit n f) p (hits n (omega arith)) below)
