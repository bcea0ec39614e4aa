-- ===== src/Sim/Graph/Rank/Counting.antt =====
-- The counting sort of internal/sim/graph.go ranks by cell, and within a cell by index.
use populace.Prelude.{
  ℕ, zero, suc, ◌+◌, ◌≤◌, ◌<◌, ◌≡◌, ◌≢◌, refl, sym, ap, ◌∙◌, Bool, true, false, ◌==◌, ltb,
  if◌then◌else◌, assign_self, assign_ne, ℕ_discrete, dec_lt, ==_iff, ◌-◌, subst, arith,
}
use native.Mathlib.Nat.{add-zero}
use populace.Sim.Contagion.{count_below}
use populace.Sim.Seeding.Growth.{count_below-le, count_below-ext}
use populace.Sim.Graph.{offset}
use populace.Sim.Graph.Rank.{tally, rank_upto, spatial_rank}

-- A test that splits in two.
count_below-split :
    (n : ℕ) (p q r : ℕ → Bool)
    → ((j : ℕ) → (if r j then 1 else 0) ≡ (if p j then 1 else 0) + (if q j then 1 else 0))
    → count_below n r ≡ count_below n p + count_below n q
unfolding count_below
count_below-split zero p q r h = omega arith
count_below-split (suc n) p q r h = ground (arith, h n, count_below-split n p q r h)

pub count_below-before :
    (n : ℕ) (p : ℕ → Bool) (i : ℕ) → i < n → p i ≡ true → suc (count_below i p) ≤ count_below n p
unfolding count_below
count_below-before zero p i below on = absurd (omega arith)
count_below-before (suc n) p i below on = elim (ℕ_discrete i n) [
  | yes e ↦ rw e (let top : p n ≡ true = rw (sym e) on in rw top (omega arith))
  | no other ↦ ground (arith, count_below-before n p i)
]

count_below-zero : (n : ℕ) → count_below n (λ j. false) ≡ 0
unfolding count_below
count_below-zero zero = refl
count_below-zero (suc n) = count_below-zero n

pub tally_lem : (n : ℕ) (cell : ℕ → ℕ) (c : ℕ) → tally n cell c ≡ count_below n (λ j. cell j == c)
unfolding tally count_below
tally_lem zero cell c = refl
tally_lem (suc i) cell c = elim (ℕ_discrete (cell i) c) [
  | yes e ↦ rw (← e) (
      rw (assign_self ℕ_discrete (tally i cell) (cell i) (tally i cell (cell i) + 1))
        (ground (arith, tally_lem i cell (cell i))))
  | no other ↦
      rw (assign_ne ℕ_discrete (tally i cell) (cell i) c (tally i cell (cell i) + 1) other)
        (ground (arith, tally_lem i cell c))
]

-- A cell starts behind the personas of the cells before it.
pub starts_lem :
    (n : ℕ) (cell : ℕ → ℕ) (c : ℕ) → offset (tally n cell) c ≡ count_below n (λ j. ltb (cell j) c)
unfolding offset
starts_lem n cell zero = sym (
    count_below-ext n (λ j. false) (λ j. ltb (cell j) 0) (λ j below. ground arith)
    ∙ count_below-zero n)
starts_lem n cell (suc c) =
    rw (starts_lem n cell c, tally_lem n cell c)
      (sym (
        count_below-split n (λ j. ltb (cell j) c) (λ j. cell j == c) (λ j. ltb (cell j) (suc c))
          (λ j. ground arith)))

module _ (cell starts : ℕ → ℕ) where
  counts_lem :
      (m c : ℕ) → (rank_upto m cell starts).counts c ≡ starts c + count_below m (λ j. cell j == c)
  unfolding rank_upto count_below
  counts_lem zero c = omega arith
  counts_lem (suc i) c =
      let s = rank_upto i cell starts in
      elim (ℕ_discrete (cell i) c) [
        | yes e ↦ rw (← e) (
            rw (assign_self ℕ_discrete s.counts (cell i) (s.counts (cell i) + 1))
              (ground (arith, counts_lem i (cell i))))
        | no other ↦
            rw (assign_ne ℕ_discrete s.counts (cell i) c (s.counts (cell i) + 1) other)
              (ground (arith, counts_lem i c))
      ]

  rank_lem :
      (m i : ℕ)
      → i < m
      → (rank_upto m cell starts).rank i ≡ starts (cell i) + count_below i (λ j. cell j == cell i)
  unfolding rank_upto
  rank_lem zero i below = absurd (omega arith)
  rank_lem (suc m) i below =
      let s = rank_upto m cell starts in
      elim (ℕ_discrete m i) [
        | yes e ↦
            rw (← e) (assign_self ℕ_discrete s.rank m (s.counts (cell m)) ∙ counts_lem m (cell m))
        | no other ↦
            assign_ne ℕ_discrete s.rank m i (s.counts (cell m)) other ∙ rank_lem m i (omega arith)
      ]

-- The rank of a persona is the number of personas in the cells before its own, and of those before it in its own:
-- the sort is by cell, and stable.
pub spatial_rank-stable :
    (n : ℕ) (cell : ℕ → ℕ) (i : ℕ)
    → i < n
    → spatial_rank n cell i
      ≡ count_below n (λ j. ltb (cell j) (cell i)) + count_below i (λ j. cell j == cell i)
unfolding spatial_rank
spatial_rank-stable n cell i below =
    rank_lem cell (offset (tally n cell)) n i below
    ∙ ap (λ (q : ℕ). q + count_below i (λ j. cell j == cell i)) (starts_lem n cell (cell i))

offset_mono : (cap : ℕ → ℕ) (i d : ℕ) → offset cap i ≤ offset cap (i + d)
unfolding offset
offset_mono cap i zero = rw (add-zero i) omega arith
offset_mono cap i (suc d) =
    let e : i + suc d ≡ suc (i + d) = omega arith in rw e (omega (arith, offset_mono cap i d))

-- A rank lies in its cell's share of the ranks.
spatial_rank-cell :
    (n : ℕ) (cell : ℕ → ℕ) (i : ℕ)
    → i < n
    → (offset (tally n cell) (cell i) ≤ spatial_rank n cell i)
      × (suc (spatial_rank n cell i) ≤ offset (tally n cell) (suc (cell i)))
unfolding spatial_rank offset
spatial_rank-cell n cell i below =
    let at = rank_lem cell (offset (tally n cell)) n i below in
    let mine : (cell i == cell i) ≡ true = (==_iff (cell i) (cell i)).1 refl in
    let share = count_below-before n (λ j. cell j == cell i) i below mine in
    (omega (arith, at), omega (arith, at, share, tally_lem n cell (cell i)))

-- Ranks are below `n`, and two personas have different ones.
pub spatial_rank-inside : (n : ℕ) (cell : ℕ → ℕ) (i : ℕ) → i < n → spatial_rank n cell i < n
spatial_rank-inside n cell i below = omega (
  arith,
  spatial_rank-cell n cell i below,
  starts_lem n cell (suc (cell i)),
  count_below-le n (λ j. ltb (cell j) (suc (cell i))),
)

cells_apart :
    (n : ℕ) (cell : ℕ → ℕ) (i j : ℕ)
    → i < n
    → j < n
    → cell i < cell j
    → spatial_rank n cell i < spatial_rank n cell j
cells_apart n cell i j below below' less =
    let there : cell j ≡ suc (cell i) + (cell j - suc (cell i)) = omega arith in
    let up = offset_mono (tally n cell) (suc (cell i)) (cell j - suc (cell i)) in
    let up' =
      subst (λ q. offset (tally n cell) (suc (cell i)) ≤ offset (tally n cell) q) (sym there) up in
    omega (arith, spatial_rank-cell n cell i below, spatial_rank-cell n cell j below', up')

same_cell :
    (n : ℕ) (cell : ℕ → ℕ) (i j : ℕ)
    → i < j
    → j < n
    → cell i ≡ cell j
    → spatial_rank n cell i < spatial_rank n cell j
unfolding spatial_rank
same_cell n cell i j less below same =
    let starts = offset (tally n cell) in
    let mine : (cell i == cell j) ≡ true = (==_iff (cell i) (cell j)).1 same in
    let at = rank_lem cell starts n i (omega arith) in
    let at' : spatial_rank n cell i ≡ starts (cell j) + count_below i (λ k. cell k == cell j) =
      subst (λ c. (rank_upto n cell starts).rank i ≡ starts c + count_below i (λ k. cell k == c))
        same at in
    omega (
      arith,
      at',
      rank_lem cell starts n j below,
      count_below-before j (λ k. cell k == cell j) i less mine,
    )

pub spatial_rank-apart :
    (n : ℕ) (cell : ℕ → ℕ) (i j : ℕ) → i < j → j < n → spatial_rank n cell i ≢ spatial_rank n cell j
spatial_rank-apart n cell i j less below h = elim (dec_lt (cell i) (cell j)) [
  | yes first ↦ absurd (omega (arith, cells_apart n cell i j (omega arith) below first))
  | no not_first ↦ elim (dec_lt (cell j) (cell i)) [
    | yes last ↦ absurd (omega (arith, cells_apart n cell j i below (omega arith) last))
    | no not_last ↦ absurd (omega (arith, same_cell n cell i j less below (omega arith)))
  ]
]
