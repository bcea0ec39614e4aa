-- ===== src/Sim/Graph/Rank/Order.antt =====
-- `rankToOrder` of internal/sim/graph.go: the order that the regional seeds go by.
use populace.Prelude.{
  ℕ, zero, suc, ◌+◌, ◌<◌, ◌≡◌, ◌≢◌, refl, sym, ap, ◌∙◌, List, length, get_or, assign_self,
  assign_ne, ℕ_discrete, arith,
}
use native.Mathlib.Nat.{add-zero}
use populace.Sim.Graph.{slice}
use populace.Sim.Graph.Rank.{spatial_rank, rank_to_order}
use populace.Sim.Graph.Rank.Counting.{spatial_rank-inside, spatial_rank-apart}
use populace.Sim.Graph.Rank.Pigeonhole.{onto}
use populace.Sim.Seeding.Regions.{IsOrder}

-- The order has at a persona's rank the persona.
rank_to_order_lem :
    (n : ℕ) (rank : ℕ → ℕ) (i : ℕ)
    → i < n
    → ((i j : ℕ) → i < j → j < n → rank i ≢ rank j)
    → rank_to_order n rank (rank i) ≡ i
unfolding rank_to_order
rank_to_order_lem zero rank i below apart = absurd (omega arith)
rank_to_order_lem (suc n) rank i below apart =
    let rest = rank_to_order n rank in
    elim (ℕ_discrete i n) [
      | yes e ↦ rw e (assign_self ℕ_discrete rest (rank n) n)
      | no other ↦
          assign_ne ℕ_discrete rest (rank n) (rank i) n
            (λ h. apart i n (omega arith) (omega arith) (sym h))
          ∙ rank_to_order_lem n rank i (omega arith) (λ j k less low. apart j k less (omega arith))
    ]

pub slice-length : (a : ℕ → ℕ) (lo n : ℕ) → length (slice a lo n) ≡ n
unfolding slice
slice-length a lo zero = refl
slice-length a lo (suc n) = ap suc (slice-length a (lo + 1) n)

pub slice-get_or : (a : ℕ → ℕ) (lo n p : ℕ) → p < n → get_or (slice a lo n) p 0 ≡ a (lo + p)
unfolding slice
slice-get_or a lo zero p below = absurd (omega arith)
slice-get_or a lo (suc n) zero below = rw (add-zero lo) refl
slice-get_or a lo (suc n) (suc p) below =
    slice-get_or a (lo + 1) n p (omega arith) ∙ ap a (omega arith)

-- `g.Order` as a list.
unfoldable pub order_list : ℕ → (ℕ → ℕ) → List ℕ
unfolding spatial_rank rank_to_order slice
order_list n cell = slice (rank_to_order n (spatial_rank n cell)) 0 n

module _ (n : ℕ) (cell : ℕ → ℕ) where
  abbrev rank : ℕ → ℕ
  rank = spatial_rank n cell

  -- The order and the ranks undo one another: the persona at a rank has that rank, and each rank below `n` is the rank
  -- of the persona that the order has there, which is below `n`.
  pub order-rank :
      ((i : ℕ) → i < n → rank_to_order n rank (rank i) ≡ i)
      × ((p : ℕ) → p < n → (rank_to_order n rank p < n) × (rank (rank_to_order n rank p) ≡ p))
  order-rank =
      let back =
        λ (i : ℕ) (below : i < n). rank_to_order_lem n rank i below (spatial_rank-apart n cell) in
      (
        back,
        λ p below.
            let (i, low, e) =
              onto n rank (spatial_rank-inside n cell) (spatial_rank-apart n cell) p below in
            let at : rank_to_order n rank p ≡ i = ap (rank_to_order n rank) (sym e) ∙ back i low in
            rw at (low, e),
      )

  order_list-at : (p : ℕ) → p < n → get_or (order_list n cell) p 0 ≡ rank_to_order n rank p
  unfolding order_list
  order_list-at p below =
      slice-get_or (rank_to_order n rank) 0 n p below ∙ ap (rank_to_order n rank) (omega arith)

  order_list-length : length (order_list n cell) ≡ n
  unfolding order_list
  order_list-length = slice-length (rank_to_order n rank) 0 n

  placed-IsOrder : IsOrder (order_list n cell)
  placed-IsOrder = record {
    below = λ p low.
        let p_low : p < n = omega (arith, order_list-length) in
        rw (order_list-at p p_low, order_list-length) (order-rank.1 p p_low).0;
    once = λ p q low low' same.
        let p_low : p < n = omega (arith, order_list-length) in
        let q_low : q < n = omega (arith, order_list-length) in
        sym (order-rank.1 p p_low).1
        ∙ ap rank (sym (order_list-at p p_low) ∙ same ∙ order_list-at q q_low)
        ∙ (order-rank.1 q q_low).1;
  }

  -- For any cells of the `n` personas, the order is as long as the population, it has no persona twice and nobody from
  -- outside, and it has every persona at some position.
  pub order_list-IsOrder :
      (length (order_list n cell) ≡ n)
      × IsOrder (order_list n cell)
      × ((i : ℕ) → i < n → (p : ℕ) × (p < n) × (get_or (order_list n cell) p 0 ≡ i))
  order_list-IsOrder = (
    order_list-length,
    placed-IsOrder,
    λ i below.
        let low = spatial_rank-inside n cell i below in
        (rank i, low, order_list-at (rank i) low ∙ order-rank.0 i below),
  )
