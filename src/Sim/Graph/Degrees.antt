-- ===== src/Sim/Graph/Degrees.antt =====
-- `DegreeStats` of internal/sim/graph.go. The degrees are sorted as `insertionSort` does, which arranges any numbers
-- as `slices.Sort` does.
use populace.Prelude.{
  ℕ, zero, suc, ◌-◌, ◌*◌, ◌/◌, ◌≤◌, ◌<◌, Bool, List, [], ◌∷◌, All, length, get_or, ◌==◌,
  if◌then◌else◌, arith,
}
use populace.Prelude.Floats.{Floats}
use populace.World.{Stratum, is_media}
use populace.Sim.Contagion.{count_below}
use populace.Sim.Graph.{Graph, slice, insertion_sort}
use populace.Sim.Graph.Sorting.{IsAscending, insertion_sort-IsAscending, insertion_sort-length}
use populace.Sim.Graph.Rank.Order.{slice-length}

module _ (fl : Floats) where
  open fl use {Float, of_ℕ, add, div, lt}

  pub record DegreeStats : Type 0 where
    pub mean : Float
    pub p50 : ℕ
    pub p90 : ℕ
    pub p99 : ℕ
    pub max : ℕ
    pub isolated : ℕ
    pub media_mean_degree : Float

  -- The sum of the numbers of those below `n` that pass the test.
  unfoldable pub sum_of : ℕ → (ℕ → Bool) → (ℕ → Float) → Float
  sum_of zero p f = of_ℕ 0
  sum_of (suc i) p f = let rest = sum_of i p f in if p i then add rest (f i) else rest

  unfoldable pub degree_stats : Graph → (ℕ → Stratum) → DegreeStats
  unfolding sum_of slice insertion_sort
  degree_stats g strat =
      let degree = λ (i : ℕ). length (g.row i) in
      let of_media = λ (i : ℕ). is_media (strat i) in
      let d = insertion_sort (slice degree 0 g.n) in
      let media_n = sum_of g.n of_media (λ i. of_ℕ 1) in
      record {
        mean = div (sum_of g.n (λ i. Bool.true) (λ i. of_ℕ (degree i))) (of_ℕ g.n);
        p50 = get_or d (g.n / 2) 0;
        p90 = get_or d (g.n * 90 / 100) 0;
        p99 = get_or d (g.n * 99 / 100) 0;
        max = get_or d (g.n - 1) 0;
        isolated = count_below g.n (λ i. degree i == 0);
        media_mean_degree =
            if lt (of_ℕ 0) media_n
            then div (sum_of g.n of_media (λ i. of_ℕ (degree i))) media_n
            else of_ℕ 0;
      }

get_or-le :
    (xs : List ℕ) (p q : ℕ) → IsAscending xs → p ≤ q → q < length xs → get_or xs p 0 ≤ get_or xs q 0
get_or-le [] p q a le below = absurd (omega arith)
get_or-le (x ∷ xs) zero zero a le below = omega arith
get_or-le (x ∷ xs) zero (suc q) a le below = first x xs q a.0 (omega arith)
  where
    first : (x : ℕ) (xs : List ℕ) (q : ℕ) → All (λ y. x ≤ y) xs → q < length xs → x ≤ get_or xs q 0
    first x [] q a below = absurd (omega arith)
    first x (y ∷ xs) zero a below = a.0
    first x (y ∷ xs) (suc q) a below = first x xs q a.1 (omega arith)
get_or-le (x ∷ xs) (suc p) zero a le below = absurd (omega arith)
get_or-le (x ∷ xs) (suc p) (suc q) a le below = get_or-le xs p q a.1 (omega arith) (omega arith)

module _ (fl : Floats) where
  -- The percentiles of a graph that is not empty stand in their order, below the greatest degree: no index is out of
  -- the range of the sorted degrees.
  pub degree_stats_ordered :
      (g : Graph) (strat : ℕ → Stratum)
      → 1 ≤ g.n
      → let s = degree_stats fl g strat in (s.p50 ≤ s.p90) × (s.p90 ≤ s.p99) × (s.p99 ≤ s.max)
  unfolding degree_stats
  degree_stats_ordered g strat some_one =
      let degrees = slice (λ i. length (g.row i)) 0 g.n in
      let up = insertion_sort-IsAscending degrees in
      let long = insertion_sort-length degrees in
      let many = slice-length (λ i. length (g.row i)) 0 g.n in
      let d = insertion_sort degrees in
      (
        get_or-le d _ _ up (omega arith) (omega (arith, long, many)),
        get_or-le d _ _ up (omega arith) (omega (arith, long, many)),
        get_or-le d _ _ up (omega arith) (omega (arith, long, many)),
      )
