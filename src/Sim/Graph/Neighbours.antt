-- ===== src/Sim/Graph/Neighbours.antt =====
-- The rows of the graph that `BuildGraph` of internal/sim/graph.go builds, in any order that its goroutines can run.
use populace.Prelude.{
  ℕ, zero, suc, ◌+◌, ◌-◌, ◌≤◌, ◌≡◌, ◌≢◌, ◌↔◌, refl, sym, ap, ◌∙◌, fun_ext, ◌/◌, none, List, length,
  Among, arith,
}
use native.Mathlib.Numerals.{add-one}
use populace.Sim.Graph.{
  Event, Merge, count_pass, offset, place_pass, slice, insertion_sort, dedup, total_degree, Graph,
  build,
}
use populace.Sim.Graph.Sorting.{
  IsIncreasing, increasing-ext, sorted_row-Among, sorted_row-IsIncreasing,
}
use populace.Sim.Graph.Placement.{received, count_pass_lem, Fits, place_pass-slice}
use populace.Sim.Graph.Schedules.{programs, IsTied, Merge-received, Merge-length}

offset-up : (cap : ℕ → ℕ) (i : ℕ) → offset cap i ≤ offset cap (suc i)
unfolding offset
offset-up cap i = omega arith

module _ (n : ℕ) (proposals : ℕ → List ℕ) (counting placing : List Event)
    (first : Merge (programs n proposals) counting)
    (second : Merge (programs n proposals) placing) where
  abbrev cap' : ℕ → ℕ
  cap' = count_pass (λ i. 0) counting

  starts_fit :
      Fits (offset cap') (offset-up cap') (record { cur = offset cap'; adj = λ p. 0 }) placing
  unfolding offset
  starts_fit = record {
    above = λ j. omega arith;
    room = λ j. omega (
      arith,
      count_pass_lem (λ i. 0) counting j,
      Merge-length n proposals counting placing j first second,
    );
  }

  -- The slots of a row, from its offset to the next, hold what it receives.
  row_slots :
      (j : ℕ)
      → slice
          (place_pass (record { cur = offset cap'; adj = λ p. 0 }) placing).adj
          (offset cap' j)
          (offset cap' (j + 1) - offset cap' j)
        ≡ received j placing
  unfolding offset
  row_slots j =
      let size : offset cap' (j + 1) - offset cap' j ≡ length (received j placing) =
        rw add-one omega (
          arith,
          count_pass_lem (λ i. 0) counting j,
          Merge-length n proposals counting placing j first second,
        ) in
      rw size (
        place_pass-slice (offset cap') (offset-up cap') (record { cur = offset cap'; adj = λ p. 0 })
          placing j starts_fit)

  row_lem :
      (j : ℕ)
      → (build n counting placing).row j ≡ dedup j none (insertion_sort (received j placing))
  unfolding build
  row_lem j = rw (row_slots j) refl

  -- For a population of `n` and whatever each node proposes, in any two orders in which the nodes' programs can run
  -- the two passes: the row of `j` in the graph has `v` exactly when they are not the same and one of them proposed
  -- the other. So ties are mutual, nobody is tied to itself, and no proposal is lost or made up.
  pub build-Among :
      (j v : ℕ) → Among v ((build n counting placing).row j) ↔ IsTied n proposals j v × (v ≢ j)
  build-Among j v =
      let s = sorted_row-Among j v (received j placing) in
      let t = Merge-received n proposals placing j v second in
      rw (row_lem j) (λ m. let d = s.0 m in (t.0 d.0, d.1), λ m. s.1 (t.1 m.0, m.1))

  -- Each row is in increasing order, so it has each neighbour once.
  pub build-IsIncreasing : (j : ℕ) → IsIncreasing ((build n counting placing).row j)
  build-IsIncreasing j = rw (row_lem j) (sorted_row-IsIncreasing j (received j placing))

offset-ext :
    (cap cap' : ℕ → ℕ) → ((j : ℕ) → cap j ≡ cap' j) → (i : ℕ) → offset cap i ≡ offset cap' i
unfolding offset
offset-ext cap cap' h zero = refl
offset-ext cap cap' h (suc i) = rw (h i, offset-ext cap cap' h i) refl

abbrev graph_of : ℕ → (ℕ → ℕ) → (ℕ → List ℕ) → Graph
graph_of n off row = record { n = n; off = off; row = row; edges = total_degree n row / 2 }

build-graph_of :
    (n : ℕ) (counting placing : List Event)
    → build n counting placing
      ≡ graph_of n (offset (count_pass (λ i. 0) counting)) (build n counting placing).row
unfolding build
build-graph_of n counting placing = refl

module _ (n : ℕ) (proposals : ℕ → List ℕ) (counting placing counting' placing' : List Event)
    (a : Merge (programs n proposals) counting) (b : Merge (programs n proposals) placing)
    (a' : Merge (programs n proposals) counting') (b' : Merge (programs n proposals) placing') where
  same_row : (j : ℕ) → (build n counting placing).row j ≡ (build n counting' placing').row j
  same_row j =
      increasing-ext _ _ (build-IsIncreasing n proposals counting placing a b j)
        (build-IsIncreasing n proposals counting' placing' a' b' j)
        (λ v.
          let p = build-Among n proposals counting placing a b j v in
          let q = build-Among n proposals counting' placing' a' b' j v in
          (λ m. q.1 (p.0 m), λ m. p.1 (q.0 m)))

  same_cap : (j : ℕ) → count_pass (λ i. 0) counting j ≡ count_pass (λ i. 0) counting' j
  same_cap j = omega (
    arith,
    count_pass_lem (λ i. 0) counting j,
    count_pass_lem (λ i. 0) counting' j,
    Merge-length n proposals counting counting' j a a',
  )

  -- The goroutines' orders make no difference: with the same proposals, whichever orders the nodes' programs run
  -- in, in either pass, the graph is the same, with its offsets, its rows and its number of edges.
  pub build_deterministic : build n counting placing ≡ build n counting' placing'
  build_deterministic =
      build-graph_of n counting placing
      ∙ ap (λ off. graph_of n off (build n counting placing).row)
          (fun_ext (offset-ext _ _ same_cap))
      ∙ ap (λ row. graph_of n (offset (count_pass (λ i. 0) counting')) row) (fun_ext same_row)
      ∙ sym (build-graph_of n counting' placing')
