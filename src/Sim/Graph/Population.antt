-- ===== src/Sim/Graph/Population.antt =====
-- `BuildGraph` of internal/sim/graph.go on a population: the proposals of its builder, in two passes.
use populace.Prelude.{ℕ, ◌≤◌, ◌<◌, ◌≢◌, inl, inr, sym, List, Among}
use populace.Prelude.Floats.{Floats}
use populace.World.{Stratum}
use populace.Sim.Graph.{Event, Merge, build}
use populace.Sim.Graph.Schedules.{programs, IsTied}
use populace.Sim.Graph.Neighbours.{build-Among}
use populace.Sim.Graph.Sorting.{All-Among}
use populace.Sim.Graph.Proposals.{GraphConfig, proposals, new_builder}
use populace.Sim.Graph.Proposals.Validity.{proposals-All, new_builder-IsSound}

module _ (fl : Floats) where
  -- `BuildGraph`: the proposals of a builder, and the graph of two runs over them.
  unfoldable pub proposals_of :
      ℕ → GraphConfig fl → (ℕ → ℕ) → (ℕ → ℕ) → (ℕ → Stratum) → (ℕ → fl.Float) → ℕ → List ℕ
  unfolding new_builder proposals
  proposals_of n cfg cell arch strat reach =
      proposals fl (new_builder fl n cfg cell arch strat reach)

  -- For a population that is not empty, whatever the floats are, and in any orders of the two passes: if `v` stands
  -- in the row of `j`, a persona of the population, then `v` is another persona of the population, and has `j` in
  -- its own row.
  pub build-IsNetwork :
      (n : ℕ) (cfg : GraphConfig fl) (cell arch : ℕ → ℕ) (strat : ℕ → Stratum)
      (reach : ℕ → fl.Float) (counting placing : List Event)
      → 1 ≤ n
      → Merge (programs n (proposals_of n cfg cell arch strat reach)) counting
      → Merge (programs n (proposals_of n cfg cell arch strat reach)) placing
      → (j v : ℕ) → j < n
      → Among v ((build n counting placing).row j)
      → (v < n) × (v ≢ j) × Among j ((build n counting placing).row v)
  unfolding proposals_of new_builder
  build-IsNetwork n cfg cell arch strat reach counting placing some_one a b j v below m =
      let builder = new_builder fl n cfg cell arch strat reach in
      let there = build-Among n (proposals fl builder) counting placing a b j v in
      let back = build-Among n (proposals fl builder) counting placing a b v j in
      let (tied, other) = there.0 m in
      let sound = new_builder-IsSound fl n cfg cell arch strat reach some_one in
      let turned : IsTied n (proposals fl builder) v j = elim tied [
        | inl h ↦ inr h
        | inr h ↦ inl h
      ] in
      let within : v < n = elim tied [
        | inl (low, at) ↦
            (All-Among (λ q. (q < n) × (q ≢ j)) (proposals fl builder j) v
              (proposals-All fl builder j sound).0 at).0
        | inr (low, at) ↦ low
      ] in
      (within, other, back.1 (turned, λ e. other (sym e)))
