-- ===== src/Sim/Tests/Graph.antt =====
-- The theorems on the graph at concrete inputs: two personas that propose each other, in two orders.
use populace.Prelude.{
  length, ℕ, zero, suc, ◌<◌, ◌≡◌, ◌≢◌, ◌↔◌, inl, inr, refl, sym, subst, List, [], ◌∷◌, Among,
  get_or, assign, ℕ_discrete, arith,
}
use populace.Sim.Random.{norm, f64, u32, new_rng}
use populace.Sim.Graph.Proposals.{candidate, hub}
use populace.World.{Stratum}
use populace.Sim.Parallel.{parallel, indices, parallel-indices}
use populace.Sim.Seeding.Regions.{IsOrder}
use populace.Sim.Graph.Proposals.{GraphConfig, default_graph_config}
use populace.Sim.Graph.Population.{proposals_of, build-IsNetwork}
use populace.Sim.Graph.Rank.{spatial_rank}
use populace.Sim.Graph.Rank.Order.{order_list, order_list-IsOrder}
use populace.Sim.Numbers.{counting}
use populace.Sim.Graph.{
  Event, own, back, program, Merge, over, next, build, add_cap, place, slice, shift,
}
use populace.Sim.Graph.Schedules.{programs, IsTied}
use populace.Sim.Graph.Neighbours.{build-Among, build_deterministic}
use populace.Sim.Graph.Sequence.{sequence, programs-Merge}

-- 0 proposes 1 twice and itself, 1 proposes 0.
abbrev wishes : ℕ → List ℕ
wishes zero = 1 ∷ 0 ∷ 1 ∷ []
wishes (suc i) = 0 ∷ []

abbrev in_turn : List Event
in_turn = sequence 2 (programs 2 wishes)

-- Both start, then both end.
abbrev mixed : List Event
mixed = own 0 (1 ∷ 0 ∷ 1 ∷ []) ∷ own 1 (0 ∷ []) ∷ back 0 1 ∷ back 1 0 ∷ back 0 0 ∷ back 0 1 ∷ []

idle :
    (i : ℕ)
    → let a = assign ℕ_discrete in
      a
        (a
          (a
            (a
              (a (a (programs 2 wishes) 0 (back 0 1 ∷ back 0 0 ∷ back 0 1 ∷ [])) 1 (back 1 0 ∷ []))
              0
              (back 0 0 ∷ back 0 1 ∷ []))
            1
            [])
          0
          (back 0 1 ∷ []))
        0
        []
        i
      ≡ []
unfolding program ℕ_discrete
idle zero = refl
idle (suc zero) = refl
idle (suc (suc k)) = ground arith

mixed_run : Merge (programs 2 wishes) mixed
unfolding program ℕ_discrete
mixed_run = next 0 _ _ refl (
    next 1 _ _ refl
      (next 0 _ _ refl (next 1 _ _ refl (next 0 _ _ refl (next 0 _ _ refl (over (λ i. idle i)))))))

row_of_0 : (build 2 mixed in_turn).row 0 ≡ 1 ∷ []
unfolding build sequence program ℕ_discrete add_cap place shift
row_of_0 = refl

build-Among_example :
    Among 1 ((build 2 mixed in_turn).row 0) ↔ IsTied 2 wishes 0 1 × (◌≢◌ {A = ℕ} 1 0)
build-Among_example = build-Among 2 wishes mixed in_turn mixed_run (programs-Merge 2 wishes) 0 1

build_deterministic_example : build 2 mixed in_turn ≡ build 2 in_turn mixed
build_deterministic_example =
    build_deterministic 2 wishes mixed in_turn in_turn mixed mixed_run (programs-Merge 2 wishes)
      (programs-Merge 2 wishes) mixed_run

-- Four personas in two cells, of two archetypes.
abbrev cells : ℕ → ℕ
cells i = get_or (7 ∷ 3 ∷ 7 ∷ 3 ∷ []) i 0

ranks : slice (spatial_rank 4 cells) 0 4 ≡ 2 ∷ 0 ∷ 3 ∷ 1 ∷ []
unfolding spatial_rank slice ℕ_discrete
ranks = refl

order_list-IsOrder_example :
    (length (order_list 4 cells) ≡ 4)
    × IsOrder (order_list 4 cells)
    × ((i : ℕ) → i < 4 → (p : ℕ) × (p < 4) × (get_or (order_list 4 cells) p 0 ≡ i))
order_list-IsOrder_example = order_list-IsOrder 4 cells

parallel-indices_example : indices (parallel 3 10) ≡ slice (λ p. p) 0 10
parallel-indices_example = parallel-indices 3 10

in_chunks : parallel 3 10 ≡ (0, 4) ∷ (4, 8) ∷ (8, 10) ∷ []
unfolding parallel
in_chunks = refl

abbrev config : GraphConfig counting
config = record (default_graph_config counting) { max_degree = 2 }

abbrev wanted : ℕ → List ℕ
wanted = proposals_of counting 3 config cells cells (λ i. Stratum.general) (λ i. 1)

wanted_by_2 : wanted 2 ≡ 0 ∷ 1 ∷ []
unfolding proposals_of ℕ_discrete default_graph_config norm f64 u32 new_rng candidate hub
wanted_by_2 = refl

abbrev pass : List Event
pass = sequence 3 (programs 3 wanted)

two_in_row_of_0 : Among 2 ((build 3 pass pass).row 0)
two_in_row_of_0 =
    (build-Among 3 wanted pass pass (programs-Merge 3 wanted) (programs-Merge 3 wanted) 0 2).1
      (inr (omega arith, subst (λ xs. Among 0 xs) (sym wanted_by_2) (inl refl)), omega arith)

build-IsNetwork_example : (2 < 3) × (◌≢◌ {A = ℕ} 2 0) × Among 0 ((build 3 pass pass).row 2)
build-IsNetwork_example =
    build-IsNetwork counting 3 config cells cells (λ i. Stratum.general) (λ i. 1) pass pass
      (omega arith) (programs-Merge 3 wanted) (programs-Merge 3 wanted) 0 2 (omega arith)
      two_in_row_of_0
