-- ===== src/Sim/Tests.antt =====
-- The theorems on the contagion at concrete inputs: numbers for floats, and a ring of five personas.
mod Frames
mod Graph
mod Layers
mod Core
use Prim.Native.Nat.{◌^◌}
use populace.Prelude.{
  ◌==◌, max, ℕ, zero, suc, ◌+◌, ◌-◌, ◌*◌, ◌/◌, ◌≤◌, ◌<◌, ◌≡◌, ◌↔◌, refl, Option, none, some, List,
  [], ◌∷◌, length, get_or, All, true, false, ltb, leb, arith, min, ℕ_discrete,
}
use populace.Prelude.Int.{pos, ◌+ℤ◌, ◌-ℤ◌, ◌≤ℤ◌, ◌<ℤ◌}
use populace.Sim.Numbers.{counting}
use populace.Sim.Contagion.{
  Contagion, Network, is_adoption, unaware, adopted, count_below, evaluate, asleep, decide_on, need,
  take_up, fade, decay, spent, advance_with, advance, run, run_from, reset, count, peers,
}
use populace.Sim.Contagion.Rounds.{
  Moves, advance_with-count, advance_with-Moves, run-count, reset-run,
}
use populace.Sim.Contagion.Rule.{advance_with-need, feed_driven_counterfactual}
use populace.Sim.Contagion.Stalled.{later, run_stalled}
use populace.Sim.Contagion.Timing.{IsTimed, advance_with-IsTimed, transmit_for_bound}
use mathlib.Core.Option
use populace.Sim.Random.{new_rng, u32}
use populace.Sim.Seeding.{
  seed_scattered, scatter, seed_one, grow, enqueue, sweep, position, wrap, seed_cluster,
  seed_region,
}
use populace.Sim.Seeding.Growth.{seed_scattered-count, seed_cluster-count}
use populace.Sim.Seeding.Regions.{seed_region-count}

-- 0 to 4 in a ring.
abbrev ring : Network
ring i = get_or ((4 ∷ 1 ∷ []) ∷ (0 ∷ 2 ∷ []) ∷ (1 ∷ 3 ∷ []) ∷ (2 ∷ 4 ∷ []) ∷ (3 ∷ 0 ∷ []) ∷ []) i []

abbrev zero_and_two {ℓ} : {A : Type ℓ} → A → A → ℕ → A
zero_and_two other this zero = this
zero_and_two other this (suc zero) = other
zero_and_two other this (suc (suc zero)) = this
zero_and_two other this (suc (suc (suc i))) = other

-- 0 and 2 have adopted.
abbrev started : Contagion counting
started = record {
  n = 5;
  state = zero_and_two unaware adopted;
  threshold = λ i. 1;
  adopted_at = zero_and_two none (some 0);
  step = 0;
  min_reinforce = pos 2;
  transmit_for = pos 3;
  threshold_scale = 1;
  simple = false;
  beta = 0;
  feed_driven = λ i. false;
  seed = 7;
  base_threshold = λ i. 1;
}

abbrev fresh : Contagion counting
fresh = record started { state = λ i. unaware; adopted_at = λ i. none }

one_round : (advance counting started ring).1 ≡ 1
unfolding advance advance_with count_below evaluate asleep decide_on peers need
one_round = refl

abbrev fed : Option (ℕ → ℕ)
fed = some (λ i. 1)

after_round : (advance_with counting started ring none none).0.state 1 ≡ adopted
unfolding advance_with evaluate asleep decide_on peers need take_up fade decay spent
after_round = refl

feed_round : (advance_with counting started ring fed none).0.state 3 ≡ adopted
unfolding advance_with evaluate asleep decide_on peers need take_up fade decay spent
feed_round = refl

run_rounds : (run counting started ring 3).1 ≡ 2
unfolding run run_from advance advance_with count_below evaluate asleep decide_on peers need take_up
    fade decay spent
run_rounds = refl

scattered : (seed_scattered counting fresh 2 5).1 ≡ 3 ∷ 4 ∷ []
unfolding seed_scattered scatter seed_one u32 new_rng ℕ_discrete
scattered = refl

clustered : Option.map (λ r. r.1) (seed_cluster counting fresh ring 0 3) ≡ some (0 ∷ 4 ∷ 1 ∷ [])
unfolding seed_cluster grow enqueue seed_one ℕ_discrete
clustered = refl

-- Around the end of the order.
region : (seed_region counting fresh (3 ∷ 1 ∷ 4 ∷ 0 ∷ 2 ∷ []) 0 3).1 ≡ 2 ∷ 3 ∷ 1 ∷ []
unfolding seed_region sweep seed_one position wrap ℕ_discrete ◌+ℤ◌ ◌-ℤ◌
region = refl

-- Persona 1 stands between two adopters.
advance_with-need_example :
    let exposed = peers started.state (ring 1) + 0 in (pos 2 ≤ℤ pos exposed) × (1 ≤ exposed)
advance_with-need_example =
    advance_with-need counting started ring none none 1 refl refl after_round

-- Persona 3 has one adopter beside it, and one in its feed.
feed_driven_counterfactual_example :
    ((advance_with counting started ring fed none).0.feed_driven 3 ≡ true)
    ↔ ((advance_with counting started ring none none).0.state 3 ≡ unaware)
feed_driven_counterfactual_example =
    feed_driven_counterfactual counting started ring fed none 3 refl (omega arith) refl feed_round

ring-IsWithin : (i : ℕ) → i < 5 → All (λ j. j < 5) (ring i)
ring-IsWithin zero h = (omega arith, (omega arith, tt))
ring-IsWithin (suc zero) h = (omega arith, (omega arith, tt))
ring-IsWithin (suc (suc zero)) h = (omega arith, (omega arith, tt))
ring-IsWithin (suc (suc (suc zero))) h = (omega arith, (omega arith, tt))
ring-IsWithin (suc (suc (suc (suc zero)))) h = (omega arith, (omega arith, tt))
ring-IsWithin (suc (suc (suc (suc (suc i))))) h = ground arith

run_stalled_example :
    count counting (later counting 8 (run counting started ring 3).0 ring)
    ≡ count counting (run counting started ring 3).0
run_stalled_example =
    run_stalled counting started ring 3 8 refl ring-IsWithin (rw run_rounds omega arith)

started-IsTimed : IsTimed counting started
started-IsTimed zero = (0, refl, omega arith)
started-IsTimed (suc zero) = refl
started-IsTimed (suc (suc zero)) = (0, refl, omega arith)
started-IsTimed (suc (suc (suc i))) = refl

transmit_for_bound_example :
    let d = (advance_with counting started ring none none).0 in
    (t : ℕ) × (d.adopted_at 1 ≡ some t) × (t ≤ d.step) × (pos (d.step - t) <ℤ pos 3)
transmit_for_bound_example =
    transmit_for_bound counting started ring none none 1 started-IsTimed (omega arith) after_round

abbrev swapped : List ℕ
swapped = 1 ∷ 0 ∷ []

swapped_below : (p : ℕ) → p < 2 → get_or swapped p 0 < 2
swapped_below zero h = omega arith
swapped_below (suc zero) h = omega arith
swapped_below (suc (suc p)) h = ground arith

swapped_once : (p q : ℕ) → p < 2 → q < 2 → get_or swapped p 0 ≡ get_or swapped q 0 → p ≡ q
swapped_once zero zero h h' e = refl
swapped_once zero (suc zero) h h' e = omega arith
swapped_once zero (suc (suc q)) h h' e = omega arith
swapped_once (suc zero) zero h h' e = omega arith
swapped_once (suc zero) (suc zero) h h' e = refl
swapped_once (suc zero) (suc (suc q)) h h' e = omega arith
swapped_once (suc (suc p)) q h h' e = omega arith
