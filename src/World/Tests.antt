-- ===== src/World/Tests.antt =====
-- The theorems on the population at concrete inputs.
use populace.Prelude.{
  none, Option, ℕ, zero, suc, ◌+◌, ◌*◌, ◌<◌, ◌≡◌, ◌⊎◌, refl, true, false, some, List, [], ◌∷◌, ◌++◌,
  length, get_or, ltb, ◌==◌, if◌then◌else◌, arith,
}
use populace.Prelude.Int.{pos, negsuc}
use populace.Sim.Numbers.{counting}
use populace.Sim.Graph.Schedules.{sum_below}
use populace.Sim.Graph.Rank.Archetypes.{those}
use populace.World.{World}
use populace.World.Generate.{generate}
use populace.World.Coherence.{IsCoherentWorld, generate-IsCoherent}
use populace.World.Centres.{centres}
use populace.World.Places.{num_places, build_place_index, personas, personas-those}
use populace.World.Encode.{
  Instance, encode_instances, header, body, instance_bytes, encode_instances_lem,
}

generate-IsCoherent_example :
    (w : World ℕ) × (generate counting 3 7 ≡ some w) × (w.n ≡ 3) × IsCoherentWorld counting w
generate-IsCoherent_example = generate-IsCoherent counting 3 7

-- Three personas in two places.
abbrev homes : ℕ → ℕ
homes i = get_or (4 ∷ 0 ∷ 4 ∷ []) i 0

homes_inside : (i : ℕ) → i < 3 → homes i < num_places
unfolding num_places centres
homes_inside zero below = omega arith
homes_inside (suc zero) below = omega arith
homes_inside (suc (suc zero)) below = omega arith
homes_inside (suc (suc (suc i))) below = omega arith

personas-those_example :
    let idx = build_place_index 3 homes in
    (personas idx (pos 4) ≡ (if ltb 4 num_places then those 3 (λ i. homes i == 4) else []))
    × (personas idx (negsuc 4) ≡ [])
    × (sum_below num_places (λ q. length (personas idx (pos q))) ≡ 3)
personas-those_example = personas-those 3 homes 4 homes_inside

abbrev two : List Instance
two =
    record { lon = 70000; lat = 3; palette = 9; shape = 1; arch = 300; flags = 0 }
    ∷ record { lon = 1; lat = 2; palette = 3; shape = 4; arch = 5; flags = 6 }
    ∷ []

-- The header is taken, and three bytes of the rest.
abbrev first_only : ℕ → Option ℕ
first_only zero = none
first_only (suc k) = some 3

encode_instances_lem_example :
    let out = encode_instances first_only two in
    let whole = header 2 ++ body two in
    (((out.failed ≡ false) × (out.bytes ≡ whole))
      ⊎ ((out.failed ≡ true) × ((rest : List ℕ) × (out.bytes ++ rest ≡ whole))))
    × (length whole ≡ 8 + instance_bytes * 2)
encode_instances_lem_example = encode_instances_lem first_only two

refused : (encode_instances first_only two).failed ≡ true
unfolding encode_instances
refused = refl
