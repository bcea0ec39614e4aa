-- ===== src/World/Regions.antt =====
-- internal/world/role.go: the regions, and the archetype that packs a region and a role into one number.
use populace.Prelude.{ℕ, Option, List, [], ◌∷◌, get_elem?}
use populace.Prelude.Decimals.{Decimal, lit}
use Prim.Native.String.{String}

pub data Region : Type 0 where
  sub_saharan_africa mena south_asia east_asia southeast_asia : Region
  europe eurasia north_america latin_america oceania : Region

-- The numbers that `iota` gives them.
unfoldable pub region_number : Region → ℕ
region_number sub_saharan_africa = 0
region_number mena = 1
region_number south_asia = 2
region_number east_asia = 3
region_number southeast_asia = 4
region_number europe = 5
region_number eurasia = 6
region_number north_america = 7
region_number latin_america = 8
region_number oceania = 9

abbrev pub num_regions : ℕ
num_regions = 10

abbrev pub all_regions : List Region
all_regions =
    sub_saharan_africa ∷ mena ∷ south_asia ∷ east_asia ∷ southeast_asia ∷ europe ∷ eurasia
    ∷ north_america ∷ latin_america ∷ oceania ∷ []

-- The region of a number; `none` where an index by it is out of range.
unfoldable pub region_at : ℕ → Option Region
region_at k = get_elem? all_regions k

pub record RegionSpec : Type 0 where
  pub name : String
  pub dev : Decimal

-- `Regions`.
unfoldable pub regions : Region → RegionSpec
regions sub_saharan_africa = record { name = "Sub-Saharan Africa"; dev = lit 18 100 }
regions mena = record { name = "Middle East & North Africa"; dev = lit 42 100 }
regions south_asia = record { name = "South Asia"; dev = lit 25 100 }
regions east_asia = record { name = "East Asia"; dev = lit 62 100 }
regions southeast_asia = record { name = "Southeast Asia"; dev = lit 42 100 }
regions europe = record { name = "Europe"; dev = lit 85 100 }
regions eurasia = record { name = "Eurasia"; dev = lit 5 10 }
regions north_america = record { name = "North America"; dev = lit 9 10 }
regions latin_america = record { name = "Latin America"; dev = lit 45 100 }
regions oceania = record { name = "Oceania"; dev = lit 85 100 }
