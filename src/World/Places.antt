-- ===== src/World/Places.antt =====
-- internal/world/place.go: the names of places, and `PlaceIndex`, the personas by place.
use populace.Prelude.{
  ℕ, zero, suc, ◌+◌, ◌<◌, ◌≡◌, refl, ap, ◌∙◌, true, false, Option, none, some, List, [], ◌∷◌, ◌++◌,
  length, length-append, get_elem?, ltb, leb, ◌==◌, ==_iff, ltb→lt, if◌then◌else◌, assign,
  assign_self, assign_ne, ℕ_discrete, Bool-cases, inl, inr, arith,
}
use populace.Prelude.Int.{ℤ, pos, negsuc}
use populace.Prelude.Decimals.{Decimal}
use mathlib.Core.Option
use Prim.Native.String.{String}
use populace.Sim.Graph.Schedules.{sum_below, sum_below-change, sum_below-ext}
use populace.Sim.Graph.Rank.Archetypes.{those}
use populace.World.Regions.{Region}
use populace.World.Centres.{Centre, centres}

unfoldable pub num_places : ℕ
num_places = length centres

-- `PlaceName`, of a place.
unfoldable pub name_of : Option Centre → String
name_of none = "unknown"
name_of (some c) = c.name

unfoldable pub place_name : ℕ → String
unfolding name_of
place_name p = name_of (get_elem? centres p)

-- `PlaceRegion` and `PlaceInfo`; `none` where the index is out of range.
unfoldable pub place_region : ℕ → Option Region
place_region p = Option.map (λ c. c.region) (get_elem? centres p)

unfoldable pub place_info : ℕ → Option (String × Region × Decimal × Decimal)
place_info p = Option.map (λ c. (c.name, c.region, c.lat, c.lon)) (get_elem? centres p)

-- The buckets after so many personas.
unfoldable pub index_upto : ℕ → (ℕ → ℕ) → ℕ → List ℕ
index_upto zero place = λ p. []
index_upto (suc i) place =
    let buckets = index_upto i place in
    assign ℕ_discrete buckets (place i) (buckets (place i) ++ i ∷ [])

pub record PlaceIndex : Type 0 where
  pub size : ℕ
  pub buckets : ℕ → List ℕ

-- `BuildPlaceIndex`, of the places of `n` personas.
unfoldable pub build_place_index : ℕ → (ℕ → ℕ) → PlaceIndex
unfolding index_upto num_places
build_place_index n place = record { size = num_places; buckets = index_upto n place }

-- `Personas`.
unfoldable pub personas : PlaceIndex → ℤ → List ℕ
personas idx (negsuc p) = []
personas idx (pos p) = if leb idx.size p then [] else idx.buckets p

index_upto-those :
    (n : ℕ) (place : ℕ → ℕ) (p : ℕ) → index_upto n place p ≡ those n (λ i. place i == p)
unfolding index_upto those
index_upto-those zero place p = refl
index_upto-those (suc i) place p =
    let buckets = index_upto i place in
    elim (ℕ_discrete (place i) p) [
      | yes e ↦
          let on : (place i == p) ≡ true = (==_iff (place i) p).1 e in
          rw on (
            rw (← e) (assign_self ℕ_discrete buckets (place i) (buckets (place i) ++ i ∷ []))
            ∙ ap (λ xs. xs ++ i ∷ []) (ap buckets e ∙ index_upto-those i place p))
      | no other ↦
          let off : (place i == p) ≡ false = ground arith in
          rw off (
            assign_ne ℕ_discrete buckets (place i) p (buckets (place i) ++ i ∷ []) other
            ∙ index_upto-those i place p)
    ]

none_yet : (k : ℕ) → sum_below k (λ p. 0) ≡ 0
unfolding sum_below
none_yet zero = refl
none_yet (suc k) = omega (arith, none_yet k)

-- Each persona stands in one bucket.
index_upto-total :
    (n k : ℕ) (place : ℕ → ℕ)
    → ((i : ℕ) → i < n → place i < k)
    → sum_below k (λ p. length (index_upto n place p)) ≡ n
unfolding index_upto
index_upto-total zero k place inside = none_yet k
index_upto-total (suc i) k place inside =
    let buckets = index_upto i place in
    sum_below-change k (λ p. length (index_upto (suc i) place p)) (λ p. length (buckets p))
      (place i) 1 (inside i (omega arith))
      (ap length (assign_self ℕ_discrete buckets (place i) (buckets (place i) ++ i ∷ []))
        ∙ length-append (buckets (place i)) (i ∷ []))
      (λ p other.
        ap length (assign_ne ℕ_discrete buckets (place i) p (buckets (place i) ++ i ∷ []) other))
    ∙ ap (λ (q : ℕ). q + 1) (index_upto-total i k place (λ j below. inside j (omega arith)))
    ∙ omega arith

within :
    (n : ℕ) (place : ℕ → ℕ) (p : ℕ)
    → p < num_places
    → personas (build_place_index n place) (pos p) ≡ index_upto n place p
unfolding personas build_place_index
within n place p low = let inside : leb num_places p ≡ false = ground arith in rw inside refl

outside :
    (n : ℕ) (place : ℕ → ℕ) (p : ℕ)
    → leb num_places p ≡ true
    → personas (build_place_index n place) (pos p) ≡ []
unfolding personas build_place_index
outside n place p high = rw high refl

-- For a population whose places are centres, what the index gives for a number is the personas that live at that
-- place, in increasing order, or nothing if it is the number of no place; and the buckets have all personas, each in
-- one.
pub personas-those :
    (n : ℕ) (place : ℕ → ℕ) (p : ℕ)
    → ((i : ℕ) → i < n → place i < num_places)
    → let idx = build_place_index n place in
      (personas idx (pos p) ≡ (if ltb p num_places then those n (λ i. place i == p) else []))
      × (personas idx (negsuc p) ≡ [])
      × (sum_below num_places (λ q. length (personas idx (pos q))) ≡ n)
unfolding personas
personas-those n place p inside = (
  elim (Bool-cases (ltb p num_places)) [
    | inl low ↦ rw low (within n place p (ltb→lt p num_places low) ∙ index_upto-those n place p)
    | inr high ↦ rw high (outside n place p (ground arith))
  ],
  refl,
  sum_below-ext num_places _ (λ q. length (index_upto n place q))
        (λ q low. ap length (within n place q low))
      ∙ index_upto-total n num_places place inside,
)
