-- ===== src/Sim/Street.antt =====
-- internal/sim/street.go: the choice of a street's residents, how their ties are counted, and `Refresh`. The names of the
-- residents, which cohort.go makes, are left out.
use populace.Prelude.{
  ℕ, zero, suc, ◌+◌, ◌%◌, ◌≡◌, refl, ◌∙◌, ap, Bool, true, false, Bool-cases, inl, inr, Option, none,
  some, List, [], ◌∷◌, ◌++◌, length, length-append, set, All, ltb, leb, ◌==◌, min, if◌then◌else◌,
  arith,
}
use populace.Prelude.Floats.{Floats}
use populace.Sim.Random.{Rng, u32}
use populace.Sim.Contagion.{Status, unaware, adopted, fatigued}
use populace.Sim.History.{take, drop}
use populace.Sim.Core.{Sim}
use populace.Sim.Core.Flags.{feed_now}
use Prim.Native.String.{String}

-- The loop of `reservoirFromSlice` from the candidate `i` on.
unfoldable pub fill : Rng → ℕ → ℕ → List ℕ → List ℕ → List ℕ
fill r k i [] out = out
fill r k i (x ∷ xs) out =
    let drawn = u32 r in
    let j = drawn.1 % (i + 1) in fill drawn.0 k (i + 1) xs (if ltb j k then set out j x else out)

unfoldable pub reservoir : List ℕ → Rng → ℕ → List ℕ
unfolding fill take drop
reservoir candidates r k =
    if leb (length candidates) k
    then candidates
    else fill r k k (drop k candidates) (take k candidates)

-- `roster`: the index of the last resident with this id, if there is one.
unfoldable pub roster : List ℕ → ℕ → ℕ → Option ℕ
roster [] i id = none
roster (x ∷ xs) i id =
    let rest = roster xs (i + 1) id in
    elim rest [ some j ↦ some j | none ↦ if x == id then some i else none ]

-- `ties`, `localOther` and `outside`.
pub record Ties : Type 0 where
  pub ties : List ℕ
  pub local_other : ℕ
  pub outside : ℕ

unfoldable pub note_tie : Ties → Option ℕ → Bool → Ties
note_tie t (some j) here = record t { ties = t.ties ++ j ∷ [] }
note_tie t none true = record t { local_other = t.local_other + 1 }
note_tie t none false = record t { outside = t.outside + 1 }

-- The loop over the neighbours of a resident, at the place `p`.
unfoldable pub ties_of : List ℕ → (ℕ → ℕ) → ℕ → Ties → List ℕ → Ties
unfolding note_tie roster
ties_of ids place p t [] = t
ties_of ids place p t (nb ∷ row) =
    ties_of ids place p (note_tie t (roster ids 0 nb) (place nb == p)) row

-- What `Refresh` writes of a resident.
pub record Seen (Float : Type 0) : Type 0 where
  pub opinion : Float
  pub state : String
  pub feed : Bool

-- `stateName`.
unfoldable pub state_name : Status → String
state_name unaware = "hasn't heard"
state_name adopted = "talking about it"
state_name fatigued = "moved on"

unfoldable pub refreshed_resident : (fl : Floats) {Chat : Type 0} → Sim fl Chat → ℕ → Seen fl.Float
unfolding state_name feed_now
refreshed_resident fl s id = record {
  opinion = s.o.y id;
  state = state_name (s.c.state id);
  feed = feed_now fl s.m id;
}

note_tie-count :
    (t : Ties) (found : Option ℕ) (here : Bool)
    → let t' = note_tie t found here in
      length t'.ties + t'.local_other + t'.outside ≡ length t.ties + t.local_other + t.outside + 1
unfolding note_tie
note_tie-count t (some j) here = omega (arith, length-append t.ties (j ∷ []))
note_tie-count t none true = omega arith
note_tie-count t none false = omega arith

-- The ties of a resident to the street, to the rest of the place and to elsewhere are all its neighbours.
pub ties_of-count :
    (ids : List ℕ) (place : ℕ → ℕ) (p : ℕ) (t : Ties) (row : List ℕ)
    → let t' = ties_of ids place p t row in
      length t'.ties + t'.local_other + t'.outside
      ≡ length t.ties + t.local_other + t.outside + length row
unfolding ties_of
ties_of-count ids place p t [] = omega arith
ties_of-count ids place p t (nb ∷ row) =
    let next = note_tie t (roster ids 0 nb) (place nb == p) in
    omega (
      arith,
      ties_of-count ids place p next row,
      note_tie-count t (roster ids 0 nb) (place nb == p),
    )

set-All : (P : ℕ → Type 0) (xs : List ℕ) (j x : ℕ) → P x → All P xs → All P (set xs j x)
set-All P [] j x new all = all
set-All P (y ∷ xs) zero x new (here, all) = (new, all)
set-All P (y ∷ xs) (suc j) x new (here, all) = (here, set-All P xs j x new all)

set-length : (xs : List ℕ) (j x : ℕ) → length (set xs j x) ≡ length xs
set-length [] j x = refl
set-length (y ∷ xs) zero x = refl
set-length (y ∷ xs) (suc j) x = ap suc (set-length xs j x)

fill_lem :
    (P : ℕ → Type 0) (r : Rng) (k i : ℕ) (xs out : List ℕ)
    → All P xs
    → All P out
    → All P (fill r k i xs out) × (length (fill r k i xs out) ≡ length out)
unfolding fill
fill_lem P r k i [] out all kept = (kept, refl)
fill_lem P r k i (x ∷ xs) out (here, all) kept =
    let j = (u32 r).1 % (i + 1) in
    elim (Bool-cases (ltb j k)) [
      | inl in_it ↦
          let (good, long) =
            fill_lem P (u32 r).0 k (i + 1) xs (set out j x) all (set-All P out j x here kept) in
          rw in_it (good, long ∙ set-length out j x)
      | inr out_of_it ↦ rw out_of_it (fill_lem P (u32 r).0 k (i + 1) xs out all kept)
    ]

take-All : (P : ℕ → Type 0) (k : ℕ) (xs : List ℕ) → All P xs → All P (take k xs)
unfolding take
take-All P zero xs all = tt
take-All P (suc k) [] all = tt
take-All P (suc k) (x ∷ xs) (here, all) = (here, take-All P k xs all)

drop-All : (P : ℕ → Type 0) (k : ℕ) (xs : List ℕ) → All P xs → All P (drop k xs)
unfolding drop
drop-All P zero xs all = all
drop-All P (suc k) [] all = tt
drop-All P (suc k) (x ∷ xs) (here, all) = drop-All P k xs all

length-take : (k : ℕ) (xs : List ℕ) → length (take k xs) ≡ min k (length xs)
unfolding take
length-take zero xs = omega arith
length-take (suc k) [] = omega arith
length-take (suc k) (x ∷ xs) = omega (arith, length-take k xs)

-- The residents are as many as asked for, or all there are, and each is one of the place's personas: whatever holds of
-- all of these holds of all residents.
pub reservoir_lem :
    (P : ℕ → Type 0) (candidates : List ℕ) (r : Rng) (k : ℕ)
    → All P candidates
    → All P (reservoir candidates r k)
      × (length (reservoir candidates r k) ≡ min k (length candidates))
unfolding reservoir
reservoir_lem P candidates r k all = elim (Bool-cases (leb (length candidates) k)) [
  | inl few ↦ rw few (all, ground arith)
  | inr many ↦
      let (good, long) =
        fill_lem P r k k (drop k candidates) (take k candidates) (drop-All P k candidates all)
          (take-All P k candidates all) in
      rw many (good, long ∙ length-take k candidates)
]
