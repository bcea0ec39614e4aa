-- ===== src/Gateway/Cache/Elements.antt =====
-- The entries of cache.go and the doubly linked list `container/list` that holds them: an element
-- is an address with the entry that it points to.
pub mod Keys
pub mod Back
use mathlib.Core.Option
use populace.Prelude.{ℕ, ◌+◌, Option, none, some, List, [], ◌∷◌, length, ite, ℕ_discrete}

pub record Entry (K : Type 0) : Type 0 where
  pub key : K
  pub val : List ℕ
  pub size : ℕ

pub record Element (K : Type 0) : Type 0 where
  pub id : ℕ
  pub entry : Entry K

module _ {K : Type 0} where
  -- The element at an address.
  unfoldable pub find : ℕ → List (Element K) → Option (Element K)
  find el [] = none
  find el (e ∷ l) = ite (ℕ_discrete e.id el) (some e) (find el l)

  unfoldable pub remove : ℕ → List (Element K) → List (Element K)
  remove el [] = []
  remove el (e ∷ l) = ite (ℕ_discrete e.id el) l (e ∷ remove el l)

  unfoldable pub move_to_front : ℕ → List (Element K) → List (Element K)
  unfolding find remove
  move_to_front el l = elim (find el l) [ none ↦ l | some e ↦ e ∷ remove el l ]

  abbrev pub push_front : ℕ → Entry K → List (Element K) → List (Element K)
  push_front el entry l = record { id = el; entry = entry } ∷ l

  -- `e.size` of the entry at an address.
  unfoldable pub size_at : ℕ → List (Element K) → ℕ
  unfolding find
  size_at el l = elim (find el l) [ none ↦ 0 | some e ↦ e.entry.size ]

  -- `e.val, e.size = v, int64(len(v))` of the entry at an address.
  unfoldable pub set_value : ℕ → List ℕ → List (Element K) → List (Element K)
  set_value el v [] = []
  set_value el v (e ∷ l) =
      ite (ℕ_discrete e.id el)
        (record e { entry = record (e.entry) { val = v; size = length v } } ∷ l)
        (e ∷ set_value el v l)

  -- `Back` and `Remove` of it: the list without its last element, and that element.
  unfoldable pub unsnoc : List (Element K) → Option (List (Element K) × Element K)
  unsnoc [] = none
  unsnoc (e ∷ l) = elim (unsnoc l) [
    | none ↦ some ([], e)
    | some (rest, last) ↦ some (e ∷ rest, last)
  ]
