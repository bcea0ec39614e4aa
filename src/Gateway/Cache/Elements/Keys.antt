-- ===== src/Gateway/Cache/Elements/Keys.antt =====
-- The element list of cache.go seen by key: what an operation at an address does when each key and
-- each address occurs once.
use populace.Prelude.{
  ℕ, suc, ◌+◌, ◌≡◌, refl, sym, ◌≢◌, Option, none, some, List, [], ◌∷◌, All, length, ◌⊎◌, inl, inr,
  ite, if_pos, if_neg, arith,
}
use populace.Gateway.Cache.Elements.{Element, find, remove, move_to_front, size_at, set_value}

module _ {K : Type 0} where
  abbrev pub total : List (Element K) → ℕ
  total [] = 0
  total (e ∷ l) = e.entry.size + total l

  abbrev pub DistinctIds : List (Element K) → Type 0
  DistinctIds [] = Unit {0}
  DistinctIds (e ∷ l) = All (λ x. x.id ≢ e.id) l × DistinctIds l

  abbrev pub DistinctKeys : List (Element K) → Type 0
  DistinctKeys [] = Unit {0}
  DistinctKeys (e ∷ l) = All (λ x. x.entry.key ≢ e.entry.key) l × DistinctKeys l

module _ {K : Type 0} (dec : Discrete K) where
  unfoldable pub at_key : K → List (Element K) → Option (Element K)
  at_key k [] = none
  at_key k (e ∷ l) = ite (dec e.entry.key k) (some e) (at_key k l)

  unfoldable pub drop_key : K → List (Element K) → List (Element K)
  drop_key k [] = []
  drop_key k (e ∷ l) = ite (dec e.entry.key k) l (e ∷ drop_key k l)

  pub at_key_cases :
      (k : K) (x : Element K) (l : List (Element K)) (e : Element K)
      → at_key k (x ∷ l) ≡ some e
      → ((x.entry.key ≡ k) × (x ≡ e)) ⊎ ((x.entry.key ≢ k) × (at_key k l ≡ some e))
  unfolding at_key
  at_key_cases k x l e h = ground arith

  pub All-at_key :
      (P : Element K → Type 0) (k : K) (l : List (Element K)) (e : Element K)
      → All P l
      → at_key k l ≡ some e
      → P e
  unfolding at_key
  All-at_key P k [] e a h = absurd (cc)
  All-at_key P k (x ∷ l) e a h = elim (at_key_cases k x l e h) [
    | inl here ↦ rw here.1 at a.0
    | inr later ↦ All-at_key P k l e a.1 later.1
  ]

  pub at_key-key :
      (k : K) (l : List (Element K)) (e : Element K) → at_key k l ≡ some e → e.entry.key ≡ k
  unfolding at_key
  at_key-key k [] e h = cc
  at_key-key k (x ∷ l) e h = ground (arith, at_key_cases k x l e, at_key-key k l e)

  pub find-at_key :
      (k : K) (l : List (Element K)) (e : Element K)
      → DistinctIds l
      → at_key k l ≡ some e
      → find e.id l ≡ some e
  unfolding at_key find
  find-at_key k [] e d h = cc
  find-at_key k (x ∷ l) e d h = elim (at_key_cases k x l e h) [
    | inl (_, here) ↦ ground arith
    | inr (_, later) ↦
        let apart : e.id ≢ x.id = All-at_key _ k l e d.0 later in
        ground (arith, find-at_key k l e d.1 later)
  ]

  pub remove-drop_key :
      (k : K) (l : List (Element K)) (e : Element K)
      → DistinctIds l
      → at_key k l ≡ some e
      → remove e.id l ≡ drop_key k l
  unfolding at_key remove drop_key
  remove-drop_key k [] e d h = refl
  remove-drop_key k (x ∷ l) e d h = elim (at_key_cases k x l e h) [
    | inl (same, here) ↦ ground arith
    | inr (other, later) ↦
        let apart : e.id ≢ x.id = All-at_key _ k l e d.0 later in
        ground (arith, remove-drop_key k l e d.1 later)
  ]

  pub All-drop_key :
      (P : Element K → Type 0) (k : K) (l : List (Element K)) → All P l → All P (drop_key k l)
  unfolding drop_key
  All-drop_key P k [] a = tt
  All-drop_key P k (x ∷ l) a = elim (dec x.entry.key k) [
    | yes p ↦ rw (if_pos _ p) a.1
    | no p ↦ rw (if_neg _ p) (a.0, All-drop_key P k l a.1)
  ]

  pub drop_key-DistinctIds :
      (k : K) (l : List (Element K)) → DistinctIds l → DistinctIds (drop_key k l)
  unfolding drop_key
  drop_key-DistinctIds k [] d = tt
  drop_key-DistinctIds k (x ∷ l) d = elim (dec x.entry.key k) [
    | yes p ↦ rw (if_pos _ p) d.1
    | no p ↦ rw (if_neg _ p) (All-drop_key _ k l d.0, drop_key-DistinctIds k l d.1)
  ]

  pub drop_key-DistinctKeys :
      (k : K) (l : List (Element K)) → DistinctKeys l → DistinctKeys (drop_key k l)
  unfolding drop_key
  drop_key-DistinctKeys k [] d = tt
  drop_key-DistinctKeys k (x ∷ l) d = elim (dec x.entry.key k) [
    | yes p ↦ rw (if_pos _ p) d.1
    | no p ↦ rw (if_neg _ p) (All-drop_key _ k l d.0, drop_key-DistinctKeys k l d.1)
  ]

  -- After the drop no element has the key.
  pub drop_key_gone :
      (k : K) (l : List (Element K)) → DistinctKeys l → All (λ x. x.entry.key ≢ k) (drop_key k l)
  unfolding drop_key
  drop_key_gone k [] d = tt
  drop_key_gone k (x ∷ l) d = elim (dec x.entry.key k) [
    | yes p ↦ rw (if_pos _ p) (rw p at d.0)
    | no p ↦ rw (if_neg _ p) (p, drop_key_gone k l d.1)
  ]

  -- Nor does one have the address that was the key's.
  pub drop_key_ids :
      (k : K) (l : List (Element K)) (e : Element K)
      → DistinctIds l
      → at_key k l ≡ some e
      → All (λ x. x.id ≢ e.id) (drop_key k l)
  unfolding drop_key
  drop_key_ids k [] e d h = tt
  drop_key_ids k (x ∷ l) e d h = elim (at_key_cases k x l e h) [
    | inl (same, here) ↦ rw (if_pos _ same) (rw here at d.0)
    | inr (other, later) ↦
        rw (if_neg _ other)
          ((λ q. All-at_key _ k l e d.0 later (sym q)), drop_key_ids k l e d.1 later)
  ]

  pub at_key_absent :
      (k : K) (l : List (Element K)) → All (λ x. x.entry.key ≢ k) l → at_key k l ≡ none
  unfolding at_key
  at_key_absent k [] a = refl
  at_key_absent k (x ∷ l) a = rw (if_neg _ a.0) (at_key_absent k l a.1)

  pub absent_of_at_key :
      (k : K) (l : List (Element K)) → at_key k l ≡ none → All (λ x. x.entry.key ≢ k) l
  unfolding at_key
  absent_of_at_key k [] h = tt
  absent_of_at_key k (x ∷ l) h = elim (dec x.entry.key k) [
    | yes p ↦ absurd (ground arith)
    | no p ↦ (p, absent_of_at_key k l (ground arith))
  ]

  pub at_key-drop_key_ne :
      (k q : K) (l : List (Element K)) → q ≢ k → at_key q (drop_key k l) ≡ at_key q l
  unfolding at_key drop_key
  at_key-drop_key_ne k q [] h = refl
  at_key-drop_key_ne k q (x ∷ l) h = ground (arith, at_key-drop_key_ne k q l h)

  pub total-drop_key :
      (k : K) (l : List (Element K)) (e : Element K)
      → at_key k l ≡ some e
      → e.entry.size + total (drop_key k l) ≡ total l
  unfolding at_key drop_key
  total-drop_key k [] e h = absurd (cc)
  total-drop_key k (x ∷ l) e h = ground (arith, at_key_cases k x l e h, total-drop_key k l e)

  pub length-drop_key :
      (k : K) (l : List (Element K)) (e : Element K)
      → at_key k l ≡ some e
      → suc (length (drop_key k l)) ≡ length l
  unfolding at_key drop_key
  length-drop_key k [] e h = absurd (cc)
  length-drop_key k (x ∷ l) e h = ground (arith, at_key_cases k x l e h, length-drop_key k l e)

module _ {K : Type 0} where
  abbrev pub revalue : List ℕ → Element K → Element K
  revalue v e = record e { entry = record (e.entry) { val = v; size = length v } }

  pub remove-set_value :
      (el : ℕ) (v : List ℕ) (l : List (Element K)) → remove el (set_value el v l) ≡ remove el l
  unfolding remove set_value
  remove-set_value el v [] = refl
  remove-set_value el v (x ∷ l) = ground (arith, remove-set_value el v l)

  pub find-set_value :
      (el : ℕ) (v : List ℕ) (l : List (Element K)) (e : Element K)
      → find el l ≡ some e
      → find el (set_value el v l) ≡ some (revalue v e)
  unfolding find set_value
  find-set_value el v [] e h = absurd (cc)
  find-set_value el v (x ∷ l) e h = ground (arith, find-set_value el v l e)

module _ {K : Type 0} (dec : Discrete K) where
  -- What a hit of `Get` does to the list.
  pub move_to_front-at_key :
      (k : K) (l : List (Element K)) (e : Element K)
      → DistinctIds l
      → at_key dec k l ≡ some e
      → move_to_front e.id l ≡ e ∷ drop_key dec k l
  unfolding move_to_front
  move_to_front-at_key k l e d h =
      ground (arith, find-at_key dec k l e d h, remove-drop_key dec k l e d h)

  -- What an update by `Put` does to the list.
  pub move_to_front-set_value :
      (k : K) (v : List ℕ) (l : List (Element K)) (e : Element K)
      → DistinctIds l
      → at_key dec k l ≡ some e
      → move_to_front e.id (set_value e.id v l) ≡ revalue v e ∷ drop_key dec k l
  unfolding move_to_front
  move_to_front-set_value k v l e d h = ground (
    arith,
    find-set_value e.id v l e (find-at_key dec k l e d h),
    remove-set_value e.id v l,
    remove-drop_key dec k l e d h,
  )

  pub size_at-at_key :
      (k : K) (l : List (Element K)) (e : Element K)
      → DistinctIds l
      → at_key dec k l ≡ some e
      → size_at e.id l ≡ e.entry.size
  unfolding size_at
  size_at-at_key k l e d h = ground (arith, find-at_key dec k l e d h)
