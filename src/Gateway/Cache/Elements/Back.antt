-- ===== src/Gateway/Cache/Elements/Back.antt =====
-- The back of the element list of cache.go: `unsnoc` splits a list into what stays and the last
-- element, and what a list satisfies passes to the part that stays.
use populace.Prelude.{
  ◌+◌, ◌≡◌, refl, sym, ◌≢◌, inl, inr, none, some, List, [], ◌∷◌, ◌++◌, All, Option-cases, ite,
  arith,
}
use populace.Gateway.Cache.Elements.{Element, unsnoc}
use populace.Gateway.Cache.Elements.Keys.{total, DistinctIds, DistinctKeys, at_key}

module _ {K : Type 0} where
  pub unsnoc-none : (l : List (Element K)) → unsnoc l ≡ none → l ≡ []
  unfolding unsnoc
  unsnoc-none [] h = refl
  unsnoc-none (x ∷ l) h = absurd (ground arith)

  pub unsnoc-append :
      (l rest : List (Element K)) (e : Element K) → unsnoc l ≡ some (rest, e) → l ≡ rest ++ e ∷ []
  unfolding unsnoc
  unsnoc-append [] rest e h = absurd (cc)
  unsnoc-append (x ∷ l) rest e h = elim (Option-cases (unsnoc l)) [
    | inl last ↦ ground (arith, unsnoc-none l last)
    | inr ((rest', e'), more) ↦ ground (arith, unsnoc-append l rest' e' more)
  ]

  pub All-init :
      (P : Element K → Type 0) (rest : List (Element K)) (e : Element K)
      → All P (rest ++ e ∷ [])
      → All P rest × P e
  All-init P [] e a = (tt, a.0)
  All-init P (x ∷ rest) e a = let (r, l) = All-init P rest e a.1 in ((a.0, r), l)

  pub DistinctIds-init :
      (rest : List (Element K)) (e : Element K) → DistinctIds (rest ++ e ∷ []) → DistinctIds rest
  DistinctIds-init [] e d = tt
  DistinctIds-init (x ∷ rest) e d = ((All-init _ rest e d.0).0, DistinctIds-init rest e d.1)

  pub DistinctKeys-init :
      (rest : List (Element K)) (e : Element K)
      → DistinctKeys (rest ++ e ∷ [])
      → DistinctKeys rest × All (λ x. x.entry.key ≢ e.entry.key) rest
  DistinctKeys-init [] e d = (tt, tt)
  DistinctKeys-init (x ∷ rest) e d =
      let (xs, last) = All-init _ rest e d.0 in
      let (more, apart) = DistinctKeys-init rest e d.1 in
      ((xs, more), (λ same. last (sym same), apart))

  pub total-append : (xs ys : List (Element K)) → total (xs ++ ys) ≡ total xs + total ys
  total-append [] ys = omega arith
  total-append (x ∷ xs) ys = omega (arith, total-append xs ys)

module _ {K : Type 0} (dec : Discrete K) where
  -- Without its last element the list has every other key as before, and that element's key no more.
  pub at_key-init :
      (q : K) (rest : List (Element K)) (e : Element K)
      → DistinctKeys (rest ++ e ∷ [])
      → at_key dec q rest ≡ ite (dec e.entry.key q) none (at_key dec q (rest ++ e ∷ []))
  unfolding at_key
  at_key-init q [] e d = ground arith
  at_key-init q (x ∷ rest) e d =
      let last : e.entry.key ≢ x.entry.key = (All-init _ rest e d.0).1 in
      ground (arith, at_key-init q rest e d.1)
