-- ===== src/Gateway/Cache/Order.antt =====
-- The cache of cache.go refines the list of Lru.
use mathlib.Core.Option
use mathlib.Core.List.{map-append}
use mathlib.Core.Path.{ap₂}
use populace.Prelude.{
  ◌≤◌, ℕ, zero, suc, ◌<◌, ◌≡◌, refl, sym, ap, ◌∙◌, inl, inr, some, List, [], ◌∷◌, ◌++◌, All, map,
  length, ltb, Bool-cases, Option-cases, dec_lt, arith,
}
use populace.Gateway.Cache.Elements.{Element, unsnoc}
use populace.Gateway.Cache.Elements.Keys.{total, at_key, at_key-key, drop_key}
use populace.Gateway.Cache.Elements.Back.{unsnoc-none, unsnoc-append}
use populace.Gateway.Cache.{Cache, drop_back, evict, get, store, put}
use populace.Gateway.Cache.Invariant.{
  IsSynced, IsValid, get_hit, get_miss, store_update, store_insert, store-IsSynced,
}
use populace.Gateway.Cache.Eviction.{
  evict_fits, evict_over, length-drop_back, drop_back-IsSynced, put-IsValid,
}
use populace.Gateway.Cache.Lru.{
  weight, fit, fit_all, fit_over, lookup, forget, forget_absent, lru_get, lru_put, lru_get_hit,
  lru_get_miss, lookup-lru_put_self,
}

module _ {K : Type 0} where
  abbrev pub pair_of : Element K → K × List ℕ
  pair_of e = (e.entry.key, e.entry.val)

  abbrev pub view : Cache K → List (K × List ℕ)
  view c = map pair_of c.ll

  weight-view :
      (l : List (Element K))
      → All (λ e. e.entry.size ≡ length e.entry.val) l
      → weight (map pair_of l) ≡ total l
  weight-view [] a = refl
  weight-view (e ∷ l) a = omega (arith, weight-view l a.1, a.0)

module _ {K : Type 0} (dec : Discrete K) where
  lookup-view :
      (k : K) (l : List (Element K))
      → lookup dec k (map pair_of l) ≡ Option.map (λ e. e.entry.val) (at_key dec k l)
  unfolding lookup at_key
  lookup-view k [] = refl
  lookup-view k (e ∷ l) = ground (arith, lookup-view k l)

  forget-view :
      (k : K) (l : List (Element K)) → map pair_of (drop_key dec k l) ≡ forget dec k (map pair_of l)
  unfolding forget drop_key
  forget-view k [] = refl
  forget-view k (e ∷ l) = ground (arith, forget-view k l)

  view-drop_back :
      (c : Cache K) (rest : List (Element K)) (e : Element K)
      → c.ll ≡ rest ++ e ∷ []
      → view c ≡ view (drop_back dec c rest e) ++ pair_of e ∷ []
  unfolding drop_back
  view-drop_back c rest e split = rw split (map-append pair_of rest (e ∷ []))

  -- The eviction loop leaves the longest front that fits.
  view-evict :
      (fuel : ℕ) (c : Cache K)
      → length c.ll < fuel
      → IsSynced dec c
      → view (evict dec fuel c) ≡ fit c.max_bytes (view c)
  unfolding drop_back
  view-evict zero c h v = absurd (omega arith)
  view-evict (suc fuel) c h v =
      let weighed = weight-view c.ll v.sizes in
      elim (dec_lt c.max_bytes c.bytes) [
        | yes over ↦ elim (Option-cases (unsnoc c.ll)) [
          | inl empty ↦ absurd (omega (arith, v.summed, ap total (unsnoc-none c.ll empty)))
          | inr ((rest, e), back) ↦
              let split = unsnoc-append c.ll rest e back in
              let parts = view-drop_back c rest e split in
              rw (evict_over dec fuel c rest e over back) (
                view-evict fuel (drop_back dec c rest e)
                  (omega (arith, length-drop_back dec c rest e split))
                  (drop_back-IsSynced dec c rest e v split)
                ∙ sym (
                    ap (fit c.max_bytes) parts
                    ∙ fit_over c.max_bytes (map pair_of rest) (pair_of e)
                        (omega (arith, weighed, ap weight parts, v.summed))))
        ]
        | no fits ↦
            rw (evict_fits dec fuel c (omega arith))
              (sym (fit_all c.max_bytes (view c) (omega (arith, weighed, v.summed))))
      ]

  module _ (sum256 : List ℕ → K) (c : Cache K) (req : List ℕ) where
    view-store :
        (resp : List ℕ)
        → IsSynced dec c
        → view (store dec sum256 c req resp) ≡ (sum256 req, resp) ∷ forget dec (sum256 req) (view c)
    view-store resp v =
        let k = sum256 req in
        elim (Option-cases (at_key dec k c.ll)) [
          | inl absent ↦ rw (store_insert dec sum256 c req v resp absent) (
              ap (◌∷◌ (k, resp))
                (sym (forget_absent dec k (view c) (lookup-view k c.ll ∙ rw absent))))
          | inr (e, found) ↦ rw (store_update dec sum256 c req v resp e found) (
              ap₂ (λ key rest. (key, resp) ∷ rest) (at_key-key dec k c.ll e found)
                (forget-view k c.ll))
        ]

    store-max_bytes : (resp : List ℕ) → (store dec sum256 c req resp).max_bytes ≡ c.max_bytes
    unfolding store
    store-max_bytes resp = ground arith

    -- `Put` refines the write of the list.
    pub view-put :
        (resp : List ℕ)
        → IsValid dec c
        → view (put dec sum256 c req resp) ≡ lru_put dec c.max_bytes (sum256 req) resp (view c)
    unfolding put lru_put
    view-put resp v = elim (Bool-cases (ltb c.max_bytes (length resp))) [
      | inl big ↦ rw big
      | inr small ↦
          let stored = store dec sum256 c req resp in
          rw small (
            view-evict (suc (length stored.ll)) stored (omega arith)
              (store-IsSynced dec sum256 c req v.synced resp)
            ∙ ap₂ fit (store-max_bytes resp) (view-store resp v.synced))
    ]

    -- `Get` refines the read of the list.
    pub view-get :
        IsValid dec c
        → let (d, answer) = get dec sum256 c req in
          (view d, answer) ≡ lru_get dec (sum256 req) (view c)
    view-get v =
        let k = sum256 req in
        let seen = lookup-view k c.ll in
        elim (Option-cases (at_key dec k c.ll)) [
          | inl absent ↦
              rw (get_miss dec sum256 c req v.synced absent)
                (sym (lru_get_miss dec k (view c) (seen ∙ rw absent)))
          | inr (e, found) ↦ rw (get_hit dec sum256 c req v.synced e found) (
              ap₂ (λ key rest. ((key, e.entry.val) ∷ rest, some e.entry.val))
                (at_key-key dec k c.ll e found) (forget-view k c.ll)
              ∙ sym (lru_get_hit dec k (view c) e.entry.val (seen ∙ rw found)))
        ]

  -- The response that `Put` stored within the bound is what `Get` of the same request answers.
  pub get-put :
      (sum256 : List ℕ → K) (c : Cache K) (req resp : List ℕ)
      → IsValid dec c
      → length resp ≤ c.max_bytes
      → (get dec sum256 (put dec sum256 c req resp) req).1 ≡ some resp
  get-put sum256 c req resp v small =
      let k = sum256 req in
      let d = put dec sum256 c req resp in
      let stored : lookup dec k (view d) ≡ some resp =
        ap (lookup dec k) (view-put sum256 c req resp v)
        ∙ lookup-lru_put_self dec c.max_bytes k resp (view c) small in
      ap (λ r. r.1)
        (view-get sum256 d req (put-IsValid dec sum256 c req resp v)
          ∙ lru_get_hit dec k (view d) resp stored)
