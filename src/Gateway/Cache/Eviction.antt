-- ===== src/Gateway/Cache/Eviction.antt =====
-- The loop at the end of `Put` in cache.go, and `Put` as a whole: the invariant.
use populace.Prelude.{
  ℕ, zero, suc, ◌<◌, ◌≤◌, ◌≡◌, refl, ap, inl, inr, some, List, [], ◌∷◌, ◌++◌, length, length-append,
  ltb, Bool-cases, dec_lt, Option-cases, arith,
}
use populace.Gateway.Cache.Elements.{Element, unsnoc}
use populace.Gateway.Cache.Elements.Keys.{total, DistinctKeys}
use populace.Gateway.Cache.Elements.Back.{
  unsnoc-none, unsnoc-append, All-init, DistinctIds-init, DistinctKeys-init, total-append,
  at_key-init,
}
use populace.Gateway.Cache.{Cache, drop_back, evict, store, put}
use populace.Gateway.Cache.Invariant.{IsSynced, IsValid, store-IsSynced}

module _ {K : Type 0} (dec : Discrete K) where
  pub drop_back-IsSynced :
      (c : Cache K) (rest : List (Element K)) (e : Element K)
      → IsSynced dec c
      → c.ll ≡ rest ++ e ∷ []
      → IsSynced dec (drop_back dec c rest e)
  unfolding drop_back
  drop_back-IsSynced c rest e v split =
      let keys : DistinctKeys (rest ++ e ∷ []) = rw split at v.keys in
      record {
        ids = DistinctIds-init rest e (rw split at v.ids);
        allocated = (All-init _ rest e (rw split at v.allocated)).0;
        keys = (DistinctKeys-init rest e keys).0;
        sizes = (All-init _ rest e (rw split at v.sizes)).0;
        summed = omega (arith, v.summed, total-append rest (e ∷ []), ap total split);
        synced = λ q. rw (at_key-init dec q rest e keys, ← split) (ground (arith, v.synced q));
      }

  pub evict_fits : (fuel : ℕ) (c : Cache K) → c.bytes ≤ c.max_bytes → evict dec (suc fuel) c ≡ c
  unfolding evict
  evict_fits fuel c h = ground arith

  pub evict_over :
      (fuel : ℕ) (c : Cache K) (rest : List (Element K)) (e : Element K)
      → c.max_bytes < c.bytes
      → unsnoc c.ll ≡ some (rest, e)
      → evict dec (suc fuel) c ≡ evict dec fuel (drop_back dec c rest e)
  unfolding evict
  evict_over fuel c rest e h back = ground arith

  pub length-drop_back :
      (c : Cache K) (rest : List (Element K)) (e : Element K)
      → c.ll ≡ rest ++ e ∷ []
      → suc (length (drop_back dec c rest e).ll) ≡ length c.ll
  unfolding drop_back
  length-drop_back c rest e split = omega (arith, length-append rest (e ∷ []), ap length split)

  -- With a round for each element the loop ends within the bound.
  evict-IsValid :
      (fuel : ℕ) (c : Cache K)
      → length c.ll < fuel
      → IsSynced dec c
      → IsValid dec (evict dec fuel c)
  evict-IsValid zero c h v = absurd (omega arith)
  evict-IsValid (suc fuel) c h v = elim (dec_lt c.max_bytes c.bytes) [
    | yes over ↦ elim (Option-cases (unsnoc c.ll)) [
      | inl empty ↦ absurd (omega (arith, v.summed, ap total (unsnoc-none c.ll empty)))
      | inr ((rest, e), back) ↦
          let split = unsnoc-append c.ll rest e back in
          rw (evict_over fuel c rest e over back) (
            evict-IsValid fuel (drop_back dec c rest e)
              (omega (arith, length-drop_back c rest e split))
              (drop_back-IsSynced c rest e v split))
    ]
    | no fits ↦ rw (evict_fits fuel c (omega arith)) (record { synced = v; bounded = omega arith })
  ]

  evict-max_bytes : (fuel : ℕ) (c : Cache K) → (evict dec fuel c).max_bytes ≡ c.max_bytes
  unfolding evict drop_back
  evict-max_bytes zero c = refl
  evict-max_bytes (suc fuel) c = elim (Option-cases (unsnoc c.ll)) [
    | inl empty ↦ ground arith
    | inr ((rest, e), back) ↦ ground (arith, evict-max_bytes fuel (drop_back dec c rest e))
  ]

  pub put-max_bytes :
      (sum256 : List ℕ → K) (c : Cache K) (req resp : List ℕ)
      → (put dec sum256 c req resp).max_bytes ≡ c.max_bytes
  unfolding put store
  put-max_bytes sum256 c req resp =
      let stored = store dec sum256 c req resp in
      ground (arith, evict-max_bytes (suc (length stored.ll)) stored)

  -- From a valid cache `Put` makes a valid cache: the list and the map hold the same elements, each key
  -- once, `bytes` is the sum of their sizes, and it is within `maxBytes` when `Put` returns.
  pub put-IsValid :
      (sum256 : List ℕ → K) (c : Cache K) (req resp : List ℕ)
      → IsValid dec c
      → IsValid dec (put dec sum256 c req resp)
  unfolding put
  put-IsValid sum256 c req resp v = elim (Bool-cases (ltb c.max_bytes (length resp))) [
    | inl big ↦ rw big v
    | inr small ↦
        rw small (evict-IsValid _ _ (omega arith) (store-IsSynced dec sum256 c req v.synced resp))
  ]
