-- ===== src/Gateway/Cache/Invariant.antt =====
-- The invariant of the cache of cache.go: the list and the map agree, and `bytes` is the sum of the
-- sizes, within the bound.
use mathlib.Core.Option
use native.Mathlib.Nat.{ne_of_lt}
use populace.Prelude.{
  assign, ℕ, suc, ◌+◌, ◌-◌, ◌<◌, ◌≤◌, ◌≡◌, refl, sym, ◌∙◌, inl, inr, none, some, List, ◌∷◌, All,
  All-mono, length, Option-cases, if_pos, if_neg, arith,
}
use populace.Gateway.Cache.Elements.{Element, push_front}
use populace.Gateway.Cache.Elements.Keys.{
  total, DistinctIds, DistinctKeys, at_key, drop_key, All-at_key, at_key-key, All-drop_key,
  drop_key-DistinctIds, drop_key-DistinctKeys, drop_key_gone, drop_key_ids, absent_of_at_key,
  at_key-drop_key_ne, total-drop_key, revalue, move_to_front-at_key, move_to_front-set_value,
  size_at-at_key, find-at_key,
}
use populace.Gateway.Cache.{Cache, new_cache, get, store}

module _ {K : Type 0} (dec : Discrete K) where
  -- All but the bound: it holds between the two halves of `Put` as well.
  pub record IsSynced (c : Cache K) : Type 0 where
    pub ids : DistinctIds c.ll
    pub allocated : All (λ e. e.id < c.fresh) c.ll
    pub keys : DistinctKeys c.ll
    pub sizes : All (λ e. e.entry.size ≡ length e.entry.val) c.ll
    pub summed : c.bytes ≡ total c.ll
    pub synced : (k : K) → c.items k ≡ Option.map (λ e. e.id) (at_key dec k c.ll)

  pub record IsValid (c : Cache K) : Type 0 where
    pub synced : IsSynced c
    pub bounded : c.bytes ≤ c.max_bytes

  pub new_cache-IsValid : (max_bytes : ℕ) → IsValid (new_cache max_bytes)
  unfolding new_cache at_key
  new_cache-IsValid max_bytes = record {
    synced = record {
      ids = tt;
      allocated = tt;
      keys = tt;
      sizes = tt;
      summed = refl;
      synced = λ k. refl;
    };
    bounded = omega arith;
  }

  -- A key that the map has is the key of the element at its address.
  pub hit :
      (c : Cache K) (k : K) (el : ℕ)
      → IsSynced c
      → c.items k ≡ some el
      → (e : Element K) × (at_key dec k c.ll ≡ some e) × (e.id ≡ el)
  hit c k el v h = elim (Option-cases (at_key dec k c.ll)) [
    | inl miss ↦ absurd (ground (arith, v.synced k))
    | inr (e, found) ↦ (e, found, ground (arith, v.synced k))
  ]

  pub miss : (c : Cache K) (k : K) → IsSynced c → c.items k ≡ none → at_key dec k c.ll ≡ none
  miss c k v h = elim (Option-cases (at_key dec k c.ll)) [
    | inl none_there ↦ none_there
    | inr (e, found) ↦ absurd (ground (arith, v.synced k))
  ]

  -- The shape after a hit or an update: the key's element is at the front, perhaps revalued.
  front-IsSynced :
      (c : Cache K) (k : K) (e e' : Element K) (bytes hits : ℕ)
      → IsSynced c
      → at_key dec k c.ll ≡ some e
      → e'.id ≡ e.id
      → e'.entry.key ≡ e.entry.key
      → e'.entry.size ≡ length e'.entry.val
      → bytes + e.entry.size ≡ c.bytes + e'.entry.size
      → IsSynced (record c { ll = e' ∷ drop_key dec k c.ll; bytes = bytes; hits = hits })
  unfolding at_key
  front-IsSynced c k e e' bytes hits v found same_id same_key sized balance =
      let key : e.entry.key ≡ k = at_key-key dec k c.ll e found in
      record {
        ids = (
          rw same_id (drop_key_ids dec k c.ll e v.ids found),
          drop_key-DistinctIds dec k c.ll v.ids,
        );
        allocated = (
          rw same_id (All-at_key dec _ k c.ll e v.allocated found),
          All-drop_key dec _ k c.ll v.allocated,
        );
        keys = (
          rw (same_key ∙ key) (drop_key_gone dec k c.ll v.keys),
          drop_key-DistinctKeys dec k c.ll v.keys,
        );
        sizes = (sized, All-drop_key dec _ k c.ll v.sizes);
        summed = omega (arith, total-drop_key dec k c.ll e found, v.summed);
        synced = λ q. elim (dec e'.entry.key q) [
          | yes p ↦
              let same : k ≡ q = sym key ∙ (sym same_key ∙ p) in
              rw (if_pos _ p, ← same) (ground (arith, v.synced k))
          | no p ↦
              rw (if_neg _ p, at_key-drop_key_ne dec k q c.ll (λ s. p (same_key ∙ key ∙ sym s)))
                (v.synced q)
        ];
      }

  module _ (sum256 : List ℕ → K) (c : Cache K) (req : List ℕ) (v : IsSynced c) where
    pub get_hit :
        (e : Element K)
        → at_key dec (sum256 req) c.ll ≡ some e
        → get dec sum256 c req ≡ (
          record c { ll = e ∷ drop_key dec (sum256 req) c.ll; hits = c.hits + 1 },
          some e.entry.val,
        )
    unfolding get
    get_hit e found = ground (
      arith,
      v.synced (sum256 req),
      find-at_key dec (sum256 req) c.ll e v.ids found,
      move_to_front-at_key dec (sum256 req) c.ll e v.ids found,
    )

    pub get_miss :
        at_key dec (sum256 req) c.ll ≡ none
        → get dec sum256 c req ≡ (record c { misses = c.misses + 1 }, none)
    unfolding get
    get_miss absent = ground (arith, v.synced (sum256 req))

    pub store_update :
        (resp : List ℕ) (e : Element K)
        → at_key dec (sum256 req) c.ll ≡ some e
        → store dec sum256 c req resp ≡ record c {
          ll = revalue resp e ∷ drop_key dec (sum256 req) c.ll;
          bytes = c.bytes + length resp - e.entry.size;
        }
    unfolding store
    store_update resp e found = ground (
      arith,
      v.synced (sum256 req),
      size_at-at_key dec (sum256 req) c.ll e v.ids found,
      move_to_front-set_value dec (sum256 req) resp c.ll e v.ids found,
    )

    pub store_insert :
        (resp : List ℕ)
        → at_key dec (sum256 req) c.ll ≡ none
        → store dec sum256 c req resp ≡ record c {
          ll =
              push_front c.fresh (record { key = sum256 req; val = resp; size = length resp }) c.ll;
          items = assign dec c.items (sum256 req) (some c.fresh);
          bytes = c.bytes + length resp;
          fresh = suc c.fresh;
        }
    unfolding store
    store_insert resp absent = ground (arith, v.synced (sum256 req))

    pub get-IsSynced : IsSynced (get dec sum256 c req).0
    get-IsSynced = elim (Option-cases (at_key dec (sum256 req) c.ll)) [
      | inl absent ↦ rw (get_miss absent) (record {
        ids = v.ids;
        allocated = v.allocated;
        keys = v.keys;
        sizes = v.sizes;
        summed = v.summed;
        synced = v.synced;
      })
      | inr (e, found) ↦ rw (get_hit e found) (
          front-IsSynced c (sum256 req) e e c.bytes (c.hits + 1) v found refl refl
            (All-at_key dec _ (sum256 req) c.ll e v.sizes found) refl)
    ]

    pub insert-IsSynced :
        (resp : List ℕ)
        → at_key dec (sum256 req) c.ll ≡ none
        → IsSynced (store dec sum256 c req resp)
    unfolding at_key
    insert-IsSynced resp absent = rw (store_insert resp absent) (record {
      ids = (All-mono _ _ c.ll (λ e below. ne_of_lt below) v.allocated, v.ids);
      allocated = (omega arith, All-mono _ _ c.ll (λ e below. omega arith) v.allocated);
      keys = (absent_of_at_key dec (sum256 req) c.ll absent, v.keys);
      sizes = (refl, v.sizes);
      summed = omega (arith, v.summed);
      synced = λ q. ground (arith, v.synced q);
    })

    pub store-IsSynced : (resp : List ℕ) → IsSynced (store dec sum256 c req resp)
    store-IsSynced resp = elim (Option-cases (at_key dec (sum256 req) c.ll)) [
      | inl absent ↦ insert-IsSynced resp absent
      | inr (e, found) ↦
          let balance : e.entry.size + total (drop_key dec (sum256 req) c.ll) ≡ total c.ll =
            total-drop_key dec (sum256 req) c.ll e found in
          rw (store_update resp e found) (
            front-IsSynced c (sum256 req) e (revalue resp e) _ c.hits v found refl refl refl
              (omega (arith, balance, v.summed)))
    ]

    pub get-max_bytes : (get dec sum256 c req).0.max_bytes ≡ c.max_bytes
    unfolding get
    get-max_bytes = ground arith

    get-bytes : (get dec sum256 c req).0.bytes ≡ c.bytes
    unfolding get
    get-bytes = ground arith

  -- `Get` keeps the invariant.
  pub get-IsValid :
      (sum256 : List ℕ → K) (c : Cache K) (req : List ℕ)
      → IsValid c
      → IsValid (get dec sum256 c req).0
  get-IsValid sum256 c req v = record {
    synced = get-IsSynced sum256 c req v.synced;
    bounded =
        omega
          (arith, v.bounded, get-bytes sum256 c req v.synced, get-max_bytes sum256 c req v.synced);
  }
