-- ===== src/Gateway/Cache.antt =====
-- internal/gateway/cache.go: the byte-bounded LRU over request body -> response body.
-- A `*list.Element` is an address; `ll` holds the elements, front first, and `items` is the Go map
-- from hash to address. Bytes are numbers, and `sum256` stands for `sha256.Sum256`.
pub mod Elements
pub mod Invariant
pub mod Eviction
pub mod Lru
pub mod Order
pub mod Histories
use mathlib.Core.Option
use populace.Prelude.{
  ℕ, zero, suc, ◌+◌, ◌-◌, Bool, true, false, Option, none, some, List, [], ◌∷◌, length, ltb,
  if◌then◌else◌, assign,
}
use Elements.{Entry, Element, find, set_value, move_to_front, push_front, unsnoc}

pub record Cache (K : Type 0) : Type 0 where
  pub max_bytes : ℕ
  pub bytes : ℕ
  pub ll : List (Element K)
  pub items : K → Option ℕ
  pub hits : ℕ
  pub misses : ℕ
  -- The address of the next element that is allocated.
  pub fresh : ℕ

unfoldable pub new_cache : {K : Type 0} → ℕ → Cache K
new_cache max_bytes = record {
  max_bytes = max_bytes;
  bytes = 0;
  ll = [];
  items = λ _. none;
  hits = 0;
  misses = 0;
  fresh = 0;
}

module _ {K : Type 0} (dec : Discrete K) where
  -- One round of the loop at the end of `Put`, with the element at the back removed.
  unfoldable pub drop_back : Cache K → List (Element K) → Element K → Cache K
  drop_back c rest e = record c {
    ll = rest;
    items = assign dec c.items e.entry.key none;
    bytes = c.bytes - e.entry.size;
  }

  -- The loop at the end of `Put`; each round that does not stop shortens `ll`.
  unfoldable pub evict : ℕ → Cache K → Cache K
  unfolding drop_back
  evict zero c = c
  evict (suc fuel) c = elim (ltb c.max_bytes c.bytes) [
    | false ↦ c
    | true ↦ elim (unsnoc c.ll) [ none ↦ c | some (rest, e) ↦ evict fuel (drop_back c rest e) ]
  ]

  module _ (sum256 : List ℕ → K) where
    unfoldable pub get : Cache K → List ℕ → Cache K × Option (List ℕ)
    get c req = elim (c.items (sum256 req)) [
      | none ↦ (record c { misses = c.misses + 1 }, none)
      | some el ↦ (
        record c { ll = move_to_front el c.ll; hits = c.hits + 1 },
        Option.map (λ e. e.entry.val) (find el c.ll),
      )
    ]

    -- The two branches of `Put` that store the copy of the response.
    unfoldable pub store : Cache K → List ℕ → List ℕ → Cache K
    store c req resp =
        let k = sum256 req in
        elim (c.items k) [
          | some el ↦ record c {
            bytes = c.bytes + length resp - Elements.size_at el c.ll;
            ll = move_to_front el (set_value el resp c.ll);
          }
          | none ↦ record c {
            ll = push_front c.fresh (record { key = k; val = resp; size = length resp }) c.ll;
            items = assign dec c.items k (some c.fresh);
            bytes = c.bytes + length resp;
            fresh = suc c.fresh;
          }
        ]

    unfoldable pub put : Cache K → List ℕ → List ℕ → Cache K
    unfolding store
    put c req resp =
        let stored = store c req resp in
        if ltb c.max_bytes (length resp) then c else evict (suc (length stored.ll)) stored

  unfoldable pub stats : Cache K → ℕ × ℕ × ℕ
  stats c = (c.hits, c.misses, c.bytes)
