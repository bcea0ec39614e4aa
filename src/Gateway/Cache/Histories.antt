-- ===== src/Gateway/Cache/Histories.antt =====
-- Any sequence of calls of `Get` and `Put` on a new cache of cache.go, against the list of Lru.
use populace.Prelude.{ℕ, ◌≡◌, refl, ap, ◌∙◌, Option, List, [], ◌∷◌}
use populace.Gateway.Cache.{Cache, new_cache, get, put}
use populace.Gateway.Cache.Invariant.{IsValid, new_cache-IsValid, get-IsValid, get-max_bytes}
use populace.Gateway.Cache.Eviction.{put-IsValid, put-max_bytes}
use populace.Gateway.Cache.Lru.{lru_get, lru_put}
use populace.Gateway.Cache.Order.{view, view-get, view-put}

pub data Call : Type 0 where
  getting : List ℕ → Call
  putting : List ℕ → List ℕ → Call

module _ {K : Type 0} (dec : Discrete K) (sum256 : List ℕ → K) where
  pub run : Cache K → List Call → Cache K × List (Option (List ℕ))
  run c [] = (c, [])
  run c (getting req ∷ calls) =
      let (d, answer) = get dec sum256 c req in
      let (e, answers) = run d calls in (e, answer ∷ answers)
  run c (putting req resp ∷ calls) = run (put dec sum256 c req resp) calls

  pub lru_run : ℕ → List (K × List ℕ) → List Call → List (K × List ℕ) × List (Option (List ℕ))
  lru_run n l [] = (l, [])
  lru_run n l (getting req ∷ calls) =
      let (l', answer) = lru_get dec (sum256 req) l in
      let (l'', answers) = lru_run n l' calls in (l'', answer ∷ answers)
  lru_run n l (putting req resp ∷ calls) = lru_run n (lru_put dec n (sum256 req) resp l) calls

  pub run-IsValid : (c : Cache K) (calls : List Call) → IsValid dec c → IsValid dec (run c calls).0
  unfolding run
  run-IsValid c [] v = v
  run-IsValid c (getting req ∷ calls) v =
      run-IsValid (get dec sum256 c req).0 calls (get-IsValid dec sum256 c req v)
  run-IsValid c (putting req resp ∷ calls) v =
      run-IsValid (put dec sum256 c req resp) calls (put-IsValid dec sum256 c req resp v)

  run-lru_run :
      (n : ℕ) (c : Cache K) (calls : List Call)
      → IsValid dec c
      → c.max_bytes ≡ n
      → (view (run c calls).0, (run c calls).1) ≡ lru_run n (view c) calls
  unfolding run lru_run
  run-lru_run n c [] v e = refl
  run-lru_run n c (getting req ∷ calls) v e =
      let d = (get dec sum256 c req).0 in
      let answer = (get dec sum256 c req).1 in
      rw (← view-get dec sum256 c req v) (
        ap (λ r. (r.0, answer ∷ r.1))
          (run-lru_run n d calls (get-IsValid dec sum256 c req v)
            (get-max_bytes dec sum256 c req v.synced ∙ e)))
  run-lru_run n c (putting req resp ∷ calls) v e =
      let written = ap (λ m. lru_put dec m (sum256 req) resp (view c)) e in
      rw (← (view-put dec sum256 c req resp v ∙ written)) (
        run-lru_run n (put dec sum256 c req resp) calls (put-IsValid dec sum256 c req resp v)
          (put-max_bytes dec sum256 c req resp ∙ e))

  -- Any sequence of `Get` and `Put` on a new cache gives the answers of the contract, a list by recency
  -- that drops from its back what is over `maxBytes`, and ends with its entries in its order.
  pub run-new_cache :
      (max_bytes : ℕ) (calls : List Call)
      → let c = run (new_cache max_bytes) calls in (view c.0, c.1) ≡ lru_run max_bytes [] calls
  unfolding new_cache
  run-new_cache max_bytes calls =
      run-lru_run max_bytes (new_cache max_bytes) calls (new_cache-IsValid dec max_bytes) refl
