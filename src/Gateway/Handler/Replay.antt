-- ===== src/Gateway/Handler/Replay.antt =====
-- What the cache does for `handleCompletions` in gateway.go: it replays whole answers with status 200
-- and nothing else.
use populace.Prelude.{
  List, ℕ, ◌≤◌, ◌≡◌, ◌⊎◌, inl, inr, refl, Option-cases, Bool-cases, length, none, some, true, false,
  ◌&&◌, not, ◌==◌, arith,
}
use populace.Gateway.Admission.{busy, gone}
use populace.Gateway.Cache
use populace.Gateway.Cache.{Cache}
use populace.Gateway.Cache.Invariant.{IsValid, get-IsValid}
use populace.Gateway.Cache.Eviction.{put-IsValid}
use populace.Gateway.Cache.Order.{get-put}
use populace.Gateway.Handler.{
  Server, Request, Pending, Answer, bytes, replied, begin, look_up, refuse, fail_build, finish,
  deliver,
}
use populace.Gateway.Handler.Accounts.{Course, refused, unbuilt, sent, go_on}

module _ {K : Type 0} (dec : Discrete K) (sum256 : List ℕ → K) where
  -- An answer with status 200 that fits in the cache is replayed, byte for byte and without
  -- admission, to the next request that is not streamed and has the same body.
  pub finish-begin :
      (s : Server K) (p : Pending) (a : Answer) (out : List ℕ) (r : Request)
      → IsValid dec s.cache
      → p.streaming ≡ false
      → a.status ≡ 200
      → a.out ≡ some out
      → length out ≤ s.cache.max_bytes
      → r.is_post ≡ true
      → r.body ≡ some p.body
      → r.streaming ≡ false
      → (begin dec sum256 (finish dec sum256 s p (some a)).0 r).1
        ≡ replied (record {
          status = 200;
          body = bytes out;
          retry_after = none;
          cache_hit = some true;
          lane = none;
        })
  unfolding begin look_up finish deliver
  finish-begin s p a out r v plain ok whole fits post same plain' =
      ground (arith, get-put dec sum256 s.cache p.body out v fits)

  -- The lookup of `begin` is the only thing that it does to the cache.
  begin-cache :
      (s : Server K) (r : Request)
      → ((begin dec sum256 s r).0.cache ≡ s.cache)
        ⊎ ((body : List ℕ) × ((begin dec sum256 s r).0.cache
              ≡ (Cache.get dec sum256 s.cache body).0))
  unfolding begin look_up
  begin-cache s r = elim (Option-cases r.body) [
    | inl cut ↦ inl (ground arith)
    | inr (body, whole) ↦ elim (Bool-cases (r.is_post && not r.streaming)) [
      | inl asked ↦ inr (body, ground arith)
      | inr other ↦ inl (ground arith)
    ]
  ]

  -- What a request that goes on does to the cache: nothing, or it stores a whole answer with status
  -- 200 under the request's body.
  pub go_on-cache :
      (s : Server K) (p : Pending) (course : Course)
      → let cache = (go_on dec sum256 s p course).0.cache in
        (cache ≡ s.cache)
        ⊎ ((a : Answer) × (out : List ℕ) × (course ≡ sent (some a))
            × (a.status ≡ 200)
            × (a.out ≡ some out)
            × (p.streaming ≡ false)
            × (cache ≡ Cache.put dec sum256 s.cache p.body out))
  unfolding go_on refuse fail_build finish deliver
  go_on-cache s p (refused busy in_flight waiting) = inl refl
  go_on-cache s p (refused gone in_flight waiting) = inl refl
  go_on-cache s p unbuilt = inl refl
  go_on-cache s p (sent none) = inl refl
  go_on-cache s p (sent (some a)) = elim (Option-cases a.out) [
    | inl cut ↦ inl (ground arith)
    | inr (out, whole) ↦ elim (Bool-cases (a.status == 200 && not p.streaming)) [
      | inl kept ↦ inr (a, out, refl, ground arith, whole, ground arith, ground arith)
      | inr other ↦ inl (ground arith)
    ]
  ]

  -- The handler keeps the cache valid.
  pub handler-IsValid :
      (s : Server K) (r : Request) (p : Pending) (course : Course)
      → IsValid dec s.cache
      → IsValid dec (begin dec sum256 s r).0.cache
        × IsValid dec (go_on dec sum256 s p course).0.cache
  handler-IsValid s r p course v = (
    elim (begin-cache s r) [
      | inl same ↦ rw same v
      | inr (body, looked) ↦ rw looked (get-IsValid dec sum256 s.cache body v)
    ],
    elim (go_on-cache s p course) [
      | inl same ↦ rw same v
      | inr (a, out, _, _, _, _, stored) ↦ rw stored (put-IsValid dec sum256 s.cache p.body out v)
    ],
  )
