-- ===== src/Gateway/Tests.antt =====
-- The theorems of the gateway at concrete inputs, and runs of its code.
mod Requests
use populace.Prelude.{
  ℕ, ◌+◌, ◌*◌, ◌-◌, ◌≤◌, ◌≡◌, refl, inl, none, some, true, List, [], ◌∷◌, ℕ_discrete, arith, max,
}
use populace.Prelude.Int.{pos, negsuc}
use populace.Gateway.Config.{
  Config, defaults, IsValid as IsValidConfig, defaults_lem, defaults_reserves,
}
use populace.Gateway.Cache.{Cache, new_cache, get, put, evict}
use populace.Gateway.Cache.Elements.{find, remove, move_to_front, set_value, size_at, unsnoc}
use populace.Gateway.Cache.Invariant.{IsValid, new_cache-IsValid}
use populace.Gateway.Cache.Eviction.{put-IsValid}
use populace.Gateway.Cache.Order.{view, get-put}
use populace.Gateway.Cache.Histories.{Call, getting, putting, run, lru_run, run-new_cache}
use populace.Gateway.Limiter.{Limiter, allow, per_token}
use populace.Gateway.Limiter.Rate.{grants, grants_bound, allow_rested}

-- The sum of the bytes stands for the hash.
abbrev sum_of : List ℕ → ℕ
sum_of [] = 0
sum_of (b ∷ bs) = b + sum_of bs

abbrev small : Cache ℕ
small = put ℕ_discrete sum_of (new_cache 4) (7 ∷ []) (1 ∷ 2 ∷ 3 ∷ [])

small-IsValid : IsValid ℕ_discrete small
small-IsValid =
    put-IsValid ℕ_discrete sum_of (new_cache 4) (7 ∷ []) (1 ∷ 2 ∷ 3 ∷ [])
      (new_cache-IsValid ℕ_discrete 4)

-- A second response of two bytes does not fit beside the first: the first is evicted.
evicts :
    (get ℕ_discrete sum_of (put ℕ_discrete sum_of small (8 ∷ []) (5 ∷ 6 ∷ [])) (7 ∷ [])).1 ≡ none
unfolding new_cache get put evict find remove move_to_front set_value size_at unsnoc ℕ_discrete
evicts = refl

put-IsValid_example : IsValid ℕ_discrete (put ℕ_discrete sum_of small (8 ∷ []) (5 ∷ 6 ∷ []))
put-IsValid_example = put-IsValid ℕ_discrete sum_of small (8 ∷ []) (5 ∷ 6 ∷ []) small-IsValid

get-put_example :
    (get ℕ_discrete sum_of (put ℕ_discrete sum_of small (8 ∷ []) (5 ∷ 6 ∷ [])) (8 ∷ [])).1
    ≡ some (5 ∷ 6 ∷ [])
unfolding put new_cache evict
get-put_example = get-put ℕ_discrete sum_of small (8 ∷ []) (5 ∷ 6 ∷ []) small-IsValid (omega arith)

abbrev calls : List Call
calls = putting (7 ∷ []) (1 ∷ 2 ∷ 3 ∷ []) ∷ putting (8 ∷ []) (5 ∷ 6 ∷ []) ∷ getting (7 ∷ []) ∷ []

run-new_cache_example :
    (
      view (run ℕ_discrete sum_of (new_cache 4) calls).0,
      (run ℕ_discrete sum_of (new_cache 4) calls).1,
    )
    ≡ lru_run ℕ_discrete sum_of 4 [] calls
run-new_cache_example = run-new_cache ℕ_discrete sum_of 4 calls

-- `-batch-cap 0` and one slot.
abbrev single : Config
single = record {
  upstream = "http://127.0.0.1:30000";
  max_in_flight = pos 1;
  batch_cap = pos 0;
  max_waiting = pos 64;
  wait_timeout = pos 1;
  call_timeout = pos 1;
  cache_bytes = negsuc 0;
  tokens = [];
  rate_per_min = pos 0;
}

abbrev two_a_minute : Limiter ℕ
two_a_minute = record { per_min = pos 2; buckets = λ k. none }

-- The third call has read the clock before the second.
grants_bound_example :
    grants ℕ_discrete two_a_minute ((0, 5) ∷ (4, 5) ∷ (3, 5) ∷ (5, 6) ∷ []) 5 * per_token
    ≤ 2 * per_token + (10 - 0) * 2
grants_bound_example =
    grants_bound ℕ_discrete 1 0 10 two_a_minute ((0, 5) ∷ (4, 5) ∷ (3, 5) ∷ (5, 6) ∷ []) 5 refl refl
      (
        omega arith,
        omega arith,
        (omega arith, omega arith, (omega arith, omega arith, (omega arith, omega arith, tt))),
      )

allow_rested_example : (allow ℕ_discrete two_a_minute 9 5).1 ≡ true
allow_rested_example = allow_rested ℕ_discrete 1 two_a_minute 9 5 refl (inl refl)
