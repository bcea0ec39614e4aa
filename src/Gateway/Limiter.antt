-- ===== src/Gateway/Limiter.antt =====
-- internal/gateway/limit.go: the token bucket of each client. Times are readings of the monotonic clock in
-- nanoseconds; a call reads it before it takes the lock, so that the readings may come in any order, and one before the
-- bucket's last takes tokens away, to below 0 too. The floating-point token count is taken as the exact number that it
-- stands for, in units of 1 / `per_token` of a token: a refill of `perMin` tokens a minute is `perMin` units a
-- nanosecond. The rounding of float64 is not modelled.
pub mod Rate
use populace.Prelude.{
  ℕ, ◌+◌, ◌-◌, ◌*◌, ◌≤◌, Option, none, some, Bool, true, false, List, [], ◌∷◌, min, ltb,
  if◌then◌else◌, assign,
}
use populace.Prelude.Int.{ℤ, pos, negsuc, pos_part, neg_part, sub_ℕ, ◌+ℤ◌, ◌-ℤ◌, leb_ℤ, ltb_ℤ}

-- The nanoseconds of a minute.
abbrev pub per_token : ℕ
per_token = 60_000_000_000

pub record Bucket : Type 0 where
  pub tokens : ℤ
  pub last : ℕ

pub record Limiter (Client : Type 0) : Type 0 where
  pub per_min : ℤ
  pub buckets : Client → Option Bucket

unfoldable pub new_limiter : {Client : Type 0} → ℤ → Limiter Client
new_limiter per_min = record { per_min = per_min; buckets = λ _. none }

abbrev pub min_f : ℤ → ℤ → ℤ
min_f a b = if ltb_ℤ a b then a else b

-- `bk` of `Allow`: a new client starts with a full bucket.
unfoldable pub bucket_of : ℕ → ℕ → Option Bucket → Bucket
bucket_of full now none = record { tokens = pos full; last = now }
bucket_of full now (some bk) = bk

-- The tokens with the refill, `now - last` times the rate, which is negative if `now` is before `last`.
unfoldable pub refilled : ℕ → ℕ → Bucket → ℤ
refilled per_min now bk = bk.tokens +ℤ sub_ℕ (now * per_min) (bk.last * per_min)

-- The bucket after the call, and the verdict.
unfoldable pub draw : ℕ → ℕ → Bucket → Bucket × Bool
unfolding refilled
draw per_min now bk =
    let tokens = min_f (pos (per_min * per_token)) (refilled per_min now bk) in
    if ltb_ℤ tokens (pos per_token)
    then (record { tokens = tokens; last = now }, false)
    else (record { tokens = tokens -ℤ pos per_token; last = now }, true)

module _ {Client : Type 0} (dec : Discrete Client) where
  unfoldable pub allow : Limiter Client → ℕ → Client → Limiter Client × Bool
  allow l now client =
      let per_min = pos_part l.per_min in
      let (bk, verdict) =
        draw per_min now (bucket_of (per_min * per_token) now (l.buckets client)) in
      if leb_ℤ l.per_min (pos 0)
      then (l, true)
      else (record l { buckets = assign dec l.buckets client (some bk) }, verdict)
