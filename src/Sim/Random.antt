-- ===== src/Sim/Random.antt =====
-- internal/sim/graph.go: the splitmix64 stream `rng`. Words are numbers below 2 ^ 64.
use Prim.Native.Nat.{bit_xor}
use native.Mathlib.Nat.{mod-lt}
use populace.Prelude.{ℕ, ◌+◌, ◌*◌, ◌/◌, ◌%◌, ◌^◌, ◌<◌, ◌≡◌, refl, arith}
use populace.Prelude.Floats.{Floats}

abbrev pub u64 : ℕ → ℕ
u64 x = x % 2 ^ 64

-- `z ^ (z >> k)`.
abbrev xor_shift : ℕ → ℕ → ℕ
xor_shift k z = bit_xor z (z / 2 ^ k)

abbrev golden : ℕ
golden = 0x9E3779B97F4A7C15

-- The two multiplications that `newRNG` and `u32` share.
mix : ℕ → ℕ
mix z =
    let a = u64 (xor_shift 30 z * 0xBF58476D1CE4E5B9) in
    let b = u64 (xor_shift 27 a * 0x94D049BB133111EB) in xor_shift 31 b

pub record Rng : Type 0 where
  pub s : ℕ

unfoldable pub new_rng : ℕ → ℕ → Rng
unfolding mix
new_rng seed idx = record { s = mix (u64 (seed + u64 (golden * u64 (idx + 1)))) }

-- The next word of 32 bits, and the stream behind it.
unfoldable pub u32 : Rng → Rng × ℕ
unfolding mix
u32 r = let s = u64 (r.s + golden) in (record { s = s }, mix s / 2 ^ 32 % 2 ^ 32)

pub u32-lt : (r : Rng) → (u32 r).1 < 2 ^ 32
unfolding u32
u32-lt r = mod-lt _ (omega arith)

-- The first word of the first stream of the seed of `DefaultContagionConfig`.
first_word : (u32 (new_rng 0x5EED 0)).1 ≡ 310_560_205
unfolding u32 new_rng
first_word = refl

module _ (fl : Floats) where
  open fl use {Float, of_ℕ, div, neg, sub, mul, sqrt, log, cos, pi}

  unfoldable pub f64 : Rng → Rng × Float
  f64 r = let (r', w) = u32 r in (r', div (of_ℕ w) (of_ℕ 4294967296))

  -- Box and Muller's normal number, from two floats of the stream.
  unfoldable pub norm : Rng → Rng × Float
  norm r =
      let (r', a) = f64 r in
      let (r'', v) = f64 r' in
      (r'', mul (sqrt (mul (neg (of_ℕ 2)) (log (sub (of_ℕ 1) a)))) (cos (mul (mul (of_ℕ 2) pi) v)))
