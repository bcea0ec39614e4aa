-- ===== src/World/Stream.antt =====
-- internal/world/world.go: `rand`, the stream of the generator.
use Prim.Native.Nat.{bit_xor}
use populace.Prelude.{ℕ, ◌+◌, ◌*◌, ◌/◌, ◌%◌, ◌^◌, ◌≡◌, refl}
use populace.Prelude.Floats.{Floats}
use populace.Sim.Random

abbrev u64 : ℕ → ℕ
u64 x = x % 2 ^ 64

pub record Rand : Type 0 where
  pub s : ℕ

abbrev scramble : ℕ → ℕ
scramble z =
    let a = u64 (bit_xor z (z / 2 ^ 30) * 0xBF58476D1CE4E5B9) in
    let b = u64 (bit_xor a (a / 2 ^ 27) * 0x94D049BB133111EB) in bit_xor b (b / 2 ^ 31)

unfoldable pub new_rand : ℕ → ℕ → Rand
new_rand seed idx = record { s = scramble (u64 (seed + u64 (0x9E3779B97F4A7C15 * u64 (idx + 1)))) }

unfoldable pub u32 : Rand → Rand × ℕ
u32 r = let s = u64 (r.s + 0x9E3779B97F4A7C15) in (record { s = s }, scramble s / 2 ^ 32 % 2 ^ 32)

module _ (fl : Floats) where
  open fl use {Float, of_ℕ, sub, mul, div, neg, sqrt, log, cos, pi}

  unfoldable pub f64 : Rand → Rand × Float
  f64 r = let (r', w) = u32 r in (r', div (of_ℕ w) (of_ℕ 4294967296))

  unfoldable pub norm : Rand → Rand × Float
  norm r =
      let (r', a) = f64 r in
      let (r'', v) = f64 r' in
      (r'', mul (sqrt (mul (neg (of_ℕ 2)) (log (sub (of_ℕ 1) a)))) (cos (mul (mul (of_ℕ 2) pi) v)))

-- The generator's stream and the simulation's are two copies of one: from the same seed and index, and from the same
-- state, they draw the same words.
pub stream-same :
    (seed idx s : ℕ)
    → ((new_rand seed idx).s ≡ (Random.new_rng seed idx).s)
      × ((u32 (record { s = s })).1 ≡ (Random.u32 (record { s = s })).1)
      × ((u32 (record { s = s })).0.s ≡ (Random.u32 (record { s = s })).0.s)
unfolding new_rand u32 Random.new_rng Random.u32
stream-same seed idx s = (refl, refl, refl)
