-- ===== src/Sim/Core/Flags.antt =====
-- internal/sim/sim.go: `packFlags` and `flagsFor`, the 16 bits that the client gets for a persona.
use Prim.Native.Nat.{bit_and, bit_or}
use populace.Prelude.{ℕ, ◌+◌, ◌*◌, ◌%◌, Bool, false, ◌&&◌, Option, none, some, if◌then◌else◌}
use populace.Prelude.Int.{ℤ, pos, negsuc}
use populace.Prelude.Floats.{Floats}
use populace.World.{is_media}
use populace.Sim.Contagion.{Status, unaware, adopted, fatigued}
use populace.Sim.Contagion.Start.{clamp_f}
use populace.Sim.Media.{Media}
use populace.Sim.Core.{Sim}

-- The numbers of the states.
abbrev pub status_number : Status → ℕ
status_number unaware = 0
status_number adopted = 1
status_number fatigued = 2

-- `uint16` of an integer.
unfoldable pub to_u16 : ℤ → ℕ
to_u16 (pos n) = n % 65536
to_u16 (negsuc n) = 65535 * (n + 1) % 65536

-- The bits of `packFlags`, with the opinion as `q`. The state is below 4, so that `state & 3` is the state.
unfoldable pub pack_bits : ℕ → ℕ → Bool → Bool → Bool → ℕ
pack_bits state q of_media feed_driven feed_now =
    let f = bit_or (bit_and state 3) (q * 4 % 65536) in
    let f' = if of_media then bit_or f 0x100 else f in
    let f'' = if feed_driven then bit_or f' 0x200 else f' in
    if feed_now then bit_or f'' 0x400 else f''

module _ (fl : Floats) where
  open fl use {Float, of_ℕ, ratio, neg, add, mul, trunc}

  -- `q`.
  unfoldable pub opinion_bits : Float → ℕ
  unfolding to_u16 clamp_f
  opinion_bits y = to_u16 (
      trunc
        (mul (mul (add (clamp_f fl y (neg (of_ℕ 1)) (of_ℕ 1)) (of_ℕ 1)) (ratio 5 10)) (of_ℕ 63)))

  unfoldable pub pack_flags : Status → Float → Bool → Bool → Bool → ℕ
  unfolding pack_bits opinion_bits
  pack_flags state y of_media feed_driven feed_now =
      pack_bits (status_number state) (opinion_bits y) of_media feed_driven feed_now

  -- `feedNow`.
  unfoldable pub feed_now : Option (Media fl) → ℕ → Bool
  feed_now none i = false
  feed_now (some m) i = m.enabled && m.exposed i

  unfoldable pub flags_for : {Chat : Type 0} → Sim fl Chat → ℕ → ℕ
  unfolding pack_flags feed_now
  flags_for s i =
      pack_flags (s.c.state i) (s.o.y i) (is_media (s.w.strat i)) (s.c.feed_driven i)
        (feed_now s.m i)
