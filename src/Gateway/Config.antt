-- ===== src/Gateway/Config.antt =====
-- internal/gateway/gateway.go: `Lane`, `Config` and its `defaults`. Durations are nanoseconds.
use Prim.Native.String.{String}
use populace.Prelude.{ℕ, suc, max, ◌-◌, ◌*◌, ◌^◌, ◌≡◌, List, ◌||◌, if◌then◌else◌, arith}
use populace.Prelude.Int.{ℤ, pos, negsuc, ◌-ℤ◌, ◌≤ℤ◌, ◌<ℤ◌, ltb_ℤ, leb_ℤ, max_ℤ}

pub data Lane : Type 0 where
  interactive batch : Lane

abbrev pub lane_string : Lane → String
lane_string interactive = "interactive"
lane_string batch = "batch"

pub record Config : Type 0 where
  pub upstream : String
  pub max_in_flight : ℤ
  pub batch_cap : ℤ
  pub max_waiting : ℤ
  pub wait_timeout : ℤ
  pub call_timeout : ℤ
  pub cache_bytes : ℤ
  pub tokens : List (String × String)
  pub rate_per_min : ℤ

abbrev pub second : ℕ
second = 1_000_000_000

-- `if v <= 0 { v = d }`.
or_default : ℤ → ℤ → ℤ
or_default v d = if leb_ℤ v (pos 0) then d else v

-- The second `if` of `defaults`: out of range, the cap is two below the slots, but at least one.
batch_cap_for : ℤ → ℤ → ℤ
unfolding ◌-ℤ◌
batch_cap_for slots cap =
    if leb_ℤ cap (pos 0) || ltb_ℤ slots cap then max_ℤ (pos 1) (slots -ℤ pos 2) else cap

pub defaults : Config → Config
defaults c =
    let slots = or_default c.max_in_flight (pos 8) in
    record c {
      max_in_flight = slots;
      batch_cap = batch_cap_for slots c.batch_cap;
      max_waiting = or_default c.max_waiting (pos 64);
      wait_timeout = or_default c.wait_timeout (pos (45 * second));
      call_timeout = or_default c.call_timeout (pos (600 * second));
      cache_bytes = or_default c.cache_bytes (pos (256 * 2 ^ 20));
    }

-- What the rest of the gateway takes for granted.
pub record IsValid (c : Config) : Type 0 where
  pub slots_positive : pos 0 <ℤ c.max_in_flight
  pub batch_positive : pos 0 <ℤ c.batch_cap
  pub batch_within : c.batch_cap ≤ℤ c.max_in_flight
  pub waiting_positive : pos 0 <ℤ c.max_waiting
  pub wait_positive : pos 0 <ℤ c.wait_timeout
  pub call_positive : pos 0 <ℤ c.call_timeout
  pub cache_positive : pos 0 <ℤ c.cache_bytes

or_default_positive : (v d : ℤ) → pos 0 <ℤ d → pos 0 <ℤ or_default v d
unfolding or_default
or_default_positive v d h = ground arith

or_default_kept : (v d : ℤ) → pos 0 <ℤ v → or_default v d ≡ v
unfolding or_default
or_default_kept v d h = ground arith

batch_cap_for_range :
    (slots cap : ℤ)
    → pos 0 <ℤ slots
    → (pos 0 <ℤ batch_cap_for slots cap) × (batch_cap_for slots cap ≤ℤ slots)
unfolding batch_cap_for
batch_cap_for_range (pos n) cap h = ground arith
batch_cap_for_range (negsuc n) cap h = absurd (omega arith)

batch_cap_for_kept : (slots cap : ℤ) → pos 0 <ℤ cap → cap ≤ℤ slots → batch_cap_for slots cap ≡ cap
unfolding batch_cap_for
batch_cap_for_kept slots cap h k = ground arith

-- Whatever is configured, `defaults` makes it valid; and it keeps a valid configuration as it is,
-- so that a second call changes nothing.
pub defaults_lem : (c : Config) → IsValid (defaults c) × (IsValid c → defaults c ≡ c)
unfolding defaults
defaults_lem c = (valid, kept)
  where
    slots : pos 0 <ℤ or_default c.max_in_flight (pos 8)
    slots = or_default_positive c.max_in_flight (pos 8) (omega arith)

    range :
        (pos 0 <ℤ batch_cap_for (or_default c.max_in_flight (pos 8)) c.batch_cap)
        × (batch_cap_for (or_default c.max_in_flight (pos 8)) c.batch_cap
            ≤ℤ or_default c.max_in_flight (pos 8))
    range = batch_cap_for_range (or_default c.max_in_flight (pos 8)) c.batch_cap slots

    valid : IsValid (defaults c)
    valid = record {
      slots_positive = slots;
      batch_positive = range.0;
      batch_within = range.1;
      waiting_positive = or_default_positive c.max_waiting _ (omega arith);
      wait_positive = or_default_positive c.wait_timeout _ (omega arith);
      call_positive = or_default_positive c.call_timeout _ (omega arith);
      cache_positive = or_default_positive c.cache_bytes _ (omega arith);
    }

    kept : IsValid c → defaults c ≡ c
    kept v = cc (
      or_default_kept c.max_in_flight (pos 8) v.slots_positive,
      batch_cap_for_kept c.max_in_flight c.batch_cap v.batch_positive v.batch_within,
      or_default_kept c.max_waiting (pos 64) v.waiting_positive,
      or_default_kept c.wait_timeout (pos (45 * second)) v.wait_positive,
      or_default_kept c.call_timeout (pos (600 * second)) v.call_positive,
      or_default_kept c.cache_bytes (pos (256 * 2 ^ 20)) v.cache_positive,
    )

-- A cap that `defaults` chooses for `n + 1` slots is `n - 1`, and 1 where that is 0: it leaves two
-- slots free of batch work only if there are more than two, and none if there is one.
pub defaults_reserves :
    (c : Config) (n : ℕ)
    → c.max_in_flight ≡ pos (suc n)
    → c.batch_cap ≤ℤ pos 0
    → (defaults c).batch_cap ≡ pos (max 1 (n - 1))
unfolding defaults batch_cap_for or_default
defaults_reserves c n slots cap = ground arith
