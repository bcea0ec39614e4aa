-- ===== src/World.antt =====
-- internal/world/world.go: the strata and the arrays of the population, which are functions of the persona's index,
-- below `n`.
pub mod Stream
pub mod Regions
pub mod Roles
pub mod Archetypes
pub mod Centres
pub mod Places
pub mod Positions
pub mod Generate
pub mod Coherence
pub mod Encode
mod Tests
use populace.Prelude.{ℕ, Bool, true, false, if◌then◌else◌}
use populace.Prelude.Decimals.{Decimal, lit, value}
use populace.Prelude.Floats.{Floats}
use Prim.Native.String.{String}

pub data Stratum : Type 0 where
  general nomadic immigrant high_net_worth media : Stratum

abbrev pub is_media : Stratum → Bool
is_media media = true
is_media _ = false

pub record StratumSpec : Type 0 where
  pub name : String
  pub real_share : Decimal
  pub sample_frac : Decimal

-- `Strata`.
unfoldable pub strata : Stratum → StratumSpec
strata general = record { name = "general"; real_share = lit 994 1000; sample_frac = lit 92 100 }
strata nomadic = record { name = "nomadic"; real_share = lit 45 10000; sample_frac = lit 2 100 }
strata immigrant = record { name = "immigrant"; real_share = lit 36 1000; sample_frac = lit 5 100 }
strata high_net_worth = record {
  name = "high_net_worth";
  real_share = lit 11 1000;
  sample_frac = lit 3 100;
}
strata media = record { name = "media"; real_share = lit 1 1000000; sample_frac = lit 3 1000 }

module _ (fl : Floats) where
  -- `Weight`.
  unfoldable pub weight_of : Stratum → fl.Float
  unfolding strata value
  weight_of s =
      let frac = value fl (strata s).sample_frac in
      if fl.eq frac (fl.of_ℕ 0) then fl.of_ℕ 0 else fl.div (value fl (strata s).real_share) frac

pub record World (Float : Type 0) : Type 0 where
  pub n : ℕ
  pub seed : ℕ
  pub lon : ℕ → Float
  pub lat : ℕ → Float
  pub arch : ℕ → ℕ
  pub palette : ℕ → ℕ
  pub shape : ℕ → ℕ
  pub strat : ℕ → Stratum
  pub weight : ℕ → Float
  pub place : ℕ → ℕ
  pub urbanity : ℕ → Float
  pub flags : ℕ → ℕ
