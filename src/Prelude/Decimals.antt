-- ===== src/Prelude/Decimals.antt =====
-- The decimal literals of the source's tables, exactly, and the float that each of them denotes.
use populace.Prelude.{ℕ, Bool, true, false, ◌==◌, if◌then◌else◌}
use populace.Prelude.Floats.{Floats}

pub record Decimal : Type 0 where
  pub minus : Bool
  pub num : ℕ
  pub den : ℕ

-- 2.5 is `lit 25 10`, and -2.5 is `less 25 10`.
abbrev pub lit : ℕ → ℕ → Decimal
lit num den = record { minus = false; num = num; den = den }

abbrev pub less : ℕ → ℕ → Decimal
less num den = record { minus = true; num = num; den = den }

-- `d > 0`.
unfoldable pub is_positive : Decimal → Bool
is_positive d = if d.minus then false else if d.num == 0 then false else true

module _ (fl : Floats) where
  unfoldable pub value : Decimal → fl.Float
  value d = let x = fl.ratio d.num d.den in if d.minus then fl.neg x else x
