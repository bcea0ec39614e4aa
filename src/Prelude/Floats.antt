-- ===== src/Prelude/Floats.antt =====
-- The floating-point numbers of Go, as a parameter: a type and the operations of the language and of
-- package `math` that the source calls. float32 and float64 are one type here, and no law is assumed.
use populace.Prelude.{ℕ, Bool}
use populace.Prelude.Int.{ℤ}

pub record Floats : Type 1 where
  pub Float : Type 0
  pub of_ℕ : ℕ → Float
  -- `a / b` of two integer literals of the source, such as 0.35 as 35 / 100
  pub ratio : ℕ → ℕ → Float
  pub neg : Float → Float
  pub add : Float → Float → Float
  pub sub : Float → Float → Float
  pub mul : Float → Float → Float
  pub div : Float → Float → Float
  -- `a < b`, `a <= b`, `a == b`
  pub lt : Float → Float → Bool
  pub le : Float → Float → Bool
  pub eq : Float → Float → Bool
  -- `math.Min`, `math.Max`
  pub min : Float → Float → Float
  pub max : Float → Float → Float
  -- `math.Pow`, `math.Exp`, `math.Log`, `math.Sqrt`, `math.Cos`, `math.Sin`, `math.Abs`, `math.Pi`
  pub pow : Float → Float → Float
  pub exp : Float → Float
  pub log : Float → Float
  pub sqrt : Float → Float
  pub cos : Float → Float
  pub sin : Float → Float
  pub abs : Float → Float
  -- `math.Mod`
  pub mod_f : Float → Float → Float
  pub pi : Float
  -- `int(x)`, and `int(math.Ceil(x))`
  pub trunc : Float → ℤ
  pub ceil : Float → ℤ
