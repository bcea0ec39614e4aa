-- ===== src/Sim/Numbers.antt =====
-- Concrete instances of the floats of the model, for tests.
use Prim.Native.Nat.{◌^◌}
use populace.Prelude.{
  Bool, false, Option, none, some, ℕ, ◌+◌, ◌-◌, ◌*◌, ◌/◌, ◌%◌, ◌==◌, min, max, ltb, leb,
}
use populace.Prelude.Int.{pos}
use populace.Prelude.Floats.{Floats}

-- Natural numbers where the source has floats.
abbrev pub counting : Floats
counting = record {
  Float = ℕ;
  of_ℕ = λ n. n;
  ratio = λ a b. a / b;
  neg = λ x. 0;
  add = λ x y. x + y;
  sub = λ x y. x - y;
  mul = λ x y. x * y;
  div = λ x y. x / y;
  lt = ltb;
  le = leb;
  eq = ◌==◌;
  min = λ x y. min x y;
  max = λ x y. max x y;
  pow = λ x y. x ^ y;
  exp = λ x. x;
  log = λ x. x;
  sqrt = λ x. x;
  cos = λ x. x;
  sin = λ x. x;
  abs = λ x. x;
  mod_f = λ x y. x % y;
  pi = 3;
  trunc = pos;
  ceil = pos;
}

-- Natural numbers with a value that is no number, to which every operation on it leads.
abbrev lift : (ℕ → ℕ) → Option ℕ → Option ℕ
lift f none = none
lift f (some x) = some (f x)

abbrev lift2 : (ℕ → ℕ → ℕ) → Option ℕ → Option ℕ → Option ℕ
lift2 f (some x) (some y) = some (f x y)
lift2 f _ _ = none

abbrev test2 : (ℕ → ℕ → Bool) → Option ℕ → Option ℕ → Bool
test2 f (some x) (some y) = f x y
test2 f _ _ = false

abbrev number_or_0 : Option ℕ → ℕ
number_or_0 none = 0
number_or_0 (some x) = x

abbrev pub with_nan : Floats
with_nan = record {
  Float = Option ℕ;
  of_ℕ = some;
  ratio = λ a b. some (a / b);
  neg = lift (λ x. 0);
  add = lift2 (λ x y. x + y);
  sub = lift2 (λ x y. x - y);
  mul = lift2 (λ x y. x * y);
  div = lift2 (λ x y. x / y);
  lt = test2 ltb;
  le = test2 leb;
  eq = test2 ◌==◌;
  min = lift2 (λ x y. min x y);
  max = lift2 (λ x y. max x y);
  pow = lift2 (λ x y. x ^ y);
  exp = lift (λ x. x);
  log = lift (λ x. x);
  sqrt = lift (λ x. x);
  cos = lift (λ x. x);
  sin = lift (λ x. x);
  abs = lift (λ x. x);
  mod_f = lift2 (λ x y. x % y);
  pi = some 3;
  trunc = λ x. pos (number_or_0 x);
  ceil = λ x. pos (number_or_0 x);
}
