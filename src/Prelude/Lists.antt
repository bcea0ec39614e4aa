-- ===== src/Prelude/Lists.antt =====
-- Lists measured and indexed by native numbers, under the library's names.
use Prim.Native.Nat.{ℕ, zero, suc, ◌+◌}
use mathlib.Core.Path.{◌≡◌}
use mathlib.Core.Logic.{◌⊎◌, inl, inr}
use mathlib.Core.List.{List, [], ◌∷◌, ◌++◌}
use mathlib.Core.Option.{Option, none, some}
use native.Mathlib.Omega.{arith}

module _ {ℓ} {A : Type ℓ} where
  abbrev pub length : List A → ℕ
  length [] = 0
  length (x ∷ xs) = suc (length xs)

  abbrev pub get_elem? : List A → ℕ → Option A
  get_elem? [] i = none
  get_elem? (x ∷ xs) zero = some x
  get_elem? (x ∷ xs) (suc i) = get_elem? xs i

  -- A read out of bounds gives the default.
  abbrev pub get_or : List A → ℕ → A → A
  get_or [] i d = d
  get_or (x ∷ xs) zero d = x
  get_or (x ∷ xs) (suc i) d = get_or xs i d

  -- A write out of bounds changes nothing.
  abbrev pub set : List A → ℕ → A → List A
  set [] i v = []
  set (x ∷ xs) zero v = v ∷ xs
  set (x ∷ xs) (suc i) v = x ∷ set xs i v

  -- `P` of every element; the tactics read it as a tuple.
  abbrev pub All {κ} : (A → Type κ) → List A → Type κ
  All P [] = Unit
  All P (x ∷ xs) = P x × All P xs

  pub length-append : (xs ys : List A) → length (xs ++ ys) ≡ length xs + length ys
  length-append [] ys = omega arith
  length-append (x ∷ xs) ys = omega (arith, length-append xs ys)

  pub All-append {κ} : (P : A → Type κ) (xs ys : List A) → All P xs → All P ys → All P (xs ++ ys)
  All-append P [] ys hx hy = hy
  All-append P (x ∷ xs) ys hx hy = (hx.0, All-append P xs ys hx.1 hy)

  pub All-mono {κ μ} :
      (P : A → Type κ) (Q : A → Type μ) (xs : List A) → ((x : A) → P x → Q x) → All P xs → All Q xs
  All-mono P Q [] f a = tt
  All-mono P Q (x ∷ xs) f a = (f x a.0, All-mono P Q xs f a.1)

module _ {A : Type 0} where
  -- `s` stands in the list.
  abbrev pub Among : A → List A → Type 0
  Among s [] = ⊥
  Among s (x ∷ xs) = (x ≡ s) ⊎ Among s xs

  pub Among-append : (s : A) (xs ys : List A) → Among s (xs ++ ys) → Among s xs ⊎ Among s ys
  Among-append s [] ys a = inr a
  Among-append s (x ∷ xs) ys (inl e) = inl (inl e)
  Among-append s (x ∷ xs) ys (inr a) = elim (Among-append s xs ys a) [
    | inl b ↦ inl (inr b)
    | inr b ↦ inr b
  ]

  pub append-Among : (s : A) (xs ys : List A) → Among s xs ⊎ Among s ys → Among s (xs ++ ys)
  append-Among s [] ys (inl a) = absurd a
  append-Among s [] ys (inr a) = a
  append-Among s (x ∷ xs) ys (inl (inl e)) = inl e
  append-Among s (x ∷ xs) ys (inl (inr a)) = inr (append-Among s xs ys (inl a))
  append-Among s (x ∷ xs) ys (inr a) = inr (append-Among s xs ys (inr a))
