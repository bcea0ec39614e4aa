-- ===== src/Prelude/Maps.antt =====
-- Go maps (as functions into `Option`) and arrays as functions, over keys with a decidable equality.
use mathlib.Core.Path.{◌≡◌, refl}
use mathlib.Core.Logic.{◌≢◌, ite, if_pos, if_neg}

module _ {ℓ κ} {K : Type ℓ} {V : Type κ} (dec : Discrete K) where
  -- `m[k] = v`, and `delete(m, k)` with `none`.
  abbrev pub assign : (K → V) → K → V → K → V
  assign m k v q = ite (dec k q) v (m q)

  pub assign_self : (m : K → V) (k : K) (v : V) → assign m k v k ≡ v
  assign_self m k v = if_pos (dec k k) refl v (m k)

  pub assign_ne : (m : K → V) (k q : K) (v : V) → k ≢ q → assign m k v q ≡ m q
  assign_ne m k q v h = if_neg (dec k q) h v (m q)
