-- ===== src/Server/Clock/Backoff.antt =====
-- The back-off of `loop` in cmd/populace/resilience.go.
use native.Mathlib.Nat.{mul_assoc, pow-succ'}
use populace.Prelude.{
  ℕ, zero, suc, ◌*◌, ◌^◌, ◌≤◌, ◌≡◌, refl, sym, ap, ◌∙◌, Bool, true, false, List, [], ◌∷◌, ◌++◌, min,
  arith,
}
use populace.Server.Clock.{max_backoff, next_backoff, backoff_after}

-- So many ticks that fail.
abbrev pub failures : ℕ → List Bool
failures zero = []
failures (suc k) = false ∷ failures k

next_fails :
    (base p : ℕ) → 1 ≤ p → next_backoff base (min p max_backoff) false ≡ min (p * 4) max_backoff
unfolding next_backoff
next_fails base p some_one = ground arith

four_more : (p k : ℕ) → p * 4 * 4 ^ k ≡ p * 4 ^ suc k
four_more p k = mul_assoc p 4 (4 ^ k) ∙ ap (◌*◌ p) (sym (pow-succ' 4 k))

first_failure :
    (base : ℕ)
    → 1 ≤ base
    → base ≤ max_backoff
    → next_backoff base 0 false ≡ min (base * 4) max_backoff
unfolding next_backoff
first_failure base some_one short = ground arith

failures_lem :
    (k base p : ℕ)
    → 1 ≤ p
    → backoff_after base (min p max_backoff) (failures k) ≡ min (p * 4 ^ k) max_backoff
unfolding backoff_after
failures_lem zero base p some_one = omega arith
failures_lem (suc k) base p some_one =
    ap (λ n. backoff_after base n (failures k)) (next_fails base p some_one)
    ∙ failures_lem k base (p * 4) (omega arith)
    ∙ ap (λ q. min q max_backoff) (four_more p k)

backoff_after-append :
    (base backoff : ℕ) (before after : List Bool)
    → backoff_after base backoff (before ++ after)
      ≡ backoff_after base (backoff_after base backoff before) after
unfolding backoff_after
backoff_after-append base backoff [] after = refl
backoff_after-append base backoff (ok ∷ before) after =
    backoff_after-append base (next_backoff base backoff ok) before after

-- With a tick interval of at least a nanosecond and at most five minutes, the `k + 1`st failure in a row backs
-- the loop off to the interval times 4 to the power `k + 1`, and to five minutes where that is less; whatever
-- ticks came before the success that the failures follow.
pub backoff_after_lem :
    (base backoff k : ℕ) (before : List Bool)
    → 1 ≤ base
    → base ≤ max_backoff
    → backoff_after base backoff (before ++ true ∷ failures (suc k))
      ≡ min (base * 4 ^ suc k) max_backoff
unfolding backoff_after next_backoff
backoff_after_lem base backoff k before some_one short =
    backoff_after-append base backoff before (true ∷ failures (suc k))
    ∙ ap (λ n. backoff_after base n (failures k)) (first_failure base some_one short)
    ∙ failures_lem k base (base * 4) (omega arith)
    ∙ ap (λ q. min q max_backoff) (four_more base k)
