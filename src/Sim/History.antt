-- ===== src/Sim/History.antt =====
-- internal/sim/stats.go: the ring of samples, `record`, `History` and `ResetHistory`. The samples are of any type, since
-- the ring only keeps them.
pub mod Latest
use populace.Prelude.{
  ℕ, zero, suc, ◌+◌, ◌-◌, ◌*◌, ◌/◌, ◌%◌, ◌≤◌, ◌<◌, ◌≡◌, refl, sym, ap, ◌∙◌, subst, Bool, true,
  false, List, [], ◌∷◌, ◌++◌, length, length-append, set, ltb, lt→ltb, if◌then◌else◌, dec_lt,
  Bool-cases, inl, inr, ◌⊎◌, arith,
}
use native.Mathlib.Nat.{mod-eq_of_lt, mod-lt, mod_self}
use native.Mathlib.Numerals.{add-one}
use mathlib.Core.List.{append-nil, append_assoc}

module _ {A : Type 0} where
  unfoldable pub take : ℕ → List A → List A
  take zero xs = []
  take (suc n) [] = []
  take (suc n) (x ∷ xs) = x ∷ take n xs

  unfoldable pub drop : ℕ → List A → List A
  drop zero xs = xs
  drop (suc n) [] = []
  drop (suc n) (x ∷ xs) = drop n xs

-- `history` and `histHead`.
pub record Ring (A : Type 0) : Type 0 where
  pub history : List A
  pub head : ℕ

module _ {A : Type 0} where
  abbrev pub empty_ring : Ring A
  empty_ring = record { history = []; head = 0 }

  -- `record`, with `cap` for `historyLen`.
  unfoldable pub record_sample : ℕ → Ring A → A → Ring A
  record_sample cap s sm =
      if ltb (length s.history) cap
      then record s { history = s.history ++ sm ∷ [] }
      else record { history = set s.history s.head sm; head = (s.head + 1) % cap }

  -- `History`.
  unfoldable pub history_of : ℕ → Ring A → List A
  unfolding take drop
  history_of cap s =
      if ltb (length s.history) cap
      then s.history
      else drop s.head s.history ++ take s.head s.history

  -- `ResetHistory`.
  unfoldable pub reset_history : Ring A → Ring A
  reset_history s = record { history = []; head = 0 }

  unfoldable pub record_all : ℕ → Ring A → List A → Ring A
  unfolding record_sample
  record_all cap s [] = s
  record_all cap s (sm ∷ sms) = record_all cap (record_sample cap s sm) sms

  -- What a ring of `cap` keeps of what has been recorded: the last of it.
  abbrev pub latest : ℕ → List A → List A
  latest cap xs = drop (length xs - cap) xs
