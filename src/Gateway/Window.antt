-- ===== src/Gateway/Window.antt =====
-- internal/gateway/gateway.go: `mark`, `liveTokPerSec` and the samples of the last minute. Times are
-- clock readings in nanoseconds; `mark` reads the clock three times. A rate is kept as the fraction
-- of which the source computes the float64.
use populace.Prelude.{
  ℕ, ◌+◌, ◌-◌, ◌≤◌, ◌<◌, ◌≡◌, refl, ap, Option, none, some, false, List, [], ◌∷◌, ◌++◌, All, length,
  ltb, leb, lt→ltb, dec_lt, if◌then◌else◌, arith,
}

pub record Sample : Type 0 where
  pub at : ℕ
  pub tokens : ℕ
  pub dur : ℕ

pub record Meter : Type 0 where
  pub up_nanos : ℕ
  pub up_tokens : ℕ
  -- oldest first
  pub recent : List Sample
  pub last_seen : ℕ

abbrev pub minute : ℕ
minute = 60_000_000_000

-- The loop that advances `i`, and the slice behind it: `s.at + minute < now` is `at.Before(cut)`.
unfoldable pub since : ℕ → List Sample → List Sample
since now [] = []
since now (s ∷ recent) =
    let rest = since now recent in if ltb (s.at + minute) now then rest else s ∷ recent

-- `start` is the request's start, and `t1`, `t2`, `t3`, `t4` are what the clock gives to `d`, `lastSeen`,
-- the sample and `cut`.
unfoldable pub mark : Meter → ℕ → ℕ → ℕ → ℕ → ℕ → ℕ → Meter
mark m start tokens t1 t2 t3 t4 =
    let d = t1 - start in
    record {
      up_nanos = m.up_nanos + d;
      up_tokens = m.up_tokens + tokens;
      recent = since t4 (m.recent ++ record { at = t3; tokens = tokens; dur = d } ∷ []);
      last_seen = t2;
    }

-- The times do not fall along the list, from `t` on.
abbrev pub Rising : ℕ → List Sample → Type 0
Rising t [] = Unit {0}
Rising t (s ∷ recent) = (t ≤ s.at) × Rising s.at recent

abbrev pub tokens_of : List Sample → ℕ
tokens_of [] = 0
tokens_of (s ∷ recent) = s.tokens + tokens_of recent

abbrev pub last_at : ℕ → List Sample → ℕ
last_at t [] = t
last_at t (s ∷ recent) = last_at s.at recent

-- Tokens and nanoseconds of the rate; `none` where the source returns 0.
unfoldable pub live_tok_per_sec : Meter → Option (ℕ × ℕ)
live_tok_per_sec m = elim m.recent [
  | [] ↦ none
  | s ∷ rest ↦
      let span = last_at s.at rest - s.at in
      if leb (length (s ∷ rest)) 1
      then none
      else if leb span 0
      then none
      else some (tokens_of (s ∷ rest), span)
]

ltb_not : (a b : ℕ) → ¬ (a < b) → ltb a b ≡ false
ltb_not a b h = ground arith

Rising-append :
    (t : ℕ) (recent : List Sample) (s : Sample)
    → Rising t recent
    → last_at t recent ≤ s.at
    → Rising t (recent ++ s ∷ [])
Rising-append t [] s r h = (h, tt)
Rising-append t (x ∷ recent) s r h = (r.0, Rising-append x.at recent s r.1 h)

-- From a sample of the last minute on, rising samples are all of it.
late-All :
    (t now : ℕ) (recent : List Sample)
    → Rising t recent
    → now ≤ t + minute
    → All (λ s. now ≤ s.at + minute) recent
late-All t now [] r h = tt
late-All t now (s ∷ recent) r h = (omega arith, late-All s.at now recent r.1 (omega arith))

since-All :
    (t now : ℕ) (recent : List Sample)
    → Rising t recent
    → All (λ s. now ≤ s.at + minute) (since now recent)
unfolding since
since-All t now [] r = tt
since-All t now (s ∷ recent) r = elim (dec_lt (s.at + minute) now) [
  | yes old ↦ rw (lt→ltb _ _ old) (since-All s.at now recent r.1)
  | no fresh ↦
      rw (ltb_not (s.at + minute) now fresh)
        (omega arith, late-All s.at now recent r.1 (omega arith))
]

-- The samples that `since` drops are a front of the list, all older than a minute.
since-split :
    (now : ℕ) (recent : List Sample)
    → (dropped : List Sample) × (recent ≡ dropped ++ since now recent)
      × All (λ s. s.at + minute < now) dropped
unfolding since
since-split now [] = ([], refl, tt)
since-split now (s ∷ recent) = elim (dec_lt (s.at + minute) now) [
  | yes old ↦
      let (dropped, split, olds) = since-split now recent in
      (s ∷ dropped, rw (lt→ltb _ _ old) (ap (◌∷◌ s) split), (old, olds))
  | no fresh ↦ ([], rw (ltb_not (s.at + minute) now fresh), tt)
]

-- While the clock does not go back, `mark` leaves in the window, in order, exactly the samples of the
-- last minute: what it drops from the old ones and its own is older, what it keeps is not.
pub mark_window :
    (m : Meter) (start tokens t1 t2 t3 t4 : ℕ)
    → Rising 0 m.recent
    → last_at 0 m.recent ≤ t3
    → let kept = (mark m start tokens t1 t2 t3 t4).recent in
      let own : Sample = record { at = t3; tokens = tokens; dur = t1 - start } in
      (dropped : List Sample) × (m.recent ++ own ∷ [] ≡ dropped ++ kept)
      × All (λ s. s.at + minute < t4) dropped
      × All (λ s. t4 ≤ s.at + minute) kept
unfolding mark
mark_window m start tokens t1 t2 t3 t4 rising after =
    let own : Sample = record { at = t3; tokens = tokens; dur = t1 - start } in
    let all = m.recent ++ own ∷ [] in
    let (dropped, split, olds) = since-split t4 all in
    (dropped, split, olds, since-All 0 t4 all (Rising-append 0 m.recent own rising after))
