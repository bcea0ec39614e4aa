-- ===== src/Gateway/Auth.antt =====
-- internal/gateway/gateway.go: `auth`, which stands before `handleCompletions`. Tokens and headers are
-- lists of bytes; `Client` is the type of the clients' names.
use mathlib.Core.List.{List, lookup}
use populace.Prelude.{
  ℕ, ◌≡◌, ◌≢◌, refl, [], ◌∷◌, ◌++◌, Option, none, some, Bool, true, false, ite, if_pos, if_neg, ◌⊎◌,
  inl, inr, ap, sym, ◌∙◌, Option-cases, if◌then◌else◌, ℕ_discrete,
}
use populace.Gateway.Limiter.{Limiter, allow}

pub Bytes-discrete : Discrete (List ℕ)
Bytes-discrete = hlevel ℕ_discrete

-- `strings.TrimPrefix`; `cut` takes the prefix off, if it is there.
unfoldable pub cut : List ℕ → List ℕ → Option (List ℕ)
cut [] s = some s
cut (c ∷ prefix) [] = none
cut (c ∷ prefix) (d ∷ s) = ite (ℕ_discrete c d) (cut prefix s) none

unfoldable pub trim_prefix : List ℕ → List ℕ → List ℕ
trim_prefix prefix s = elim (cut prefix s) [ none ↦ s | some rest ↦ rest ]

-- "Bearer ".
abbrev pub bearer : List ℕ
bearer = b'B' ∷ b'e' ∷ b'a' ∷ b'r' ∷ b'e' ∷ b'r' ∷ b' ' ∷ []

abbrev pub is_empty : List ℕ → Bool
is_empty [] = true
is_empty (c ∷ s) = false

pub data Verdict (Client : Type 0) : Type 0 where
  -- `next` is called, with the client's name where there is one
  passed : Option Client → Verdict Client
  -- 401
  unauthorized : Verdict Client
  -- 429, with `Retry-After: 60`
  too_many : Client → Verdict Client

cut-append : (prefix s : List ℕ) → cut prefix (prefix ++ s) ≡ some s
unfolding cut
cut-append [] s = refl
cut-append (c ∷ prefix) s = rw (if_pos (ℕ_discrete c c) refl) (cut-append prefix s)

-- The prefix comes off once.
pub trim_prefix-append : (prefix s : List ℕ) → trim_prefix prefix (prefix ++ s) ≡ s
unfolding trim_prefix
trim_prefix-append prefix s = rw (cut-append prefix s, trim_prefix)

cut-some : (prefix s rest : List ℕ) → cut prefix s ≡ some rest → s ≡ prefix ++ rest
unfolding cut
cut-some [] s rest is = ap (λ o. elim o [ none ↦ s | some r ↦ r ]) is
cut-some (c ∷ prefix) [] rest is = cc
cut-some (c ∷ prefix) (d ∷ s) rest is = elim (ℕ_discrete c d) [
  | yes same ↦
      ap (λ q. d ∷ q) (cut-some prefix s rest (sym (if_pos (ℕ_discrete c d) same _ _) ∙ is))
      ∙ ap (λ k. k ∷ (prefix ++ rest)) (sym same)
  | no other ↦ let bad : none ≡ some rest = sym (if_neg (ℕ_discrete c d) other _ _) ∙ is in cc
]

-- A header that does not start with the prefix is left whole.
trim_prefix-without :
    (prefix s : List ℕ) → ((rest : List ℕ) → s ≢ prefix ++ rest) → trim_prefix prefix s ≡ s
unfolding trim_prefix
trim_prefix-without prefix s without = elim (Option-cases (cut prefix s)) [
  | inl none_off ↦ rw (none_off, trim_prefix) refl
  | inr (rest, off) ↦ absurd (without rest (cut-some prefix s rest off))
]

module _ {Client : Type 0} (dec : Discrete Client) where
  -- The part of `auth` behind the lookup of the token.
  unfoldable pub admit_client :
      Limiter Client → ℕ → List ℕ → Option Client → Limiter Client × Verdict Client
  admit_client l now [] known = (l, unauthorized)
  admit_client l now (c ∷ tok) none = (l, unauthorized)
  admit_client l now (c ∷ tok) (some name) =
      let (l', ok) = allow dec l now name in (l', if ok then passed (some name) else too_many name)

  unfoldable pub auth :
      List (List ℕ × Client) → Limiter Client → ℕ → List ℕ → Limiter Client × Verdict Client
  auth [] l now header = (l, passed none)
  auth (t ∷ ts) l now header =
      let tok = trim_prefix bearer header in
      admit_client l now tok (lookup Bytes-discrete tok (t ∷ ts))

  admit_client_lem :
      (l : Limiter Client) (now : ℕ) (tok : List ℕ) (known : Option Client)
      → admit_client l now tok known ≡ elim known [
        | none ↦ (l, unauthorized)
        | some name ↦
            if is_empty tok
            then (l, unauthorized)
            else let (l', ok) = allow dec l now name in
              (l', if ok then passed (some name) else too_many name)
      ]
  unfolding admit_client
  admit_client_lem l now [] none = refl
  admit_client_lem l now [] (some name) = refl
  admit_client_lem l now (c ∷ tok) none = refl
  admit_client_lem l now (c ∷ tok) (some name) = refl

  -- The token of a header: what follows "Bearer ", or the whole of a header that does not start so.
  abbrev pub IsTokenOf : List ℕ → List ℕ → Type 0
  IsTokenOf header tok =
      (header ≡ bearer ++ tok) ⊎ ((header ≡ tok) × ((rest : List ℕ) → header ≢ bearer ++ rest))

  -- With tokens configured, whatever the header: if its token, what follows "Bearer " or else the whole header, is known
  -- and not empty, then the limiter of its client alone decides between passing the request on and 429; if not, the
  -- answer is 401, and no bucket is touched.
  pub auth-bearer :
      (tokens : List (List ℕ × Client)) (l : Limiter Client) (now : ℕ) (header tok : List ℕ)
      → tokens ≢ []
      → IsTokenOf header tok
      → auth tokens l now header ≡ elim (lookup Bytes-discrete tok tokens) [
        | none ↦ (l, unauthorized)
        | some name ↦
            if is_empty tok
            then (l, unauthorized)
            else let (l', ok) = allow dec l now name in
              (l', if ok then passed (some name) else too_many name)
      ]
  unfolding auth
  auth-bearer [] l now header tok h is = absurd (h refl)
  auth-bearer (t ∷ ts) l now header tok h (inl with_prefix) =
      rw (with_prefix, trim_prefix-append bearer tok)
        (admit_client_lem l now tok (lookup Bytes-discrete tok (t ∷ ts)))
  auth-bearer (t ∷ ts) l now header tok h (inr (same, without)) =
      rw (trim_prefix-without bearer header without, same)
        (admit_client_lem l now tok (lookup Bytes-discrete tok (t ∷ ts)))
