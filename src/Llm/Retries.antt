-- ===== src/Llm/Retries.antt =====
-- `Complete` of internal/llm/client.go: how many attempts it makes, what it returns, and how long it waits.
use Prim.Native.Nat.{bit_and}
use populace.Prelude.{
  ℕ, zero, suc, ◌+◌, ◌≤◌, ◌<◌, ◌≡◌, ◌⊎◌, inl, inr, refl, ap, ◌∙◌, Bool, true, false, ◌&&◌,
  ℕ_discrete, none, some, List, [], ◌∷◌, ◌++◌, ltb, leb, ◌==◌, Bool-cases, Option-cases, arith,
}
use populace.Prelude.Int.{ℤ}
use native.Mathlib.Numerals.{add-one}
use populace.Llm.{
  Attempt, Result, saturated, cancelled, decision, wait_for, retry_after, next_backoff,
  complete_from, complete, ip4, looks_like_tailnet,
}

-- The back-off before the wait of an attempt.
unfoldable pub backoff_at : ℕ → ℕ
backoff_at zero = 1
backoff_at (suc k) = next_backoff (backoff_at k)

module _ {Response : Type 0} (max_retries : ℕ) (tries : ℕ → Attempt Response)
    (ends : ℕ → Bool) where
  -- The waits of the first attempts.
  unfoldable pub waits_of : ℕ → List ℤ
  waits_of zero = []
  waits_of (suc k) = waits_of k ++ wait_for (backoff_at k) (retry_after (tries k)) ∷ []

  -- How `Complete` can end at attempt `k`: by what that decides, at the last attempt, or in the wait after it.
  abbrev pub EndsAt : ℕ → Result Response → List ℤ → Type 0
  EndsAt k r waits =
      ((decision (tries k) ≡ some r) × (waits ≡ waits_of k))
      ⊎ (((decision (tries k) ≡ none) × (k ≡ max_retries) × (r ≡ saturated) × (waits ≡ waits_of k))
          ⊎ ((decision (tries k) ≡ none)
              × (k < max_retries)
              × (ends k ≡ true)
              × (r ≡ cancelled)
              × (waits ≡ waits_of (suc k))))

  -- The attempts before `k` have met a 503, and the waits after them have not been cut short.
  pub record WentOn (k : ℕ) : Type 0 where
    pub busy : (j : ℕ) → j < k → decision (tries j) ≡ none
    pub waited : (j : ℕ) → j < k → ends j ≡ false

  WentOn-suc : (k : ℕ) → WentOn k → decision (tries k) ≡ none → ends k ≡ false → WentOn (suc k)
  WentOn-suc k w busy waited = record {
    busy = λ j below. elim (ℕ_discrete j k) [
      | yes e ↦ ap (λ q. decision (tries q)) e ∙ busy
      | no other ↦ w.busy j (omega arith)
    ];
    waited = λ j below. elim (ℕ_discrete j k) [
      | yes e ↦ ap ends e ∙ waited
      | no other ↦ w.waited j (omega arith)
    ];
  }

  cut_off :
      (fuel a : ℕ)
      → decision (tries a) ≡ none
      → leb max_retries a ≡ false
      → ends a ≡ true
      → complete_from (suc fuel) max_retries tries ends a (backoff_at a) (waits_of a)
        ≡ some (cancelled, waits_of (suc a))
  unfolding complete_from waits_of
  cut_off fuel a busy more over = rw (busy, more, over) refl

  go_on :
      (fuel a : ℕ)
      → decision (tries a) ≡ none
      → leb max_retries a ≡ false
      → ends a ≡ false
      → complete_from (suc fuel) max_retries tries ends a (backoff_at a) (waits_of a)
        ≡ complete_from fuel max_retries tries ends (suc a) (backoff_at (suc a)) (waits_of (suc a))
  unfolding complete_from waits_of backoff_at
  go_on fuel a busy more on = rw (busy, more, on, add-one a) refl

  complete_from_lem :
      (fuel a : ℕ)
      → fuel + a ≡ max_retries + 1
      → 1 ≤ fuel
      → WentOn a
      → (r : Result Response) × ((waits : List ℤ) × ((k : ℕ) × (complete_from fuel max_retries tries
                ends a
                (backoff_at a)
                (waits_of a)
              ≡ some (r, waits))
            × (k ≤ max_retries)
            × WentOn k
            × EndsAt k r waits))
  unfolding complete_from
  complete_from_lem zero a sum some_fuel w = absurd (omega arith)
  complete_from_lem (suc fuel) a sum some_fuel w = elim (Option-cases (decision (tries a))) [
    | inr (r, is) ↦ (r, (waits_of a, (a, rw is refl, omega arith, w, inl (is, refl))))
    | inl busy ↦ elim (Bool-cases (leb max_retries a)) [
      | inl last ↦ (
        saturated,
        (
          waits_of a,
          (a, rw (busy, last) refl, omega arith, w, inr (inl (busy, ground arith, refl, refl))),
        ),
      )
      | inr more ↦ elim (Bool-cases (ends a)) [
        | inl over ↦ (
          cancelled,
          (
            waits_of (suc a),
            (
              a,
              cut_off fuel a busy more over,
              omega arith,
              w,
              inr (inr (busy, ground arith, over, refl, refl)),
            ),
          ),
        )
        | inr on ↦
            let (r, (waits, (k, is, low, went, how))) =
              complete_from_lem fuel (suc a) (omega arith) (ground arith)
                (WentOn-suc a w busy on) in
            (r, (waits, (k, go_on fuel a busy more on ∙ is, low, went, how)))
      ]
    ]
  ]

  -- `Complete` always returns. There is an attempt, at most number `MaxRetries` from 0 on, before which all were
  -- answered 503 and waited for in full, and with which it ends: it returns what that attempt decides, `ErrSaturated`
  -- if it is the last one and answered 503, or the context's error if this ends in the wait after it; and its waits are
  -- those of the attempts that it has waited for.
  pub complete_lem :
      (r : Result Response) × ((waits : List ℤ) × ((k : ℕ) × (complete max_retries tries ends
            ≡ some (r, waits))
          × (k ≤ max_retries)
          × WentOn k
          × EndsAt k r waits))
  unfolding complete backoff_at waits_of
  complete_lem =
      complete_from_lem (max_retries + 1) 0 (omega arith) (omega arith) (record {
        busy = λ j below. absurd (omega arith);
        waited = λ j below. absurd (omega arith);
      })

next_backoff-top : (k : ℕ) → backoff_at (suc (suc (suc (suc (suc k))))) ≡ 32
unfolding backoff_at next_backoff
next_backoff-top zero = refl
next_backoff-top (suc k) = rw (next_backoff-top k) refl

-- The back-off is never more than 32 seconds.
pub backoff_at_bounds : (k : ℕ) → (1 ≤ backoff_at k) × (backoff_at k ≤ 32)
unfolding backoff_at next_backoff
backoff_at_bounds zero = omega arith
backoff_at_bounds (suc zero) = omega arith
backoff_at_bounds (suc (suc zero)) = omega arith
backoff_at_bounds (suc (suc (suc zero))) = omega arith
backoff_at_bounds (suc (suc (suc (suc zero)))) = omega arith
backoff_at_bounds (suc (suc (suc (suc (suc k))))) = rw (next_backoff-top k) omega arith

-- The bytes below the given one on which the mask and the range from 64 to 127 differ.
note_error : Bool → Bool → ℕ → List ℕ → List ℕ
note_error true true byte found = found
note_error false false byte found = found
note_error _ _ byte found = byte ∷ found

mask_errors : ℕ → List ℕ
unfolding note_error
mask_errors zero = []
mask_errors (suc byte) =
    note_error (bit_and byte 0xC0 == 64) (leb 64 byte && ltb byte 128) byte (mask_errors byte)

mask_errors_free : mask_errors 256 ≡ []
unfolding mask_errors
mask_errors_free = refl

note_error-clean :
    (masked ranged : Bool) (byte : ℕ) (found : List ℕ)
    → note_error masked ranged byte found ≡ []
    → (masked ≡ ranged) × (found ≡ [])
unfolding note_error
note_error-clean true true byte found clean = (refl, clean)
note_error-clean false false byte found clean = (refl, clean)
note_error-clean true false byte found clean = cc
note_error-clean false true byte found clean = cc

mask_errors_lem :
    (n byte : ℕ)
    → mask_errors n ≡ []
    → byte < n
    → (bit_and byte 0xC0 == 64) ≡ (leb 64 byte && ltb byte 128)
unfolding mask_errors
mask_errors_lem zero byte clean low = absurd (omega arith)
mask_errors_lem (suc n) byte clean low =
    let (agree, before) = note_error-clean _ _ n _ clean in
    elim (ℕ_discrete byte n) [
      | yes is ↦ rw is agree
      | no other ↦ mask_errors_lem n byte before (omega arith)
    ]

-- `looksLikeTailnet` of an address of 4 bytes: the range 100.64.0.0/10, and no other.
pub looks_like_tailnet_lem :
    (a b c d : ℕ)
    → b < 256
    → looks_like_tailnet (ip4 a b c d) ≡ (a == 100 && (leb 64 b && ltb b 128))
unfolding looks_like_tailnet
looks_like_tailnet_lem a b c d byte =
    ap (λ q. a == 100 && q) (mask_errors_lem 256 b mask_errors_free byte)
