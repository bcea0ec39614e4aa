-- ===== src/Llm/Tests.antt =====
-- The theorems on the client of the model at concrete inputs.
use populace.Prelude.{ℕ, zero, suc, ◌≤◌, ◌≡◌, false, none, some, List, [], ◌∷◌, refl}
use populace.Prelude.Int.{ℤ, pos}
use populace.Llm.{Attempt, Result, response, answered, complete}
use populace.Llm.Retries.{WentOn, EndsAt, complete_lem}

-- Busy, busy with a time to wait, and then an answer.
abbrev tries : ℕ → Attempt ℕ
tries zero = answered 503 none none
tries (suc zero) = answered 503 (some (pos 7)) none
tries (suc (suc k)) = answered 200 none (some 42)

answer : complete 6 tries (λ k. false) ≡ some (response 42, pos 1 ∷ pos 7 ∷ [])
unfolding complete
answer = refl

complete_lem_example :
    (r : Result ℕ) × ((waits : List ℤ) × ((k : ℕ) × (complete 6 tries (λ k. false)
          ≡ some (r, waits))
        × (k ≤ 6)
        × WentOn 6 tries (λ k. false) k
        × EndsAt 6 tries (λ k. false) k r waits))
complete_lem_example = complete_lem 6 tries (λ k. false)
