-- ===== src/Sim/Core/Covered.antt =====
-- How many personas `ApplyReactions` of internal/sim/reactions.go reports.
use populace.Prelude.{
  ℕ, zero, suc, ◌+◌, ◌-◌, ◌≤◌, ◌≡◌, refl, ap, ◌∙◌, Bool, Bool-cases, inl, inr, List, [], ◌∷◌, ◌++◌,
  lt→ltb, if◌then◌else◌, arith,
}
use populace.Prelude.Floats.{Floats}
use populace.Sim.Graph.{slice}
use populace.Sim.Graph.Placement.{slice-add}
use populace.Sim.Parallel.{
  indices, parallel_idx, unindexed, parallel-indices, parallel_idx-parallel,
}
use populace.Sim.Contagion.{count_below}
use populace.Sim.Seeding.Growth.{count_below-ext}
use populace.Sim.Core.{Sim}
use populace.Sim.Core.Reactions.{
  Reactions, count_chunk, count_chunks, reacts, reaction_of, apply_reactions,
}

-- How many of a list pass the test.
count_all : (ℕ → Bool) → List ℕ → ℕ
count_all p [] = 0
count_all p (i ∷ is) = (if p i then 1 else 0) + count_all p is

count_all-append :
    (p : ℕ → Bool) (is js : List ℕ) → count_all p (is ++ js) ≡ count_all p is + count_all p js
unfolding count_all
count_all-append p [] js = omega arith
count_all-append p (i ∷ is) js = omega (arith, count_all-append p is js)

count_chunk_lem :
    (p : ℕ → Bool) (lo k n : ℕ) → count_chunk p lo k n ≡ n + count_all p (slice (λ i. i) lo k)
unfolding count_chunk count_all slice
count_chunk_lem p lo zero n = omega arith
count_chunk_lem p lo (suc k) n = elim (Bool-cases (p lo)) [
  | inl on ↦ rw on omega (arith, count_chunk_lem p (lo + 1) k (n + 1))
  | inr off ↦ rw off omega (arith, count_chunk_lem p (lo + 1) k n)
]

count_chunks_lem :
    (p : ℕ → Bool) (chunks : List (ℕ × ℕ × ℕ))
    → count_chunks p chunks ≡ count_all p (indices (unindexed chunks))
unfolding count_chunks count_all indices unindexed
count_chunks_lem p [] = refl
count_chunks_lem p ((c, lo, hi) ∷ chunks) = omega (
  arith,
  count_chunk_lem p lo (hi - lo) 0,
  count_chunks_lem p chunks,
  count_all-append p (slice (λ i. i) lo (hi - lo)) (indices (unindexed chunks)),
)

count_all-last :
    (p : ℕ → Bool) (n : ℕ)
    → count_all p (slice (λ i. i) 0 (suc n))
      ≡ count_all p (slice (λ i. i) 0 n) + (if p n then 1 else 0)
unfolding count_all slice
count_all-last p n =
    let more : suc n ≡ n + 1 = omega arith in
    let last : 0 + n ≡ n = omega arith in
    ap (λ k. count_all p (slice (λ i. i) 0 k)) more
    ∙ ap (count_all p) (slice-add (λ i. i) 0 n 1)
    ∙ count_all-append p (slice (λ i. i) 0 n) (slice (λ i. i) (0 + n) 1)
    ∙ ap (λ k. count_all p (slice (λ i. i) 0 n) + ((if p k then 1 else 0) + 0)) last
    ∙ omega arith

count_below-slice : (p : ℕ → Bool) (n : ℕ) → count_all p (slice (λ i. i) 0 n) ≡ count_below n p
unfolding count_below count_all slice
count_below-slice p zero = refl
count_below-slice p (suc n) = count_all-last p n ∙ elim (Bool-cases (p n)) [
  | inl on ↦ rw on omega (arith, count_below-slice p n)
  | inr off ↦ rw off omega (arith, count_below-slice p n)
]

module _ (fl : Floats) {Chat : Type 0} where
  -- However many goroutines there are, `ApplyReactions` reports as many personas as there are whose archetype has a
  -- reaction.
  pub apply_reactions-count :
      (gomaxprocs size : ℕ) (s : Sim fl Chat) (rx : Reactions fl) (weight : fl.Float)
      → 1 ≤ gomaxprocs
      → (apply_reactions fl gomaxprocs size s rx weight).2
        ≡ count_below s.w.n (λ i. reacts fl (rx (s.w.arch i)))
  unfolding apply_reactions
  apply_reactions-count gomaxprocs size s rx weight some_worker =
      let p : ℕ → Bool = λ i. reacts fl (reaction_of fl s rx i) in
      count_chunks_lem p (parallel_idx gomaxprocs s.w.n)
      ∙ ap (λ chunks. count_all p (indices chunks))
          (parallel_idx-parallel gomaxprocs s.w.n some_worker)
      ∙ ap (count_all p) (parallel-indices gomaxprocs s.w.n)
      ∙ count_below-slice p s.w.n
      ∙ count_below-ext s.w.n (λ i. reacts fl (rx (s.w.arch i))) p
          (λ i below. rw (lt→ltb i s.w.n below) refl)
