-- ===== src/Sim/Parallel.antt =====
-- `parallel`, `numWorkers` and `parallelIdx` of internal/sim/graph.go: the ranges of indices that the goroutines are
-- given. `GOMAXPROCS` is a parameter.
use populace.Prelude.{
  ℕ, zero, suc, ◌+◌, ◌-◌, ◌/◌, ◌≤◌, ◌≡◌, inl, inr, refl, sym, ap, ◌∙◌, List, [], ◌∷◌, ◌++◌, ltb,
  leb, ◌==◌, if◌then◌else◌, Bool-cases, true, false, arith,
}
use mathlib.Core.List.{append-nil}
use populace.Sim.Graph.{slice}
use populace.Sim.Graph.Placement.{slice-add}

-- The loop over `start`.
unfoldable pub chunk_loop : ℕ → ℕ → ℕ → ℕ → List (ℕ × ℕ)
chunk_loop zero start chunk n = []
chunk_loop (suc fuel) start chunk n =
    let end = if ltb n (start + chunk) then n else start + chunk in
    let rest = chunk_loop fuel (start + chunk) chunk n in
    if ltb start n then (start, end) ∷ rest else []

-- `parallel`: the calls of `fn`.
unfoldable pub parallel : ℕ → ℕ → List (ℕ × ℕ)
unfolding chunk_loop
parallel gomaxprocs n =
    let workers = if ltb n gomaxprocs then n else gomaxprocs in
    let all = chunk_loop n 0 ((n + workers - 1) / workers) n in
    if n == 0 then [] else if leb workers 1 then (0, n) ∷ [] else all

unfoldable pub num_workers : ℕ → ℕ → ℕ
num_workers gomaxprocs n =
    let w = if ltb n gomaxprocs then n else gomaxprocs in
    if n == 0 then 0 else if ltb w 1 then 1 else w

-- `parallelIdx`: the calls of `fn`, each with its index.
unfoldable pub indexed : ℕ → List (ℕ × ℕ) → List (ℕ × ℕ × ℕ)
indexed idx [] = []
indexed idx ((lo, hi) ∷ chunks) = (idx, lo, hi) ∷ indexed (idx + 1) chunks

unfoldable pub parallel_idx : ℕ → ℕ → List (ℕ × ℕ × ℕ)
unfolding num_workers chunk_loop indexed
parallel_idx gomaxprocs n =
    let workers = num_workers gomaxprocs n in
    let all = indexed 0 (chunk_loop n 0 ((n + workers - 1) / workers) n) in
    if leb workers 1 then if ltb 0 n then (0, 0, n) ∷ [] else [] else all

-- The indices that the calls go through, one after another.
unfoldable pub indices : List (ℕ × ℕ) → List ℕ
unfolding slice
indices [] = []
indices ((lo, hi) ∷ chunks) = slice (λ p. p) lo (hi - lo) ++ indices chunks

chunk_loop-indices :
    (fuel start chunk n : ℕ)
    → 1 ≤ chunk
    → n - start ≤ fuel
    → indices (chunk_loop fuel start chunk n) ≡ slice (λ p. p) start (n - start)
unfolding chunk_loop indices slice
chunk_loop-indices zero start chunk n some_step enough =
    let none_left : n - start ≡ 0 = omega arith in rw none_left refl
chunk_loop-indices (suc fuel) start chunk n some_step enough = elim (Bool-cases (ltb start n)) [
  | inr done ↦ let none_left : n - start ≡ 0 = ground arith in rw (done, none_left) refl
  | inl more ↦
      let ih = chunk_loop-indices fuel (start + chunk) chunk n some_step (ground arith) in
      elim (Bool-cases (ltb n (start + chunk))) [
        | inl last ↦
            let none_left : n - (start + chunk) ≡ 0 = ground arith in
            let stop : slice (λ p. p) (start + chunk) (n - (start + chunk)) ≡ [] =
              rw none_left refl in
            rw (more, last, ih, stop) (append-nil (slice (λ p. p) start (n - start)))
        | inr full ↦
            let width : start + chunk - start ≡ chunk = omega arith in
            let split : n - start ≡ chunk + (n - (start + chunk)) = ground arith in
            rw (more, full, ih, width, split)
              (sym (slice-add (λ p. p) start chunk (n - (start + chunk))))
      ]
]

chunk_pos : (n workers : ℕ) → 1 ≤ n → 1 ≤ workers → 1 ≤ (n + workers - 1) / workers
chunk_pos n workers some_one some_worker = grind arith

-- However many goroutines there may be, the calls of `parallel` go through the indices below `n` from the first to
-- the last, each exactly once.
pub parallel-indices : (gomaxprocs n : ℕ) → indices (parallel gomaxprocs n) ≡ slice (λ p. p) 0 n
unfolding parallel indices slice
parallel-indices gomaxprocs n = elim (Bool-cases (n == 0)) [
  | inl empty ↦ let is : n ≡ 0 = ground arith in rw (empty, is) refl
  | inr some_one ↦
      let workers = if ltb n gomaxprocs then n else gomaxprocs in
      elim (Bool-cases (leb workers 1)) [
        | inl alone ↦
            let all : n - 0 ≡ n = omega arith in
            rw (some_one, alone, all) (append-nil (slice (λ p. p) 0 n))
        | inr many ↦
            rw (some_one, many)
              (chunk_loop-indices n 0 ((n + workers - 1) / workers) n
                  (chunk_pos n workers (ground arith) (ground arith)) (omega arith)
                ∙ ap (λ (q : ℕ). slice (λ p. p) 0 q) (omega arith))
      ]
]

-- `parallelIdx` numbers the same calls from 0 on.
unfoldable pub unindexed : List (ℕ × ℕ × ℕ) → List (ℕ × ℕ)
unindexed [] = []
unindexed ((idx, lo, hi) ∷ chunks) = (lo, hi) ∷ unindexed chunks

unindexed-indexed : (idx : ℕ) (chunks : List (ℕ × ℕ)) → unindexed (indexed idx chunks) ≡ chunks
unfolding unindexed indexed
unindexed-indexed idx [] = refl
unindexed-indexed idx ((lo, hi) ∷ chunks) =
    ap (λ rest. (lo, hi) ∷ rest) (unindexed-indexed (idx + 1) chunks)

pub parallel_idx-parallel :
    (gomaxprocs n : ℕ)
    → 1 ≤ gomaxprocs
    → unindexed (parallel_idx gomaxprocs n) ≡ parallel gomaxprocs n
unfolding parallel_idx parallel num_workers unindexed
parallel_idx-parallel gomaxprocs n some_worker = elim (Bool-cases (n == 0)) [
  | inl empty ↦ let is : n ≡ 0 = ground arith in rw (empty, is) refl
  | inr some_one ↦
      let least : ltb (if ltb n gomaxprocs then n else gomaxprocs) 1 ≡ false = ground arith in
      elim (Bool-cases (leb (if ltb n gomaxprocs then n else gomaxprocs) 1)) [
        | inl alone ↦
            let more : ltb 0 n ≡ true = ground arith in rw (some_one, least, alone, more) refl
        | inr many ↦ rw (some_one, least, many) (unindexed-indexed 0 _)
      ]
]
