-- ===== src/Sim/Graph.antt =====
-- internal/sim/graph.go: `BuildGraph` from the ties that each node proposes. Arrays are functions of the index. A
-- pass over the nodes runs in goroutines: it is a merge of the nodes' programs, whose steps are the operations on
-- the atomic counters, each with the writes to the slots that it has claimed.
pub mod Sorting
pub mod Placement
pub mod Schedules
pub mod Sequence
pub mod Neighbours
pub mod Rank
pub mod Proposals
pub mod Population
pub mod Degrees
use populace.Prelude.{
  ℕ, zero, suc, ◌+◌, ◌-◌, ◌/◌, ◌≤◌, ◌<◌, ◌≡◌, Bool, true, false, Option, none, some, List, [], ◌∷◌,
  ◌++◌, reverse, map, length, ltb, ◌==◌, if◌then◌else◌, assign, ℕ_discrete,
}

-- The inner loop of `insertionSort`, on the sorted front with its end first.
unfoldable pub shift : ℕ → List ℕ → List ℕ
shift v [] = v ∷ []
shift v (w ∷ front) = let rest = shift v front in if ltb v w then w ∷ rest else v ∷ w ∷ front

unfoldable pub insert_all : List ℕ → List ℕ → List ℕ
insert_all front [] = front
insert_all front (v ∷ a) = insert_all (shift v front) a

-- `insertionSort`; `slices.Sort`, for the longer rows, gives the same arrangement.
unfoldable pub insertion_sort : List ℕ → List ℕ
unfolding insert_all
insertion_sort a = reverse (insert_all [] a)

-- The loop that keeps `v` unless it is the node itself or was just kept, from the last one kept on.
unfoldable pub dedup : ℕ → Option ℕ → List ℕ → List ℕ
dedup self last [] = []
dedup self last (v ∷ row) =
    let skipped = dedup self last row in
    let kept = v ∷ dedup self (some v) row in
    if v == self
    then skipped
    else elim last [ none ↦ kept | some w ↦ if w == v then skipped else kept ]

-- What a node does to the shared arrays: it claims its own row's slots for its proposals, and a slot of another
-- row for itself.
pub data Event : Type 0 where
  own : ℕ → List ℕ → Event
  back : ℕ → ℕ → Event

-- The program of node `i` in either pass.
unfoldable pub program : (ℕ → List ℕ) → ℕ → List Event
program proposals i = own i (proposals i) ∷ map (λ j. back i j) (proposals i)

-- An order in which the programs of the nodes can run.
pub data Merge : (ℕ → List Event) → List Event → Type 0 where
  over : {threads : ℕ → List Event} → ((i : ℕ) → threads i ≡ []) → Merge threads []
  next :
      {threads : ℕ → List Event} {es : List Event} (i : ℕ) (e : Event) (rest : List Event)
      → threads i ≡ e ∷ rest
      → Merge (assign ℕ_discrete threads i rest) es
      → Merge threads (e ∷ es)

-- Pass 1: the `AddInt32` of an event on `cap32`.
unfoldable pub add_cap : (ℕ → ℕ) → Event → ℕ → ℕ
add_cap cap (own i row) = assign ℕ_discrete cap i (cap i + length row)
add_cap cap (back i j) = assign ℕ_discrete cap j (cap j + 1)

unfoldable pub count_pass : (ℕ → ℕ) → List Event → ℕ → ℕ
unfolding add_cap
count_pass cap [] = cap
count_pass cap (e ∷ es) = count_pass (add_cap cap e) es

-- The prefix sum: `Off[i]`.
unfoldable pub offset : (ℕ → ℕ) → ℕ → ℕ
offset cap zero = 0
offset cap (suc i) = offset cap i + cap i

-- The arrays of pass 2.
pub record Slots : Type 0 where
  pub cur : ℕ → ℕ
  pub adj : ℕ → ℕ

-- The loop that writes a row from a slot on.
unfoldable pub write_row : (ℕ → ℕ) → ℕ → List ℕ → ℕ → ℕ
write_row adj base [] = adj
write_row adj base (j ∷ row) = write_row (assign ℕ_discrete adj base j) (base + 1) row

unfoldable pub place : Slots → Event → Slots
unfolding write_row
place s (own i row) = record {
  cur = assign ℕ_discrete s.cur i (s.cur i + length row);
  adj = write_row s.adj (s.cur i) row;
}
place s (back i j) = record {
  cur = assign ℕ_discrete s.cur j (s.cur j + 1);
  adj = assign ℕ_discrete s.adj (s.cur j) i;
}

unfoldable pub place_pass : Slots → List Event → Slots
unfolding place
place_pass s [] = s
place_pass s (e ∷ es) = place_pass (place s e) es

-- `a[lo : lo + n]`.
unfoldable pub slice : (ℕ → ℕ) → ℕ → ℕ → List ℕ
slice a lo zero = []
slice a lo (suc n) = a lo ∷ slice a (lo + 1) n

pub record Graph : Type 0 where
  pub n : ℕ
  pub off : ℕ → ℕ
  pub row : ℕ → List ℕ
  pub edges : ℕ

-- The entries of all rows.
unfoldable pub total_degree : ℕ → (ℕ → List ℕ) → ℕ
total_degree zero row = 0
total_degree (suc n) row = total_degree n row + length (row n)

-- `BuildGraph` from the orders of its two passes: `row i` is `Adj[Off[i]:End[i]]`, what sorting and deduplication
-- leave of the slots of node `i`.
unfoldable pub build : ℕ → List Event → List Event → Graph
unfolding count_pass offset place_pass slice insertion_sort dedup total_degree
build n counting placing =
    let cap = count_pass (λ i. 0) counting in
    let off = offset cap in
    let placed = place_pass (record { cur = off; adj = λ p. 0 }) placing in
    let row =
      λ (i : ℕ). dedup i none (insertion_sort (slice placed.adj (off i) (off (i + 1) - off i))) in
    record { n = n; off = off; row = row; edges = total_degree n row / 2 }
