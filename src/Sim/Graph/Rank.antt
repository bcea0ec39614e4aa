-- ===== src/Sim/Graph/Rank.antt =====
-- The counting sorts of internal/sim/graph.go: `spatialRank`, `rankToOrder` and `bucketByArchetype`. Arrays are
-- functions of the index, and a loop over the personas is a recursion on how many it has seen.
pub mod Counting
pub mod Pigeonhole
pub mod Order
pub mod Archetypes
use populace.Prelude.{ℕ, zero, suc, ◌+◌, ◌*◌, ◌≡◌, ltb, if◌then◌else◌, assign, ℕ_discrete}
use populace.Prelude.Int.{ℤ, pos, negsuc, ltb_ℤ}
use populace.Prelude.Floats.{Floats}
use populace.Sim.Graph.{offset, Slots, place, back}

unfoldable pub clamp : ℤ → ℤ → ℤ → ℤ
clamp v lo hi = if ltb_ℤ v lo then lo else if ltb_ℤ hi v then hi else v

module _ (fl : Floats) where
  open fl use {Float, of_ℕ, ratio, add, mul, div, pi, trunc}

  -- The cell of a position, in 2048 columns of longitude and 1024 rows of latitude.
  unfoldable pub column : Float → ℤ
  unfolding clamp
  column lon =
      clamp (trunc (mul (mul (add (div lon pi) (of_ℕ 1)) (ratio 1 2)) (of_ℕ 2048))) (pos 0)
        (pos 2047)

  unfoldable pub line : Float → ℤ
  unfolding clamp
  line lat =
      clamp (trunc (mul (mul (add (div lat (div pi (of_ℕ 2))) (of_ℕ 1)) (ratio 1 2)) (of_ℕ 1024)))
        (pos 0) (pos 1023)

abbrev pub to_index : ℤ → ℕ
to_index (pos p) = p
to_index (negsuc p) = 0

module _ (fl : Floats) where
  unfoldable pub cell_of : fl.Float → fl.Float → ℕ
  unfolding column line
  cell_of lon lat = to_index (line fl lat) * 2048 + to_index (column fl lon)

-- `counts[c]++` over the personas below `n`.
unfoldable pub tally : ℕ → (ℕ → ℕ) → ℕ → ℕ
tally zero cell = λ c. 0
tally (suc i) cell =
    let counts = tally i cell in assign ℕ_discrete counts (cell i) (counts (cell i) + 1)

-- The ranks and the next free rank of each cell.
pub record Ranks : Type 0 where
  pub rank : ℕ → ℕ
  pub counts : ℕ → ℕ

unfoldable pub rank_upto : ℕ → (ℕ → ℕ) → (ℕ → ℕ) → Ranks
rank_upto zero cell starts = record { rank = λ i. 0; counts = starts }
rank_upto (suc i) cell starts =
    let s = rank_upto i cell starts in
    record {
      rank = assign ℕ_discrete s.rank i (s.counts (cell i));
      counts = assign ℕ_discrete s.counts (cell i) (s.counts (cell i) + 1);
    }

-- `spatialRank`, from the cells.
unfoldable pub spatial_rank : ℕ → (ℕ → ℕ) → ℕ → ℕ
unfolding tally offset rank_upto
spatial_rank n cell = (rank_upto n cell (offset (tally n cell))).rank

-- `rankToOrder`.
unfoldable pub rank_to_order : ℕ → (ℕ → ℕ) → ℕ → ℕ
rank_to_order zero rank = λ p. 0
rank_to_order (suc i) rank = assign ℕ_discrete (rank_to_order i rank) (rank i) i

-- The last loop of `bucketByArchetype`.
unfoldable pub deal : ℕ → (ℕ → ℕ) → Slots → Slots
unfolding place
deal zero arch s = s
deal (suc i) arch s = place (deal i arch s) (back i (arch i))

-- `bucketByArchetype`: where each bucket starts, and the members in their order.
pub record Buckets : Type 0 where
  pub off : ℕ → ℕ
  pub members : ℕ → ℕ

unfoldable pub bucket_by_archetype : ℕ → (ℕ → ℕ) → Buckets
unfolding tally offset deal
bucket_by_archetype n arch =
    let off = offset (tally n arch) in
    record { off = off; members = (deal n arch (record { cur = off; adj = λ p. 0 })).adj }
