-- ===== src/Sim/Core/Stories.antt =====
-- internal/sim/sim.go: the story that breaks, `Event`, who carries it, `denseStart`, and its seeding.
use Prim.Native.Nat.{bit_xor}
use populace.Prelude.{
  ℕ, zero, suc, ◌+◌, ◌%◌, Bool, true, Option, none, some, List, [], ◌∷◌, length, ltb, if◌then◌else◌,
}
use populace.Prelude.Int.{ℤ, pos, negsuc}
use populace.Prelude.Floats.{Floats}
use populace.World.{Stratum, World, is_media}
use populace.Sim.Random.{Rng, new_rng, u32, f64}
use populace.Sim.Contagion.{Contagion, Network}
use populace.Sim.Seeding.{seed_scattered, seed_cluster, seed_region}

pub data Seeding : Type 0 where
  in_region in_network everywhere : Seeding

module _ (fl : Floats) where
  open fl use {Float, of_ℕ, ratio, add, sub, mul, div, lt, le, eq}

  pub record Event : Type 0 where
    pub stance : Float
    pub salience : Float
    pub seeding : Seeding
    pub seed_size : ℤ
    pub seed : ℕ
    pub difficulty : Float
    -- `HasHour` and `Hour`
    pub hour : Option Float

  -- The media personas among the `left` from `i` on that cover the event.
  unfoldable pub carriers : ℕ → ℕ → (ℕ → Stratum) → Float → Rng → List ℕ
  carriers zero i strat salience r = []
  carriers (suc left) i strat salience r =
      let (r', u) = f64 fl r in
      let skip = carriers left (i + 1) strat salience r in
      let rest = carriers left (i + 1) strat salience r' in
      if is_media (strat i) then if lt u salience then i ∷ rest else rest else skip

  -- `d > bestDeg`, with `none` for -1.
  unfoldable pub denser : Network → ℕ → Option ℕ → Bool
  denser g i none = true
  denser g i (some d) = ltb d (length (g i))

  -- The loop of `denseStart`: the best so far, with its degree if there is one.
  unfoldable pub densest : ℕ → Rng → ℕ → (ℕ → Stratum) → Network → ℕ → Option ℕ → ℕ
  unfolding denser
  densest zero r n strat g best deg = best
  densest (suc left) r n strat g best deg =
      let (r', x) = u32 r in
      let i = x % n in
      let same = densest left r' n strat g best deg in
      let better = densest left r' n strat g i (some (length (g i))) in
      if is_media (strat i) then same else if denser g i deg then better else same

  unfoldable pub dense_start : World Float → Network → ℕ → ℕ
  unfolding densest u32
  dense_start w g seed = densest 64 (new_rng (bit_xor seed 0xD3D3) 0) w.n w.strat g 0 none

  -- `size`.
  unfoldable pub size_of : ℤ → ℕ
  size_of (pos zero) = 64
  size_of (pos (suc k)) = suc k
  size_of (negsuc k) = 64

  -- The seeding of an event: the contagion and the ids; `none` when the fuel of `SeedCluster` is spent.
  unfoldable pub seed_by :
      Seeding
      → World Float
      → Network
      → List ℕ
      → (ℕ → ℕ)
      → Contagion fl
      → ℕ
      → ℕ
      → Option (Contagion fl × List ℕ)
  unfolding dense_start u32
  seed_by everywhere w g order rank c seed size = some (seed_scattered fl c size seed)
  seed_by in_network w g order rank c seed size = seed_cluster fl c g (dense_start w g seed) size
  seed_by in_region w g order rank c seed size =
      some (seed_region fl c order (rank ((u32 (new_rng (bit_xor seed 0x9111) 1)).1 % w.n)) size)

  unfoldable pub seeded :
      World Float
      → Network
      → List ℕ
      → (ℕ → ℕ)
      → Contagion fl
      → Event
      → Option (Contagion fl × List ℕ)
  unfolding seed_by size_of
  seeded w g order rank c ev = seed_by ev.seeding w g order rank c ev.seed (size_of ev.seed_size)
