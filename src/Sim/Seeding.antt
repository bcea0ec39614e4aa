-- ===== src/Sim/Seeding.antt =====
-- internal/sim/contagion.go: `SeedScattered`, `SeedCluster` and `SeedRegion`, the first adopters of a story.
-- Each returns the personas that it made adopters, in order; a `seen` map is a test, and the loop of the
-- breadth-first search runs on fuel.
pub mod Growth
pub mod Regions
use populace.Prelude.{
  ℕ, zero, suc, ◌+◌, ◌-◌, ◌*◌, ◌/◌, ◌%◌, ◌≤◌, ◌<◌, ◌≡◌, Bool, true, false, not, ◌&&◌, ◌||◌, Option,
  none, some, List, [], ◌∷◌, ◌++◌, length, get_or, ltb, leb, ◌==◌, if◌then◌else◌, assign,
  ℕ_discrete,
}
use populace.Prelude.Int.{ℤ, pos, negsuc, ltb_ℤ, ◌+ℤ◌, ◌-ℤ◌}
use populace.Prelude.Floats.{Floats}
use populace.Sim.Random.{Rng, new_rng, u32}
use populace.Sim.Contagion.{Status, unaware, adopted, is_unaware, Network, Contagion}

-- The personas of a queue that are not seen, in order and once each, join it.
unfoldable pub enqueue : (ℕ → Bool) → List ℕ → List ℕ → (ℕ → Bool) × List ℕ
enqueue seen queue [] = (seen, queue)
enqueue seen queue (u ∷ row) =
    let kept = enqueue seen queue row in
    let added = enqueue (assign ℕ_discrete seen u true) (queue ++ u ∷ []) row in
    if seen u then kept else added

-- Go's `p % n` of an integer by a positive one: it has the sign of `p`.
abbrev pub rem : ℤ → ℕ → ℤ
rem (pos p) n = pos (p % n)
rem (negsuc p) n = pos 0 -ℤ pos (suc p % n)

abbrev pub to_ℕ : ℤ → ℕ
to_ℕ (pos p) = p
to_ℕ (negsuc p) = 0

-- A negative remainder is moved up.
unfoldable pub wrap : ℕ → ℤ → ℕ
wrap n p = to_ℕ (if ltb_ℤ p (pos 0) then p +ℤ pos n else p)

-- The position at `off` of a region of `k` around the rank of its centre, among `n`.
unfoldable pub position : ℕ → ℕ → ℕ → ℕ → ℕ
position n rank k off = wrap n (rem (pos rank -ℤ pos (k / 2) +ℤ pos off) n)

module _ (fl : Floats) where
  -- A persona that is unaware adopts at the current step, and joins the list.
  unfoldable pub seed_one : Contagion fl → List ℕ → ℕ → Contagion fl × List ℕ
  seed_one c ids i =
      if is_unaware (c.state i)
      then (
        record c {
          state = assign ℕ_discrete c.state i adopted;
          adopted_at = assign ℕ_discrete c.adopted_at i (some c.step);
        },
        ids ++ i ∷ [],
      )
      else (c, ids)

  -- The loop of `SeedScattered` with so many tries left.
  unfoldable pub scatter : ℕ → Contagion fl → Rng → ℕ → List ℕ → Contagion fl × List ℕ
  scatter zero c r k ids = (c, ids)
  scatter (suc tries) c r k ids =
      let drawn = u32 r in
      let one = seed_one c ids (drawn.1 % c.n) in
      let rest = scatter tries one.0 drawn.0 k one.1 in
      if ltb (length ids) k then rest else (c, ids)

  unfoldable pub seed_scattered : Contagion fl → ℕ → ℕ → Contagion fl × List ℕ
  unfolding scatter
  seed_scattered c k seed =
      let all = scatter (20 * k + 1000) c (new_rng seed 0x11) k [] in
      if c.n == 0 then (c, []) else all

  -- The loop of `SeedCluster`; `none` when the fuel is spent.
  unfoldable pub grow :
      ℕ → Contagion fl → Network → ℕ → (ℕ → Bool) → List ℕ → List ℕ → Option (Contagion fl × List ℕ)
  grow fuel c g k seen [] ids = some (c, ids)
  grow zero c g k seen (v ∷ queue) ids = if ltb (length ids) k then none else some (c, ids)
  grow (suc fuel) c g k seen (v ∷ queue) ids =
      let one = seed_one c ids v in
      let next = enqueue seen queue (g v) in
      let rest = grow fuel one.0 g k next.0 next.1 one.1 in
      if ltb (length ids) k then rest else some (c, ids)

  -- `n` rounds of the loop are enough.
  unfoldable pub seed_cluster : Contagion fl → Network → ℕ → ℕ → Option (Contagion fl × List ℕ)
  unfolding grow
  seed_cluster c g start k =
      grow c.n c g k (assign ℕ_discrete (λ i. false) start true) (start ∷ []) []

  -- The loop of `SeedRegion` from `off` on, with so many positions left.
  unfoldable pub sweep : ℕ → ℕ → Contagion fl → List ℕ → ℕ → ℕ → List ℕ → Contagion fl × List ℕ
  sweep zero off c order rank k ids = (c, ids)
  sweep (suc left) off c order rank k ids =
      let one = seed_one c ids (get_or order (position (length order) rank k off) 0) in
      sweep left (off + 1) one.0 order rank k one.1

  -- `order` has the length `g.N`, and `rank` is `g.Rank[centre]`.
  unfoldable pub seed_region : Contagion fl → List ℕ → ℕ → ℕ → Contagion fl × List ℕ
  unfolding sweep
  seed_region c order rank k =
      let k' = if ltb (length order) k then length order else k in
      let all = sweep k' 0 c order rank k' [] in if length order == 0 then (c, []) else all
