-- ===== src/Sim/Graph/Proposals.antt =====
-- internal/sim/graph.go: how many ties a persona proposes, and to whom: `proposals`, `hubPool` and the loop over the
-- degrees in `BuildGraph`, over floats as parameter.
pub mod Validity
use populace.Prelude.{
  ℕ, zero, suc, ◌+◌, ◌-◌, ◌*◌, ◌/◌, ◌%◌, ◌≡◌, Bool, List, [], ◌∷◌, ◌++◌, length, get_or, ltb, ◌==◌,
  if◌then◌else◌,
}
use populace.Prelude.Int.{ℤ, pos, negsuc, ltb_ℤ, ◌+ℤ◌, ◌-ℤ◌}
use populace.Prelude.Floats.{Floats}
use Prim.Native.Nat.{bit_xor}
use populace.Sim.Random.{u64, Rng, new_rng, u32, f64, norm}
use populace.Sim.Seeding.{rem, to_ℕ, wrap}
use populace.Sim.Graph.{slice}
use populace.Sim.Graph.Rank.{spatial_rank, rank_to_order, bucket_by_archetype}
use populace.World.{Stratum}

module _ (fl : Floats) where
  open fl use {Float, of_ℕ, ratio, add, sub, mul, div, lt, exp, log, trunc}

  pub record GraphConfig : Type 0 where
    pub prop_geo : Float
    pub prop_homophily : Float
    pub mean_degree : Float
    pub sigma_log : Float
    pub broadcast : Stratum → Float
    pub max_degree : ℕ
    pub seed : ℕ

  unfoldable pub default_graph_config : GraphConfig
  default_graph_config = record {
    prop_geo = ratio 55 100;
    prop_homophily = ratio 30 100;
    mean_degree = of_ℕ 7;
    sigma_log = ratio 8 10;
    broadcast = λ s. elim s [
      | Stratum.general ↦ of_ℕ 1
      | Stratum.nomadic ↦ ratio 7 10
      | Stratum.immigrant ↦ ratio 11 10
      | Stratum.high_net_worth ↦ of_ℕ 4
      | Stratum.media ↦ of_ℕ 40
    ];
    max_degree = 20000;
    seed = 0x50505541;
  }

  -- `ki`, between 1 and the maximum.
  unfoldable pub cap_degree : ℕ → ℤ → ℕ
  cap_degree max_degree ki =
      let k = if ltb_ℤ ki (pos 1) then pos 1 else ki in
      to_ℕ (if ltb_ℤ (pos max_degree) k then pos max_degree else k)

  -- `kdeg[i]`, from the stratum of the persona and the reach of its archetype.
  unfoldable pub degree_of : GraphConfig → (ℕ → Stratum) → (ℕ → Float) → ℕ → ℕ
  unfolding cap_degree
  degree_of cfg strat reach i =
      let mu = sub (log cfg.mean_degree) (div (mul cfg.sigma_log cfg.sigma_log) (of_ℕ 2)) in
      let drawn = norm fl (new_rng (bit_xor cfg.seed 0xD1B54A32D192ED03) i) in
      let k =
        mul (mul (exp (add mu (mul cfg.sigma_log drawn.1))) (cfg.broadcast (strat i))) (reach i) in
      cap_degree cfg.max_degree (trunc (add k (ratio 1 2)))

  -- The inner loop of `hubPool`, with room for so many: the new `next`, and the pool.
  unfoldable pub fill : ℕ → Float → Float → Float → ℕ → List ℕ → Float × List ℕ
  fill zero acc next step i pool = (next, pool)
  fill (suc room) acc next step i pool =
      let rest = fill room acc (add next step) step i (pool ++ i ∷ []) in
      if lt next acc then rest else (next, pool)

  -- The outer loop, from persona `i` on.
  unfoldable pub collect : ℕ → Float → Float → Float → ℕ → List ℕ → List ℕ → List ℕ
  unfolding fill
  collect m acc next step i pool [] = pool
  collect m acc next step i pool (d ∷ deg) =
      let acc' = add acc (of_ℕ d) in
      let (next', pool') = fill (m - length pool) acc' next step i pool in
      collect m acc' next' step (i + 1) pool' deg

  unfoldable pub float_sum : Float → List ℕ → Float
  float_sum total [] = total
  float_sum total (d ∷ deg) = float_sum (add total (of_ℕ d)) deg

  unfoldable pub hub_pool : List ℕ → ℕ → List ℕ
  unfolding collect float_sum
  hub_pool deg seed =
      let m = if ltb (length deg) 1048576 then length deg else 1048576 in
      let step = div (float_sum (of_ℕ 0) deg) (of_ℕ m) in
      let first = f64 fl (new_rng seed 0xB1) in
      let pool = collect m (of_ℕ 0) (mul first.1 step) step 0 [] deg in
      if length pool == 0 then 0 ∷ [] else pool

  pub record Builder : Type 0 where
    pub n : ℕ
    pub cfg : GraphConfig
    pub arch : ℕ → ℕ
    pub rank : ℕ → ℕ
    pub order : ℕ → ℕ
    pub arch_off : ℕ → ℕ
    pub arch_members : ℕ → ℕ
    pub hubs : List ℕ
    pub kdeg : ℕ → ℕ

  -- A tie to someone near by, at a distance along the order of places.
  unfoldable pub near : Builder → ℕ → Rng → Rng × ℕ
  near b i r =
      let far = f64 fl r in
      let d = trunc (exp (mul far.1 (log (of_ℕ b.n)))) +ℤ pos 1 in
      let side = u32 far.0 in
      let d' = if side.1 % 2 == 0 then pos 0 -ℤ d else d in
      (side.0, b.order (wrap b.n (rem (pos (b.rank i) +ℤ d') b.n)))

  -- A tie to someone of the same archetype.
  unfoldable pub alike : Builder → ℕ → Rng → Rng × ℕ
  alike b i r =
      let lo = b.arch_off (b.arch i) in
      let hi = b.arch_off (b.arch i + 1) in
      let w = u32 r in (w.0, if ltb lo hi then b.arch_members (lo + w.1 % (hi - lo)) else w.1 % b.n)

  -- A tie to a hub.
  unfoldable pub hub : Builder → Rng → Rng × ℕ
  hub b r = let w = u32 r in (w.0, get_or b.hubs (w.1 % length b.hubs) 0)

  -- One candidate of persona `i`.
  unfoldable pub candidate : Builder → ℕ → Rng → Rng × ℕ
  candidate b i r =
      let (r', u) = f64 fl r in
      if lt u b.cfg.prop_geo
      then near b i r'
      else if lt u (add b.cfg.prop_geo b.cfg.prop_homophily)
      then alike b i r'
      else hub b r'

  unfoldable pub propose : ℕ → Builder → ℕ → Rng → List ℕ → List ℕ
  propose zero b i r out = out
  propose (suc left) b i r out =
      let (r', j) = candidate b i r in propose left b i r' (if j == i then out else out ++ j ∷ [])

  unfoldable pub proposals : Builder → ℕ → List ℕ
  unfolding propose
  proposals b i = propose (b.kdeg i) b i (new_rng b.cfg.seed i) []

  -- What `BuildGraph` draws its proposals from: the cells and the archetypes of the population.
  unfoldable pub new_builder :
      ℕ → GraphConfig → (ℕ → ℕ) → (ℕ → ℕ) → (ℕ → Stratum) → (ℕ → Float) → Builder
  unfolding degree_of spatial_rank rank_to_order bucket_by_archetype hub_pool slice
  new_builder n cfg cell arch strat reach =
      let kdeg = degree_of cfg strat reach in
      let rank = spatial_rank n cell in
      let b = bucket_by_archetype n arch in
      record {
        n = n;
        cfg = cfg;
        arch = arch;
        rank = rank;
        order = rank_to_order n rank;
        arch_off = b.off;
        arch_members = b.members;
        hubs = hub_pool (slice kdeg 0 n) cfg.seed;
        kdeg = kdeg;
      }
