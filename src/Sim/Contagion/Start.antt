-- ===== src/Sim/Contagion/Start.antt =====
-- `NewContagion`, `Reach` and `FeedShare` of internal/sim/contagion.go, over the floats that are given. Before
-- its first round a contagion has no `FeedDriven`, and `FeedShare` is 0; the model has it all false, and divides
-- the weight of no one by that of the adopters.
use populace.Prelude.{ℕ, zero, suc, refl, Bool, true, false, not, ◌&&◌, none, if◌then◌else◌}
use populace.Prelude.Int.{ℤ, pos}
use populace.Prelude.Floats.{Floats}
use populace.World.{World, is_media}
use populace.Sim.Random.{norm, new_rng}
use populace.Sim.Contagion.{unaware, is_unaware, Contagion}
use populace.Sim.Contagion.Timing.{IsTimed}

module _ (fl : Floats) where
  open fl use {Float, of_ℕ, ratio, neg, add, sub, mul, div, eq, exp, log, sqrt, cos, pi}

  -- `clampF`.
  unfoldable pub clamp_f : Float → Float → Float → Float
  clamp_f v lo hi = fl.max lo (fl.min hi v)

  pub record ContagionConfig : Type 0 where
    pub mean_threshold : Float
    pub spread_log : Float
    pub min_reinforce : ℤ
    pub transmit_for : ℤ
    pub seed : ℕ

  -- `DefaultContagionConfig`.
  abbrev pub default_contagion_config : ContagionConfig
  default_contagion_config = record {
    mean_threshold = ratio 18 100;
    spread_log = ratio 55 100;
    min_reinforce = pos 2;
    transmit_for = pos 3;
    seed = 0x5EED;
  }

  -- The threshold that is drawn for a persona.
  unfoldable pub threshold_of : World Float → ContagionConfig → ℕ → Float
  unfolding norm clamp_f
  threshold_of w cfg i =
      let mu = sub (log cfg.mean_threshold) (div (mul cfg.spread_log cfg.spread_log) (of_ℕ 2)) in
      let t = exp (add mu (mul cfg.spread_log (norm fl (new_rng cfg.seed i)).1)) in
      clamp_f (if is_media (w.strat i) then mul t (ratio 35 100) else t) (ratio 1 100) (of_ℕ 1)

  unfoldable pub new_contagion : World Float → ContagionConfig → Contagion fl
  unfolding threshold_of
  new_contagion w cfg = record {
    n = w.n;
    state = λ i. unaware;
    threshold = threshold_of w cfg;
    adopted_at = λ i. none;
    step = 0;
    min_reinforce = cfg.min_reinforce;
    transmit_for = cfg.transmit_for;
    threshold_scale = of_ℕ 1;
    simple = false;
    beta = of_ℕ 0;
    feed_driven = λ i. false;
    seed = cfg.seed;
    base_threshold = threshold_of w cfg;
  }

  -- Every run begins from a state whose `AdoptedAt` fit its statuses.
  pub new_contagion-IsTimed :
      (w : World Float) (cfg : ContagionConfig) → IsTimed fl (new_contagion w cfg)
  unfolding new_contagion
  new_contagion-IsTimed w cfg i = refl

  -- The sum of the weights of the personas below `n` that pass the test, in their order.
  unfoldable pub weighed : ℕ → (ℕ → Bool) → World Float → Float
  weighed zero p w = of_ℕ 0
  weighed (suc n) p w = let sum = weighed n p w in if p n then add sum (w.weight n) else sum

  unfoldable pub share : Float → Float → Float
  share num den = if eq den (of_ℕ 0) then of_ℕ 0 else div num den

  -- `Reach`.
  unfoldable pub reach : Contagion fl → World Float → Float
  unfolding weighed share
  reach c w = share (weighed w.n (λ i. not (is_unaware (c.state i))) w) (weighed w.n (λ i. true) w)

  -- `FeedShare`.
  unfoldable pub feed_share : Contagion fl → World Float → Float
  unfolding weighed share
  feed_share c w =
      share (weighed w.n (λ i. not (is_unaware (c.state i)) && c.feed_driven i) w)
        (weighed w.n (λ i. not (is_unaware (c.state i))) w)
