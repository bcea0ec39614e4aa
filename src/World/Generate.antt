-- ===== src/World/Generate.antt =====
-- internal/world/world.go: `Generate`, `WeightedMean` and `StratumCounts`.
use populace.Prelude.{
  ℕ, zero, suc, ◌%◌, Option, none, some, List, [], ◌∷◌, if◌then◌else◌, assign, ℕ_discrete,
}
use populace.Prelude.Decimals.{value}
use populace.Prelude.Floats.{Floats}
use populace.Sim.Contagion.{count_below}
use populace.World.{
  Stratum, general, nomadic, immigrant, high_net_worth, media, strata, weight_of, World,
}
use populace.World.Stream.{Rand, new_rand, f64}
use populace.World.Positions.{Position, sample_position}
use populace.World.Archetypes.{make_archetype, pick_role, same_stratum}

module _ (fl : Floats) where
  open fl use {Float, of_ℕ, add, mul, div, le, eq}

  -- The loop that finds the stratum, with `acc` the share of the strata before; the general one if none is found.
  unfoldable pub find_stratum : Float → Float → List Stratum → Stratum
  unfolding strata value
  find_stratum p acc [] = general
  find_stratum p acc (s ∷ ss) =
      let acc' = add acc (value fl (strata s).sample_frac) in
      let rest = find_stratum p acc' ss in if le p acc' then s else rest

  unfoldable pub total_share : Float → List Stratum → Float
  unfolding strata value
  total_share acc [] = acc
  total_share acc (s ∷ ss) = total_share (add acc (value fl (strata s).sample_frac)) ss

  abbrev all_strata : List Stratum
  all_strata = general ∷ nomadic ∷ immigrant ∷ high_net_worth ∷ media ∷ []

  -- What the arrays hold of one persona.
  pub record Persona : Type 0 where
    pub strat : Stratum
    pub weight : Float
    pub lon : Float
    pub lat : Float
    pub place : ℕ
    pub urbanity : Float
    pub arch : ℕ
    pub palette : ℕ
    pub shape : ℕ

  -- From the position on: the role, and what follows from it.
  unfoldable pub settle : Stratum → Option (Rand × Position fl) → Option Persona
  unfolding weight_of pick_role make_archetype
  settle st none = none
  settle st (some (r, pos)) =
      let role = (pick_role fl r st pos.region pos.urbanity).1 in
      let arch = make_archetype pos.region role % 65536 in
      some (record {
        strat = st;
        weight = weight_of fl st;
        lon = div (mul pos.lon fl.pi) (of_ℕ 180);
        lat = div (mul pos.lat fl.pi) (of_ℕ 180);
        place = pos.place;
        urbanity = pos.urbanity;
        arch = arch;
        palette = arch % 1024;
        shape = role % 8;
      })

  -- The body of the loop of `Generate`.
  unfoldable pub persona : ℕ → ℕ → Option Persona
  unfolding find_stratum total_share settle sample_position
  persona seed i =
      let (r, u) = f64 fl (new_rand seed i) in
      let st = find_stratum (mul u (total_share (of_ℕ 0) all_strata)) (of_ℕ 0) all_strata in
      settle st (sample_position fl r st)

  -- The writes of a round; `none` if an index has been out of range.
  unfoldable pub write_persona : ℕ → Option Persona → Option (World Float) → Option (World Float)
  write_persona i (some p) (some w) = some (record w {
    strat = assign ℕ_discrete w.strat i p.strat;
    weight = assign ℕ_discrete w.weight i p.weight;
    lon = assign ℕ_discrete w.lon i p.lon;
    lat = assign ℕ_discrete w.lat i p.lat;
    place = assign ℕ_discrete w.place i p.place;
    urbanity = assign ℕ_discrete w.urbanity i p.urbanity;
    arch = assign ℕ_discrete w.arch i p.arch;
    palette = assign ℕ_discrete w.palette i p.palette;
    shape = assign ℕ_discrete w.shape i p.shape;
  })
  write_persona i _ _ = none

  -- The loop of `Generate`, after so many rounds.
  unfoldable pub generate_upto : ℕ → ℕ → World Float → Option (World Float)
  unfolding persona write_persona
  generate_upto zero seed w = some w
  generate_upto (suc i) seed w = write_persona i (persona seed i) (generate_upto i seed w)

  -- The arrays that `Generate` makes.
  abbrev empty_world : ℕ → ℕ → World Float
  empty_world n seed = record {
    n = n;
    seed = seed;
    lon = λ i. of_ℕ 0;
    lat = λ i. of_ℕ 0;
    arch = λ i. 0;
    palette = λ i. 0;
    shape = λ i. 0;
    strat = λ i. general;
    weight = λ i. of_ℕ 0;
    place = λ i. 0;
    urbanity = λ i. of_ℕ 0;
    flags = λ i. 0;
  }

  unfoldable pub generate : ℕ → ℕ → Option (World Float)
  unfolding generate_upto
  generate n seed = generate_upto n seed (empty_world n seed)

  -- `WeightedMean`, and its two sums over the personas below `i`.
  unfoldable pub weighted_sums : ℕ → World Float → (ℕ → Float) → Float × Float
  weighted_sums zero w f = (of_ℕ 0, of_ℕ 0)
  weighted_sums (suc i) w f =
      let (num, den) = weighted_sums i w f in
      (add num (mul (w.weight i) (f i)), add den (w.weight i))

  unfoldable pub weighted_mean : World Float → (ℕ → Float) → Float
  unfolding weighted_sums
  weighted_mean w f =
      let (num, den) = weighted_sums w.n w f in if eq den (of_ℕ 0) then of_ℕ 0 else div num den

  -- `StratumCounts`.
  unfoldable pub stratum_counts : World Float → Stratum → ℕ
  unfolding same_stratum
  stratum_counts w s = count_below w.n (λ i. same_stratum (w.strat i) s)
