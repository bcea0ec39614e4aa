-- ===== src/Sim/Core/Groups.antt =====
-- internal/sim/stats.go: `Breakdown`, the population by region and by stratum, and `captureBaseline`.
use populace.Prelude.{
  ℕ, zero, suc, Bool, true, false, none, some, List, [], ◌∷◌, length, if◌then◌else◌,
}
use Prim.Native.String.{String}
use populace.Prelude.Floats.{Floats}
use populace.World.{Stratum, general, nomadic, immigrant, high_net_worth, media, strata}
use populace.World.Regions.{Region, all_regions, region_number, regions}
use populace.World.Archetypes.{arch_region, same_stratum}
use populace.Sim.Contagion.{is_unaware, count_below}
use populace.Sim.Core.{Sim}
use populace.Prelude.{◌==◌}

abbrev pub all_strata : List Stratum
all_strata = general ∷ nomadic ∷ immigrant ∷ high_net_worth ∷ media ∷ []

-- Whether an archetype is of a region.
unfoldable pub is_in_region : Region → ℕ → Bool
unfolding arch_region region_number
is_in_region reg a = elim (arch_region a) [
  | none ↦ false
  | some r ↦ region_number r == region_number reg
]

module _ (fl : Floats) where
  open fl use {Float, of_ℕ, add, sub, mul, div, lt, eq}

  pub record GroupStat : Type 0 where
    pub name : String
    pub share : Float
    pub reach : Float
    pub opinion : Float
    pub shift : Float
    pub personas : ℕ
    pub degree : Float

  pub record Breakdown : Type 0 where
    pub regions : List GroupStat
    pub strata : List GroupStat

  -- The sum of a quantity over the personas below `n` that are in a group, in their order.
  unfoldable pub sum_in : ℕ → (ℕ → Bool) → (ℕ → Float) → Float
  sum_in zero p f = of_ℕ 0
  sum_in (suc n) p f = let rest = sum_in n p f in if p n then add rest (f n) else rest

  module _ {Chat : Type 0} where
    abbrev of_region : Sim fl Chat → Region → ℕ → Bool
    of_region s reg i = is_in_region reg (s.w.arch i)

    abbrev of_stratum : Sim fl Chat → Stratum → ℕ → Bool
    of_stratum s st i = same_stratum st (s.w.strat i)

    -- The entry of a group, with its name and its opinion before the story; none for a group without weight.
    unfoldable pub group_stat :
        Sim fl Chat → String → Float → (ℕ → Bool) → List GroupStat → List GroupStat
    unfolding sum_in
    group_stat s name before p rest =
        let n = s.w.n in
        let weight = sum_in n p s.w.weight in
        let opinion = div (sum_in n p (λ i. mul (s.w.weight i) (s.o.y i))) weight in
        let adopted = sum_in n p (λ i. if is_unaware (s.c.state i) then of_ℕ 0 else s.w.weight i) in
        let personas = count_below n p in
        let entry : GroupStat = record {
          name = name;
          share = div weight (sum_in n (λ i. true) s.w.weight);
          reach = div adopted weight;
          opinion = opinion;
          shift = sub opinion before;
          personas = personas;
          degree = div (sum_in n p (λ i. of_ℕ (length (s.g i)))) (of_ℕ personas);
        } in
        if eq weight (of_ℕ 0) then rest else entry ∷ rest

    unfoldable pub region_stats : Sim fl Chat → List Region → List GroupStat
    unfolding group_stat is_in_region regions
    region_stats s [] = []
    region_stats s (r ∷ rs) =
        group_stat s (regions r).name (s.base.region r) (of_region s r) (region_stats s rs)

    unfoldable pub stratum_stats : Sim fl Chat → List Stratum → List GroupStat
    unfolding group_stat same_stratum strata
    stratum_stats s [] = []
    stratum_stats s (st ∷ sts) =
        group_stat s (strata st).name (s.base.stratum st) (of_stratum s st) (stratum_stats s sts)

    unfoldable pub breakdown : Sim fl Chat → Breakdown
    unfolding region_stats stratum_stats
    breakdown s = record {
      regions = region_stats s all_regions;
      strata = stratum_stats s all_strata;
    }

    -- The mean opinion of a group, or what was noted of it before if it has no weight.
    unfoldable pub group_mean : Sim fl Chat → (ℕ → Bool) → Float → Float
    unfolding sum_in
    group_mean s p before =
        let weight = sum_in s.w.n p s.w.weight in
        let opinion = div (sum_in s.w.n p (λ i. mul (s.w.weight i) (s.o.y i))) weight in
        if lt (of_ℕ 0) weight then opinion else before

    unfoldable pub capture_baseline : Sim fl Chat → Sim fl Chat
    unfolding group_mean is_in_region same_stratum
    capture_baseline s = record s {
      base = record {
        region = λ r. group_mean s (of_region s r) (s.base.region r);
        stratum = λ st. group_mean s (of_stratum s st) (s.base.stratum st);
        set = true;
      };
    }
