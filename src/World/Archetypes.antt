-- ===== src/World/Archetypes.antt =====
-- internal/world/role.go: archetypes, how common a role is, and `pickRole`. The tables that `init` fills are functions.
pub mod Picking
use populace.Prelude.{
  ℕ, zero, suc, ◌+◌, ◌-◌, ◌*◌, ◌/◌, ◌%◌, ◌≡◌, Bool, true, false, not, ◌&&◌, Option, none, some,
  List, [], ◌∷◌, ◌++◌, map, length, get_elem?, ltb, leb, ◌==◌, if◌then◌else◌,
}
use populace.Prelude.Int.{ℤ, pos, negsuc, ltb_ℤ}
use populace.Prelude.Decimals.{Decimal, is_positive, value}
use populace.Prelude.Floats.{Floats}
use Prim.Native.String.{String}
use Prim.Native.String
use populace.World.{Stratum, general, nomadic, immigrant, high_net_worth, media, strata}
use populace.World.Regions.{Region, region_number, region_at, num_regions, regions, RegionSpec}
use populace.World.Roles.{Role, roles}
use populace.World.Stream.{Rand, f64}

abbrev pub num_roles : ℕ
num_roles = length roles

unfoldable pub make_archetype : Region → ℕ → ℕ
unfolding region_number
make_archetype reg role = region_number reg * num_roles + role

-- `Archetype.Region`, and `Archetype.Role` by the index of the role.
unfoldable pub arch_region : ℕ → Option Region
unfolding region_at
arch_region a = region_at (a / num_roles)

unfoldable pub arch_role : ℕ → ℕ
arch_role a = a % num_roles

abbrev pub num_archetypes : ℕ
num_archetypes = num_regions * num_roles

unfoldable pub same_stratum : Stratum → Stratum → Bool
same_stratum general general = true
same_stratum nomadic nomadic = true
same_stratum immigrant immigrant = true
same_stratum high_net_worth high_net_worth = true
same_stratum media media = true
same_stratum _ _ = false

-- The roles of a stratum from the index `i` on, in their order.
unfoldable pub indices_of : Stratum → ℕ → List Role → List ℕ
unfolding same_stratum
indices_of st i [] = []
indices_of st i (r ∷ rs) =
    let rest = indices_of st (i + 1) rs in if same_stratum r.stratum st then i ∷ rest else rest

unfoldable pub roles_by_stratum : Stratum → List ℕ
unfolding indices_of
roles_by_stratum st = indices_of st 0 roles

-- What `init` checks: no stratum has more than 64 roles or none, and every role can be drawn.
unfoldable pub all_positive : List Role → Bool
unfolding is_positive
all_positive [] = true
all_positive (r ∷ rs) = is_positive r.base && all_positive rs

unfoldable pub stratum_ok : Stratum → Bool
unfolding roles_by_stratum
stratum_ok st = let k = length (roles_by_stratum st) in leb k 64 && ltb 0 k

unfoldable pub taxonomy_ok : Bool
unfolding stratum_ok all_positive
taxonomy_ok =
    stratum_ok general
    && (stratum_ok nomadic
        && (stratum_ok immigrant
            && (stratum_ok high_net_worth && (stratum_ok media && all_positive roles))))

-- `Describe` and `String`, of a region and a role.
unfoldable pub describe : Region → Role → String
unfolding regions
describe reg r = String.◌++◌ "A " (
    String.◌++◌ r.name (
      String.◌++◌ " in "
        (String.◌++◌ (regions reg).name (String.◌++◌ ", who " (String.◌++◌ r.sketch ".")))))

unfoldable pub archetype_string : Region → Role → String
unfolding regions
archetype_string reg r = String.◌++◌ r.name (String.◌++◌ " / " (regions reg).name)

-- The last of a list, or what is given.
unfoldable pub last_or : {A : Type 0} → A → List A → A
last_or d [] = d
last_or d (x ∷ xs) = last_or x xs

module _ (fl : Floats) where
  open fl use {Float, of_ℕ, ratio, add, sub, mul, div, le, eq, exp, trunc}

  unfoldable pub values : Role → Float × Float
  unfolding value
  values r = (value fl r.openness, value fl r.security)

  -- The sum of the reaches of the roles of a stratum.
  unfoldable pub reach_sum : Stratum → Float → List Role → Float
  unfolding same_stratum value
  reach_sum st sum [] = sum
  reach_sum st sum (r ∷ rs) =
      reach_sum st (if same_stratum r.stratum st then add sum (value fl r.reach) else sum) rs

  unfoldable pub reach_norm : Stratum → Float
  unfolding reach_sum roles_by_stratum
  reach_norm st =
      let k = length (roles_by_stratum st) in
      if ltb 0 k then div (reach_sum st (of_ℕ 0) roles) (of_ℕ k) else of_ℕ 0

  -- `Archetype.Reach`, of its role.
  unfoldable pub reach : Role → Float
  unfolding reach_norm value
  reach r =
      if eq (reach_norm r.stratum) (of_ℕ 0)
      then of_ℕ 1
      else div (value fl r.reach) (reach_norm r.stratum)

  unfoldable pub role_weight : Role → Float → Float → Float
  unfolding value
  role_weight r dev urbanity =
      let d = mul (sub dev (ratio 1 2)) (of_ℕ 2) in
      let u = mul (sub urbanity (ratio 1 2)) (of_ℕ 2) in
      mul (value fl r.base) (
        exp (
          add (mul (mul (ratio 22 10) (value fl r.dev_bias)) d)
            (mul (mul (ratio 16 10) (value fl r.urban_bias)) u)))

  -- The cumulative weights of the roles of a stratum, in their order.
  unfoldable pub cumulative : Stratum → Float → Float → Float → List Role → List Float
  unfolding role_weight same_stratum
  cumulative st dev u acc [] = []
  cumulative st dev u acc (r ∷ rs) =
      let acc' = add acc (role_weight r dev u) in
      let kept = acc' ∷ cumulative st dev u acc' rs in
      let skipped = cumulative st dev u acc rs in
      if same_stratum r.stratum st then kept else skipped

  unfoldable pub role_cdf : Stratum → Region → ℕ → List Float
  unfolding cumulative regions value
  role_cdf st reg b =
      cumulative st (value fl (regions reg).dev) (div (add (of_ℕ b) (ratio 1 2)) (of_ℕ 16)) (of_ℕ 0)
        roles

  -- The first candidate whose cumulative weight reaches `p`, or else the last.
  unfoldable pub first_reaching : Float → List Float → List ℕ → ℕ → ℕ
  first_reaching p (c ∷ cum) (i ∷ cand) last =
      let rest = first_reaching p cum cand last in if le p c then i else rest
  first_reaching p _ _ last = last

  -- The bucket of an urbanity, from 0 to 15.
  unfoldable pub bucket : Float → ℕ
  bucket urbanity = elim (trunc (mul urbanity (of_ℕ 16))) [
    | pos b ↦ if leb 16 b then 15 else b
    | negsuc b ↦ 0
  ]

  unfoldable pub pick_role : Rand → Stratum → Region → Float → Rand × ℕ
  unfolding roles_by_stratum role_cdf last_or first_reaching bucket f64
  pick_role r st reg urbanity =
      let cand = roles_by_stratum st in
      let cum = role_cdf st reg (bucket urbanity) in
      let (r', u) = f64 fl r in
      let p = mul u (last_or (of_ℕ 0) cum) in
      if length cand == 0 then (r, 0) else (r', first_reaching p cum cand (last_or 0 cand))
