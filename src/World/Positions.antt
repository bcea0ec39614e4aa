-- ===== src/World/Positions.antt =====
-- internal/world/place.go: `samplePosition`. A turn of the longitude loop is 360 degrees: the normal numbers of the
-- stream are within 6.7 of 0 and no centre spreads 21 degrees, so that two turns are enough for the floats of Go,
-- and the loop is given eight.
use populace.Prelude.{
  ℕ, zero, suc, ◌+◌, ◌≤◌, ◌≡◌, refl, Bool, true, false, List, [], ◌∷◌, length, get_elem?, Option,
  none, some, if◌then◌else◌, Bool-cases, inl, inr, subst, ap, arith,
}
use populace.Prelude.Decimals.{Decimal, lit, value}
use populace.Prelude.Floats.{Floats}
use populace.World.{Stratum, general, nomadic, immigrant, high_net_worth, media}
use populace.World.Regions.{Region}
use populace.World.Centres.{Centre, centres}
use populace.World.Stream.{Rand, f64, norm}

unfoldable pub spread_scale : Stratum → Decimal
spread_scale general = lit 1 1
spread_scale nomadic = lit 45 10
spread_scale immigrant = lit 8 10
spread_scale high_net_worth = lit 45 100
spread_scale media = lit 35 100

-- The strata that go by the heaviest centres.
unfoldable pub is_skewed : Stratum → Bool
is_skewed media = true
is_skewed high_net_worth = true
is_skewed _ = false

some_centre : 1 ≤ length centres
unfolding centres
some_centre = omega arith

module _ (fl : Floats) where
  open fl use {Float, of_ℕ, ratio, neg, add, sub, mul, lt, exp, sqrt}

  -- `centreCum[len - 1]`, the weight of all centres.
  unfoldable pub total_weight : Float → List Centre → Float
  unfolding value
  total_weight acc [] = acc
  total_weight acc (c ∷ cs) = total_weight (add acc (value fl c.weight)) cs

  -- The loop that finds the centre, with `acc` the weight of the centres before: its index, and the centre. The last
  -- centre is taken without a test.
  unfoldable pub find_centre : Float → Float → ℕ → Centre → List Centre → ℕ × Centre
  unfolding value
  find_centre p acc k c [] = (k, c)
  find_centre p acc k c (d ∷ cs) =
      let acc' = add acc (value fl c.weight) in
      let rest = find_centre p acc' (k + 1) d cs in if lt acc' p then rest else (k, c)

  unfoldable pub centre_of : Float → List Centre → Option (ℕ × Centre)
  unfolding find_centre
  centre_of p [] = none
  centre_of p (c ∷ cs) = some (find_centre p (of_ℕ 0) 0 c cs)

  unfoldable pub west : ℕ → Float → Float
  west zero lon = lon
  west (suc fuel) lon =
      let rest = west fuel (sub lon (of_ℕ 360)) in if lt (of_ℕ 180) lon then rest else lon

  unfoldable pub east : ℕ → Float → Float
  east zero lon = lon
  east (suc fuel) lon =
      let rest = east fuel (add lon (of_ℕ 360)) in if lt lon (neg (of_ℕ 180)) then rest else lon

  unfoldable pub clamp_lat : Float → Float
  clamp_lat lat =
      let upper = if lt (of_ℕ 84) lat then of_ℕ 84 else lat in
      if lt upper (neg (of_ℕ 84)) then neg (of_ℕ 84) else upper

  pub record Position : Type 0 where
    pub lon : Float
    pub lat : Float
    pub place : ℕ
    pub region : Region
    pub urbanity : Float

  -- The draw that decides on the centre.
  unfoldable pub centre_draw : Rand → Stratum → Rand × Float
  unfolding total_weight is_skewed
  centre_draw r st =
      let total = total_weight (of_ℕ 0) centres in
      let (r', u) = f64 fl r in
      let (r'', q) = f64 fl r' in
      if is_skewed st then (r'', mul (sub (of_ℕ 1) (mul q q)) total) else (r', mul u total)

  -- Where a persona around a centre is.
  unfoldable pub scatter_around : Rand → Stratum → ℕ → Centre → Rand × Position
  unfolding spread_scale value west east clamp_lat
  scatter_around r st k c =
      let sig = mul (value fl c.spread) (value fl (spread_scale st)) in
      let (r', dlat) = norm fl r in
      let (r'', dlon) = norm fl r' in
      let lat = add (value fl c.lat) (mul dlat sig) in
      let lon = add (value fl c.lon) (mul (mul dlon sig) (ratio 135 100)) in
      let d = sqrt (add (mul dlat dlat) (mul dlon dlon)) in
      (
        r'',
        record {
          lon = east 8 (west 8 lon);
          lat = clamp_lat lat;
          place = k;
          region = c.region;
          urbanity = exp (mul (neg d) (ratio 9 10));
        },
      )

  unfoldable pub place_at : Rand → Stratum → Option (ℕ × Centre) → Option (Rand × Position)
  unfolding scatter_around
  place_at r st none = none
  place_at r st (some (k, c)) = some (scatter_around r st k c)

  unfoldable pub sample_position : Rand → Stratum → Option (Rand × Position)
  unfolding centre_of place_at centre_draw
  sample_position r st = let (r', p) = centre_draw r st in place_at r' st (centre_of p centres)

  find_centre-at :
      (p acc : Float) (k : ℕ) (c : Centre) (cs : List Centre)
      → let found = find_centre p acc k c cs in
        (j : ℕ) × (found.0 ≡ k + j) × (get_elem? (c ∷ cs) j ≡ some found.1)
  unfolding find_centre
  find_centre-at p acc k c [] = (0, omega arith, refl)
  find_centre-at p acc k c (d ∷ cs) = elim (Bool-cases (lt (add acc (value fl c.weight)) p)) [
    | inl on ↦
        let (j, e, at) = find_centre-at p (add acc (value fl c.weight)) (k + 1) d cs in
        rw on (suc j, omega arith, at)
    | inr here ↦ rw here (0, omega arith, refl)
  ]

  centre_of-at :
      (p : Float) (cs : List Centre)
      → 1 ≤ length cs
      → (k : ℕ) × ((c : Centre) × (centre_of p cs ≡ some (k, c)) × (get_elem? cs k ≡ some c))
  unfolding centre_of
  centre_of-at p [] some_one = absurd (omega arith)
  centre_of-at p (c ∷ cs) some_one =
      let (j, e, at) = find_centre-at p (of_ℕ 0) 0 c cs in
      let found = find_centre p (of_ℕ 0) 0 c cs in
      let same : j ≡ found.0 = omega arith in
      (found.0, (found.1, refl, subst (λ q. get_elem? (c ∷ cs) q ≡ some found.1) same at))

  -- `samplePosition` always returns, and the place that it returns is the index of a centre, whose region is the
  -- position's.
  pub sample_position-place :
      (r : Rand) (st : Stratum)
      → (r' : Rand) × ((pos : Position) × (sample_position r st ≡ some (r', pos))
          × ((c : Centre) × (get_elem? centres pos.place ≡ some c) × (c.region ≡ pos.region)))
  unfolding sample_position scatter_around place_at
  sample_position-place r st =
      let drawn = centre_draw r st in
      let (k, found) = centre_of-at drawn.1 centres some_centre in
      let s = scatter_around drawn.0 st k found.0 in
      (s.0, (s.1, ap (place_at drawn.0 st) found.1, (found.0, found.2, refl)))
