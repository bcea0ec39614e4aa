-- ===== src/World/Archetypes/Picking.antt =====
-- internal/world/role.go: the archetype round trip, the checks of `init`, and whom `pickRole` can pick.
use populace.Prelude.{
  ℕ, zero, suc, ◌+◌, ◌-◌, ◌*◌, ◌/◌, ◌≤◌, ◌<◌, ◌≡◌, inl, inr, refl, true, false, some, List, [], ◌∷◌,
  length, get_elem?, All, All-mono, ◌==◌, Bool-cases, arith, subst,
}
use populace.Prelude.Floats.{Floats}
use populace.World.{Stratum, general, nomadic, immigrant, high_net_worth, media}
use populace.World.Regions.{
  Region, region_number, region_at, num_regions, sub_saharan_africa, mena, south_asia, east_asia,
  southeast_asia, europe, eurasia, north_america, latin_america, oceania,
}
use populace.World.Roles.{Role, roles}
use populace.World.Stream.{Rand}
use populace.World.Archetypes.{
  num_roles, make_archetype, arch_region, arch_role, num_archetypes, same_stratum, indices_of,
  roles_by_stratum, taxonomy_ok, last_or, first_reaching, pick_role, role_cdf, bucket,
}

region_number_lem :
    (reg : Region) → (region_number reg < num_regions) × (region_at (region_number reg) ≡ some reg)
unfolding region_number region_at
region_number_lem sub_saharan_africa = (omega arith, refl)
region_number_lem mena = (omega arith, refl)
region_number_lem south_asia = (omega arith, refl)
region_number_lem east_asia = (omega arith, refl)
region_number_lem southeast_asia = (omega arith, refl)
region_number_lem europe = (omega arith, refl)
region_number_lem eurasia = (omega arith, refl)
region_number_lem north_america = (omega arith, refl)
region_number_lem latin_america = (omega arith, refl)
region_number_lem oceania = (omega arith, refl)

-- Packing loses nothing: the archetype of a region and a role of the taxonomy is below the number of archetypes, and
-- has that region and that role.
pub make_archetype_parts :
    (reg : Region) (role : ℕ)
    → role < num_roles
    → let a = make_archetype reg role in
      (a < num_archetypes) × (arch_region a ≡ some reg) × (arch_role a ≡ role)
unfolding make_archetype arch_region arch_role roles
make_archetype_parts reg role below =
    let (inside, back) = region_number_lem reg in
    let number : (region_number reg * num_roles + role) / num_roles ≡ region_number reg =
      omega arith in
    (omega arith, rw number back, omega arith)

-- The taxonomy passes the checks of `init`, which never panics.
taxonomy_lem : taxonomy_ok ≡ true
unfolding taxonomy_ok roles
taxonomy_lem = refl

same_stratum-eq : (s t : Stratum) → same_stratum s t ≡ true → s ≡ t
unfolding same_stratum
same_stratum-eq general general h = refl
same_stratum-eq nomadic nomadic h = refl
same_stratum-eq immigrant immigrant h = refl
same_stratum-eq high_net_worth high_net_worth h = refl
same_stratum-eq media media h = refl
same_stratum-eq s t h = cc

-- The candidates of a stratum are roles of it, by their places in the list.
indices_of-All :
    (st : Stratum) (i : ℕ) (rs : List Role)
    → All
        (λ k. (i ≤ k) × ((r : Role) × (get_elem? rs (k - i) ≡ some r) × (r.stratum ≡ st)))
        (indices_of st i rs)
unfolding indices_of
indices_of-All st i [] = tt
indices_of-All st i (r ∷ rs) =
    let later =
      All-mono _
        (λ k. (i ≤ k) × ((q : Role) × (get_elem? (r ∷ rs) (k - i) ≡ some q) × (q.stratum ≡ st)))
        (indices_of st (i + 1) rs)
        (λ k h.
          let at : k - i ≡ suc (k - (i + 1)) = omega arith in
          (omega arith, (h.1.0, rw at h.1.1, h.1.2)))
        (indices_of-All st (i + 1) rs) in
    elim (Bool-cases (same_stratum r.stratum st)) [
      | inl same ↦
          let here : i - i ≡ 0 = omega arith in
          rw same ((omega arith, (r, rw here refl, same_stratum-eq r.stratum st same)), later)
      | inr other ↦ rw other later
    ]

module _ (P : ℕ → Type 0) where
  last_or-All : (d : ℕ) (xs : List ℕ) → P d → All P xs → P (last_or d xs)
  unfolding last_or
  last_or-All d [] p a = p
  last_or-All d (x ∷ xs) p a = last_or-All x xs a.0 a.1

  first_reaching-All :
      (fl : Floats) (p : fl.Float) (cum : List fl.Float) (cand : List ℕ) (last : ℕ)
      → P last
      → All P cand
      → P (first_reaching fl p cum cand last)
  unfolding first_reaching
  first_reaching-All fl p [] [] last l a = l
  first_reaching-All fl p [] (i ∷ cand) last l a = l
  first_reaching-All fl p (c ∷ cum) [] last l a = l
  first_reaching-All fl p (c ∷ cum) (i ∷ cand) last l a = elim (Bool-cases (fl.le p c)) [
    | inl here ↦ rw here a.0
    | inr more ↦ rw more (first_reaching-All fl p cum cand last l a.1)
  ]

  -- What is picked of a list that is not empty.
  picked-All :
      (fl : Floats) (p : fl.Float) (cum : List fl.Float) (cand : List ℕ)
      → 1 ≤ length cand
      → All P cand
      → P (first_reaching fl p cum cand (last_or 0 cand))
  unfolding last_or
  picked-All fl p cum [] some_one a = absurd (omega arith)
  picked-All fl p cum (i ∷ cand) some_one a =
      first_reaching-All fl p cum (i ∷ cand) (last_or i cand) (last_or-All i cand a.0 a.1) a

some_role : (st : Stratum) → 1 ≤ length (roles_by_stratum st)
unfolding roles_by_stratum roles
some_role general = omega arith
some_role nomadic = omega arith
some_role immigrant = omega arith
some_role high_net_worth = omega arith
some_role media = omega arith

get_elem?-lt : {A : Type 0} (xs : List A) (k : ℕ) (x : A) → get_elem? xs k ≡ some x → k < length xs
get_elem?-lt [] k x h = absurd (cc)
get_elem?-lt (y ∷ xs) zero x h = omega arith
get_elem?-lt (y ∷ xs) (suc k) x h = omega (arith, get_elem?-lt xs k x h)

-- `k` is the place of a role of the stratum in the taxonomy.
abbrev pub IsRoleOf : Stratum → ℕ → Type 0
IsRoleOf st k =
    (k < num_roles) × ((role : Role) × (get_elem? roles k ≡ some role) × (role.stratum ≡ st))

roles_by_stratum-All : (st : Stratum) → All (IsRoleOf st) (roles_by_stratum st)
unfolding roles_by_stratum
roles_by_stratum-All st =
    All-mono (λ k. (0 ≤ k) × ((q : Role) × (get_elem? roles (k - 0) ≡ some q) × (q.stratum ≡ st)))
      (IsRoleOf st) (indices_of st 0 roles)
      (λ k h.
        let whole : k - 0 ≡ k = omega arith in
        let at = subst (λ j. get_elem? roles j ≡ some h.1.0) whole h.1.1 in
        (get_elem?-lt roles k h.1.0 at, (h.1.0, at, h.1.2)))
      (indices_of-All st 0 roles)

module _ (fl : Floats) where
  -- Whatever the floats are, and whatever the random numbers, the region and the urbanity: `pickRole` gives a role
  -- of the taxonomy, and one of the stratum that it is asked for.
  pub pick_role-stratum :
      (r : Rand) (st : Stratum) (reg : Region) (urbanity : fl.Float)
      → IsRoleOf st (pick_role fl r st reg urbanity).1
  unfolding pick_role
  pick_role-stratum r st reg urbanity =
      let some_one : (length (roles_by_stratum st) == 0) ≡ false =
        let k = some_role st in ground arith in
      rw some_one (
        picked-All (IsRoleOf st) fl _ (role_cdf fl st reg (bucket fl urbanity))
          (roles_by_stratum st) (some_role st) (roles_by_stratum-All st))
