-- ===== src/World/Coherence.antt =====
-- What `Generate` of internal/world/world.go makes: the arrays of a persona agree with one another.
use populace.Prelude.{
  ℕ, zero, suc, ◌%◌, ◌≤◌, ◌<◌, ◌≡◌, refl, sym, ap, ◌∙◌, some, get_elem?, subst, assign, assign_self,
  assign_ne, ℕ_discrete, arith,
}
use populace.Prelude.Floats.{Floats}
use native.Mathlib.Nat.{mod-eq_of_lt}
use populace.World.{Stratum, weight_of, World}
use populace.World.Stream.{Rand}
use populace.World.Centres.{Centre, centres}
use populace.World.Roles.{roles}
use populace.World.Positions.{Position, sample_position, sample_position-place}
use populace.World.Archetypes.{num_archetypes, make_archetype, arch_region, arch_role, pick_role}
use populace.World.Archetypes.Picking.{IsRoleOf, pick_role-stratum, make_archetype_parts}
use populace.World.Generate.{Persona, persona, settle, write_persona, generate_upto, generate}

module _ (fl : Floats) where
  -- The place is a centre, the archetype has its region and a role of the stratum, and the rest follows from these.
  pub record IsCoherent (strat : Stratum) (weight : fl.Float) (place arch palette shape : ℕ)
      : Type 0 where
    pub centre : Centre
    pub placed : get_elem? centres place ≡ some centre
    pub small : arch < num_archetypes
    pub region : arch_region arch ≡ some centre.region
    pub role : IsRoleOf strat (arch_role arch)
    pub weighed : weight ≡ weight_of fl strat
    pub painted : palette ≡ arch % 1024
    pub shaped : shape ≡ arch_role arch % 8

  abbrev IsFit : Persona fl → Type 0
  IsFit p = IsCoherent p.strat p.weight p.place p.arch p.palette p.shape

  archetypes_few : num_archetypes ≤ 65536
  unfolding roles
  archetypes_few = omega arith

  settle-IsFit :
      (st : Stratum) (r : Rand) (pos : Position fl) (c : Centre)
      → get_elem? centres pos.place ≡ some c
      → c.region ≡ pos.region
      → (p : Persona fl) × (settle fl st (some (r, pos)) ≡ some p) × IsFit p
  unfolding settle
  settle-IsFit st r pos c at same =
      let k = (pick_role fl r st pos.region pos.urbanity).1 in
      let of = pick_role-stratum fl r st pos.region pos.urbanity in
      let (small, reg, role) = make_archetype_parts pos.region k of.0 in
      let arch = make_archetype pos.region k in
      let whole : arch % 65536 ≡ arch = mod-eq_of_lt (omega (arith, archetypes_few)) in
      (
        _,
        refl,
        record {
          centre = c;
          placed = at;
          small = rw whole small;
          region = rw whole (reg ∙ ap (λ q. some q) (sym same));
          role = rw (whole, role) of;
          weighed = refl;
          painted = refl;
          shaped = rw (whole, role) refl;
        },
      )

  sampled-IsFit :
      (r : Rand) (st : Stratum)
      → (p : Persona fl) × (settle fl st (sample_position fl r st) ≡ some p) × IsFit p
  sampled-IsFit r st =
      let s = sample_position-place fl r st in
      let (c, at, same) = s.1.2 in
      let f = settle-IsFit st s.0 s.1.0 c at same in (f.0, ap (settle fl st) s.1.1 ∙ f.1, f.2)

  persona-IsFit : (seed i : ℕ) → (p : Persona fl) × (persona fl seed i ≡ some p) × IsFit p
  unfolding persona
  persona-IsFit seed i = sampled-IsFit _ _

  -- Persona `i` of the population is coherent.
  abbrev pub IsCoherentAt : World fl.Float → ℕ → Type 0
  IsCoherentAt w i =
      IsCoherent (w.strat i) (w.weight i) (w.place i) (w.arch i) (w.palette i) (w.shape i)

  module _ (i : ℕ) (p : Persona fl) (w : World fl.Float) where
    written : World fl.Float
    written = record w {
      strat = assign ℕ_discrete w.strat i p.strat;
      weight = assign ℕ_discrete w.weight i p.weight;
      lon = assign ℕ_discrete w.lon i p.lon;
      lat = assign ℕ_discrete w.lat i p.lat;
      place = assign ℕ_discrete w.place i p.place;
      urbanity = assign ℕ_discrete w.urbanity i p.urbanity;
      arch = assign ℕ_discrete w.arch i p.arch;
      palette = assign ℕ_discrete w.palette i p.palette;
      shape = assign ℕ_discrete w.shape i p.shape;
    }

    write_persona_lem : write_persona fl i (some p) (some w) ≡ some written
    unfolding write_persona written
    write_persona_lem = refl

    written-here : IsFit p → IsCoherentAt written i
    unfolding written
    written-here f =
        rw
          (
            assign_self ℕ_discrete w.strat i p.strat,
            assign_self ℕ_discrete w.weight i p.weight,
            assign_self ℕ_discrete w.place i p.place,
            assign_self ℕ_discrete w.arch i p.arch,
            assign_self ℕ_discrete w.palette i p.palette,
            assign_self ℕ_discrete w.shape i p.shape,
          )
          f

    written-there : (j : ℕ) → ((i ≡ j) → ⊥) → IsCoherentAt w j → IsCoherentAt written j
    unfolding written
    written-there j other f =
        rw
          (
            assign_ne ℕ_discrete w.strat i j p.strat other,
            assign_ne ℕ_discrete w.weight i j p.weight other,
            assign_ne ℕ_discrete w.place i j p.place other,
            assign_ne ℕ_discrete w.arch i j p.arch other,
            assign_ne ℕ_discrete w.palette i j p.palette other,
            assign_ne ℕ_discrete w.shape i j p.shape other,
          )
          f

  generate_upto-IsCoherent :
      (m seed : ℕ) (w : World fl.Float)
      → (w' : World fl.Float) × (generate_upto fl m seed w ≡ some w')
        × (w'.n ≡ w.n)
        × ((i : ℕ) → i < m → IsCoherentAt w' i)
  unfolding generate_upto written
  generate_upto-IsCoherent zero seed w = (w, refl, refl, λ i below. absurd (omega arith))
  generate_upto-IsCoherent (suc m) seed w =
      let (before, is, size, ih) = generate_upto-IsCoherent m seed w in
      let (p, made, fit) = persona-IsFit seed m in
      (
        written m p before,
        ap (λ q. write_persona fl m q (generate_upto fl m seed w)) made
            ∙ ap (λ o. write_persona fl m (some p) o) is
            ∙ write_persona_lem m p before,
        size,
        λ i below. elim (ℕ_discrete m i) [
          | yes e ↦ subst (λ q. IsCoherentAt (written m p before) q) e (written-here m p before fit)
          | no other ↦ written-there m p before i other (ih i (omega arith))
        ],
      )

  pub record IsCoherentWorld (w : World fl.Float) : Type 0 where
    pub each : (i : ℕ) → i < w.n → IsCoherentAt w i

  -- `Generate` always returns a population of the size that is asked for, in which each persona lives at a centre of
  -- the table, has an archetype of the taxonomy with that centre's region and a role of its own stratum, which has
  -- not been cut to 16 bits, and has the weight, the palette and the shape that go with these.
  pub generate-IsCoherent :
      (n seed : ℕ)
      → (w : World fl.Float) × (generate fl n seed ≡ some w) × (w.n ≡ n) × IsCoherentWorld w
  unfolding generate
  generate-IsCoherent n seed =
      let (w, made, size, all) = generate_upto-IsCoherent n seed _ in
      (w, made, size, record { each = λ i below. all i (omega (arith, size)) })
