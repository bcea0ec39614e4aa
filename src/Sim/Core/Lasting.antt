-- ===== src/Sim/Core/Lasting.antt =====
-- What `Reset` of internal/sim/sim.go leaves of a contagion and of a media layer is not changed by seedings and rounds.
use populace.Prelude.{
  ℕ, zero, suc, ◌+◌, ◌*◌, ◌%◌, ◌≡◌, refl, ◌∙◌, subst, Bool, true, false, Bool-cases, inl, inr,
  Option, none, some, List, [], ◌∷◌, length, ltb, ◌==◌, if◌then◌else◌, get_or, assign, ℕ_discrete,
}
use populace.Prelude.Floats.{Floats}
use populace.World.{World}
use populace.Sim.Random.{Rng, u32}
use populace.Sim.Contagion.{Status, Contagion, Network, is_unaware, reset}
use populace.Sim.Seeding.{
  seed_one, scatter, seed_scattered, grow, enqueue, seed_cluster, sweep, seed_region, position,
}
use populace.Sim.Media.{Media, live, set_enabled, ignite}
use populace.Sim.Media as Layer
use populace.Sim.Media.Round as Round
use populace.Sim.Media.Round.{refresh}
use populace.Sim.Core.Stories.{
  Seeding, Event, seed_by, size_of, dense_start, seeded, everywhere, in_network, in_region,
}

module _ (fl : Floats) where
  reset-seed_one :
      (c : Contagion fl) (ids : List ℕ) (i : ℕ) → reset fl (seed_one fl c ids i).0 ≡ reset fl c
  unfolding reset seed_one
  reset-seed_one c ids i = elim (Bool-cases (is_unaware (c.state i))) [
    | inl free ↦ rw free refl
    | inr taken ↦ rw taken refl
  ]

  reset-scatter :
      (tries : ℕ) (c : Contagion fl) (r : Rng) (k : ℕ) (ids : List ℕ)
      → reset fl (scatter fl tries c r k ids).0 ≡ reset fl c
  unfolding scatter
  reset-scatter zero c r k ids = refl
  reset-scatter (suc tries) c r k ids =
      let one = seed_one fl c ids ((u32 r).1 % c.n) in
      elim (Bool-cases (ltb (length ids) k)) [
        | inl more ↦ rw more (reset-scatter tries one.0 (u32 r).0 k one.1 ∙ reset-seed_one c ids _)
        | inr done ↦ rw done refl
      ]

  reset-seed_scattered :
      (c : Contagion fl) (k seed : ℕ) → reset fl (seed_scattered fl c k seed).0 ≡ reset fl c
  unfolding seed_scattered
  reset-seed_scattered c k seed = elim (Bool-cases (c.n == 0)) [
    | inl nobody ↦ rw nobody refl
    | inr some_one ↦ rw some_one (reset-scatter (20 * k + 1000) c _ k [])
  ]

  reset-sweep :
      (left off : ℕ) (c : Contagion fl) (order : List ℕ) (rank k : ℕ) (ids : List ℕ)
      → reset fl (sweep fl left off c order rank k ids).0 ≡ reset fl c
  unfolding sweep
  reset-sweep zero off c order rank k ids = refl
  reset-sweep (suc left) off c order rank k ids =
      let at = get_or order (position (length order) rank k off) 0 in
      let one = seed_one fl c ids at in
      reset-sweep left (off + 1) one.0 order rank k one.1 ∙ reset-seed_one c ids at

  reset-seed_region :
      (c : Contagion fl) (order : List ℕ) (rank k : ℕ)
      → reset fl (seed_region fl c order rank k).0 ≡ reset fl c
  unfolding seed_region
  reset-seed_region c order rank k = elim (Bool-cases (length order == 0)) [
    | inl nobody ↦ rw nobody refl
    | inr some_one ↦
        rw some_one
          (reset-sweep (if ltb (length order) k then length order else k) 0 c order rank _ [])
  ]

  -- A seeding that ends keeps what `Reset` leaves.
  abbrev Keeps : Contagion fl → Option (Contagion fl × List ℕ) → Type 0
  Keeps c none = c ≡ c
  Keeps c (some (d, ids)) = reset fl d ≡ reset fl c

  Keeps-trans :
      (c d : Contagion fl) (r : Option (Contagion fl × List ℕ))
      → reset fl d ≡ reset fl c
      → Keeps d r
      → Keeps c r
  Keeps-trans c d none same h = refl
  Keeps-trans c d (some _) same h = h ∙ same

  grow-Keeps :
      (fuel : ℕ) (c : Contagion fl) (g : Network) (k : ℕ) (seen : ℕ → Bool) (queue ids : List ℕ)
      → Keeps c (grow fl fuel c g k seen queue ids)
  unfolding grow
  grow-Keeps fuel c g k seen [] ids = refl
  grow-Keeps zero c g k seen (v ∷ queue) ids = elim (Bool-cases (ltb (length ids) k)) [
    | inl more ↦ rw more refl
    | inr done ↦ rw done refl
  ]
  grow-Keeps (suc fuel) c g k seen (v ∷ queue) ids =
      let one = seed_one fl c ids v in
      let next = enqueue seen queue (g v) in
      elim (Bool-cases (ltb (length ids) k)) [
        | inl more ↦ rw more (
            Keeps-trans c one.0 (grow fl fuel one.0 g k next.0 next.1 one.1)
              (reset-seed_one c ids v) (grow-Keeps fuel one.0 g k next.0 next.1 one.1))
        | inr done ↦ rw done refl
      ]

  seed_by-Keeps :
      (kind : Seeding) (w : World fl.Float) (g : Network) (order : List ℕ) (rank : ℕ → ℕ)
      (c : Contagion fl) (seed size : ℕ)
      → Keeps c (seed_by fl kind w g order rank c seed size)
  unfolding seed_by seed_cluster
  seed_by-Keeps everywhere w g order rank c seed size = reset-seed_scattered c size seed
  seed_by-Keeps in_network w g order rank c seed size =
      let start = dense_start fl w g seed in
      grow-Keeps c.n c g size (assign ℕ_discrete (λ i. false) start true) (start ∷ []) []
  seed_by-Keeps in_region w g order rank c seed size = reset-seed_region c order _ size

  pub seeded-reset :
      (w : World fl.Float) (g : Network) (order : List ℕ) (rank : ℕ → ℕ) (c d : Contagion fl)
      (ev : Event fl) (ids : List ℕ)
      → seeded fl w g order rank c ev ≡ some (d, ids)
      → reset fl d ≡ reset fl c
  unfolding seeded
  seeded-reset w g order rank c d ev ids is =
      subst (Keeps c) is
        (seed_by-Keeps ev.seeding w g order rank c ev.seed (size_of fl ev.seed_size))

  -- The layer without its story, switched on.
  abbrev pub cleared : Media fl → Media fl
  cleared m = record (Layer.reset fl m) { enabled = true }

  pub cleared-advance :
      (gomaxprocs n : ℕ) (m : Media fl) (state : ℕ → Status) (weight y : ℕ → fl.Float)
      → cleared (Round.advance fl gomaxprocs n m state weight y).0 ≡ cleared m
  unfolding Round.advance Layer.reset refresh
  cleared-advance gomaxprocs n m state weight y = elim (Bool-cases (live fl m)) [
    | inl on ↦ rw on refl
    | inr off ↦ rw off refl
  ]

  pub cleared-ignite :
      (m : Media fl) (salience : fl.Float) → cleared (ignite fl m salience) ≡ cleared m
  unfolding Layer.reset ignite
  cleared-ignite m salience = elim (Bool-cases m.enabled) [
    | inl on ↦ rw on refl
    | inr off ↦ rw off refl
  ]

  pub cleared-set_enabled : (m : Media fl) (v : Bool) → cleared (set_enabled fl m v) ≡ cleared m
  unfolding Layer.reset set_enabled
  cleared-set_enabled m true = refl
  cleared-set_enabled m false = refl
