-- ===== src/Sim/Core/Breaking.antt =====
-- A story that breaks in a fresh simulation: `Inject` of internal/sim/sim.go.
use populace.Prelude.{
  ℕ, zero, suc, ◌+◌, ◌%◌, ◌≤◌, ◌<◌, ◌≡◌, refl, sym, ap, ◌∙◌, subst, not, Bool-cases, inl, inr,
  Option, none, some, List, length, arith,
}
use native.Mathlib.Nat.{mod-lt}
use Prim.Native.Nat.{bit_xor}
use populace.Prelude.Floats.{Floats}
use populace.World.{Stratum, World, is_media}
use populace.Sim.Random.{Rng, new_rng, u32}
use populace.Sim.Contagion.{Contagion, Network, unaware, is_unaware, count}
use populace.Sim.Contagion.Stalled.{IsWithin, none-count_below}
use populace.Sim.Seeding.Growth.{seed_scattered-count, seed_cluster-count}
use populace.Sim.Seeding.Regions.{IsOrder, seed_region-count}
use populace.Sim.Core.{Sim, Cohorts}
use populace.Sim.Core.Groups.{capture_baseline}
use populace.Sim.Core.Operations.{inject, inject_begun, inject_seeded, inject_ended}
use populace.Sim.Core.Stories.{
  Event, Seeding, everywhere, in_network, in_region, densest, denser, dense_start, size_of, seed_by,
  seeded,
}

module _ (fl : Floats) where
  densest-below :
      (left : ℕ) (r : Rng) (n : ℕ) (strat : ℕ → Stratum) (g : Network) (best : ℕ) (deg : Option ℕ)
      → 1 ≤ n
      → best < n
      → densest fl left r n strat g best deg < n
  unfolding densest
  densest-below zero r n strat g best deg some_one below = below
  densest-below (suc left) r n strat g best deg some_one below =
      let i = (u32 r).1 % n in
      let in_range : i < n = mod-lt (u32 r).1 some_one in
      let same = densest-below left (u32 r).0 n strat g best deg some_one below in
      let better =
        densest-below left (u32 r).0 n strat g i (some (length (g i))) some_one in_range in
      elim (Bool-cases (is_media (strat i))) [
        | inl press ↦ rw press same
        | inr other ↦ rw other (elim (Bool-cases (denser fl g i deg)) [
          | inl more ↦ rw more better
          | inr less ↦ rw less same
        ])
      ]

  dense_start-below :
      (w : World fl.Float) (g : Network) (seed : ℕ) → 1 ≤ w.n → dense_start fl w g seed < w.n
  unfolding dense_start
  dense_start-below w g seed some_one =
      densest-below 64 (new_rng (bit_xor seed 0xD3D3) 0) w.n w.strat g 0 none some_one some_one

  -- What a seeding in a population where nobody has heard does: it returns, and whoever it lists has adopted.
  abbrev Seeds : Contagion fl → ℕ → Option (Contagion fl × List ℕ) → Type 0
  Seeds c size r =
      (d : Contagion fl) × (ids : List ℕ) × (r ≡ some (d, ids))
      × (count fl d ≡ count fl c + length ids)
      × (length ids ≤ size)

  seed_by-Seeds :
      (kind : Seeding) (w : World fl.Float) (g : Network) (order : List ℕ) (rank : ℕ → ℕ)
      (c : Contagion fl) (seed size : ℕ)
      → IsWithin g c.n
      → w.n ≡ c.n
      → 1 ≤ c.n
      → IsOrder order
      → c.n ≡ length order
      → ((i : ℕ) → i < c.n → rank i < c.n)
      → ((i : ℕ) → c.state i ≡ unaware)
      → Seeds c size (seed_by fl kind w g order rank c seed size)
  unfolding seed_by
  seed_by-Seeds everywhere w g order rank c seed size within whole some_one o long ranked free =
      let (counted, few) = seed_scattered-count fl c size seed in (_, _, refl, counted, few)
  seed_by-Seeds in_network w g order rank c seed size within whole some_one o long ranked free =
      seed_cluster-count fl c g (dense_start fl w g seed) size within (
        subst (λ k. dense_start fl w g seed < k) whole
          (dense_start-below w g seed (subst (λ k. 1 ≤ k) (sym whole) some_one)))
  seed_by-Seeds in_region w g order rank c seed size within whole some_one o long ranked free =
      let centre = (u32 (new_rng (bit_xor seed 0x9111) 1)).1 % w.n in
      let at : centre < c.n =
        subst (λ k. centre < k) whole
          (mod-lt (u32 (new_rng (bit_xor seed 0x9111) 1)).1
            (subst (λ k. 1 ≤ k) (sym whole) some_one)) in
      let (sized, counted) =
        seed_region-count fl c order (rank centre) size o long
          (subst (λ k. rank centre < k) long (ranked centre at)) free in
      (_, _, refl, counted, omega (arith, sized))

  module _ {Chat : Type 0} (chats : Cohorts fl Chat) where
    begun-n : (ev : Event fl) (s : Sim fl Chat) → (inject_begun fl chats ev s).c.n ≡ s.c.n
    unfolding inject_begun
    begun-n ev s = elim (Bool-cases (fl.lt (fl.of_ℕ 0) ev.difficulty)) [
      | inl hard ↦ rw hard refl
      | inr plain ↦ rw plain refl
    ]

    begun-state :
        (ev : Event fl) (s : Sim fl Chat) → (inject_begun fl chats ev s).c.state ≡ s.c.state
    unfolding inject_begun
    begun-state ev s = elim (Bool-cases (fl.lt (fl.of_ℕ 0) ev.difficulty)) [
      | inl hard ↦ rw hard refl
      | inr plain ↦ rw plain refl
    ]

    seeded-state :
        (ev : Event fl) (b : Sim fl Chat) (c : Contagion fl) → (inject_seeded fl chats ev b c).c ≡ c
    unfolding inject_seeded capture_baseline
    seeded-state ev b c = refl

    -- A story that breaks in a simulation with somebody in it, whose graph and order by places are of its personas, and in
    -- which nobody has heard yet: `Inject` returns, it gives a list of at most the size asked for, 64 if that is not
    -- positive, and just as many personas have adopted.
    pub inject-returns :
        (s : Sim fl Chat) (ev : Event fl)
        → IsWithin s.g s.c.n
        → s.w.n ≡ s.c.n
        → 1 ≤ s.c.n
        → IsOrder s.order
        → s.c.n ≡ length s.order
        → ((i : ℕ) → i < s.c.n → s.rank i < s.c.n)
        → ((i : ℕ) → s.c.state i ≡ unaware)
        → (t : Sim fl Chat) × (ids : List ℕ) × (inject fl chats s ev ≡ some (t, ids))
          × (count fl t.c ≡ length ids)
          × (length ids ≤ size_of fl ev.seed_size)
    unfolding inject inject_begun seeded inject_ended
    inject-returns s ev within whole some_one o long ranked free =
        let b = inject_begun fl chats ev s in
        let n : s.c.n ≡ b.c.n = sym (begun-n ev s) in
        let unheard : (i : ℕ) → b.c.state i ≡ unaware =
          λ i. ap (λ f. f i) (begun-state ev s) ∙ free i in
        let (d, ids, ends, counted, few) =
          seed_by-Seeds ev.seeding s.w s.g s.order s.rank b.c ev.seed (size_of fl ev.seed_size)
            (subst (IsWithin s.g) n within) (whole ∙ n) (subst (λ k. 1 ≤ k) n some_one) o
            (sym n ∙ long) (subst (λ k. (i : ℕ) → i < k → s.rank i < k) n ranked) unheard in
        let nobody : count fl b.c ≡ 0 =
          none-count_below b.c.n (λ i. not (is_unaware (b.c.state i)))
            (λ i below. ap (λ st. not (is_unaware st)) (unheard i)) in
        (
          inject_seeded fl chats ev b d,
          ids,
          ap (inject_ended fl chats ev b) ends,
          ap (count fl) (seeded-state ev b d) ∙ omega (arith, counted, nobody),
          few,
        )
