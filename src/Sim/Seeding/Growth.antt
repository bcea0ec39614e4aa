-- ===== src/Sim/Seeding/Growth.antt =====
-- The seeds of internal/sim/contagion.go: what they add to the adopters, and that each of them ends.
use populace.Prelude.{
  ℕ, zero, suc, ◌+◌, ◌*◌, ◌%◌, ◌≤◌, ◌<◌, ◌≡◌, ◌≢◌, refl, sym, ap, ◌∙◌, Bool, true, false, not, some,
  List, [], ◌∷◌, ◌++◌, length, length-append, All, All-append, ltb, ◌==◌, assign, assign_self,
  assign_ne, ℕ_discrete, Bool-cases, arith, inl, inr,
}
use native.Mathlib.Nat.{mod-lt}
use populace.Prelude.Floats.{Floats}
use populace.Sim.Random.{Rng, new_rng, u32}
use populace.Sim.Contagion.{adopted, is_unaware, Contagion, Network, count_below, count}
use populace.Sim.Contagion.Stalled.{IsWithin}
use populace.Sim.Seeding.{enqueue, seed_one, scatter, seed_scattered, grow, seed_cluster}

pub count_below-ext :
    (n : ℕ) (p q : ℕ → Bool) → ((j : ℕ) → j < n → q j ≡ p j) → count_below n q ≡ count_below n p
unfolding count_below
count_below-ext zero p q h = refl
count_below-ext (suc n) p q h =
    rw (h n (omega arith), count_below-ext n p q (λ j below. h j (omega arith))) refl

pub count_below-le : (n : ℕ) (p : ℕ → Bool) → count_below n p ≤ n
unfolding count_below
count_below-le zero p = omega arith
count_below-le (suc n) p = ground (arith, count_below-le n p)

-- A test that holds at one more index.
pub count_below-gain :
    (n : ℕ) (p q : ℕ → Bool) (i : ℕ)
    → i < n
    → p i ≡ false
    → q i ≡ true
    → ((j : ℕ) → j ≢ i → q j ≡ p j)
    → count_below n q ≡ suc (count_below n p)
unfolding count_below
count_below-gain zero p q i below off on same = ground arith
count_below-gain (suc n) p q i below off on same = elim (ℕ_discrete n i) [
  | yes top ↦
      let rest = count_below-ext n p q (λ j lower. same j (λ e. ground arith)) in
      let out : p n ≡ false = rw top off in
      let into : q n ≡ true = rw top on in rw (out, into, rest) refl
  | no lower ↦ rw (same n lower, count_below-gain n p q i (ground arith) off on same) (ground arith)
]

abbrev unseen : ℕ → (ℕ → Bool) → ℕ
unseen n seen = count_below n (λ j. not (seen j))

unseen-assign :
    (n : ℕ) (seen : ℕ → Bool) (u : ℕ)
    → u < n
    → seen u ≡ false
    → unseen n seen ≡ suc (unseen n (assign ℕ_discrete seen u true))
unseen-assign n seen u below new =
    count_below-gain n (λ j. not (assign ℕ_discrete seen u true j)) (λ j. not (seen j)) u below
      (ap not (assign_self ℕ_discrete seen u true)) (rw new refl)
      (λ j other. sym (ap not (assign_ne ℕ_discrete seen u j true (λ e. other (sym e)))))

-- Whoever joins the queue is seen from then on.
enqueue-unseen :
    (n : ℕ) (seen : ℕ → Bool) (queue row : List ℕ)
    → All (λ j. j < n) row
    → All (λ j. j < n) queue
    → let next = enqueue seen queue row in
      (unseen n next.0 + length next.1 ≡ unseen n seen + length queue) × All (λ j. j < n) next.1
unfolding enqueue
enqueue-unseen n seen queue [] inside within = (refl, within)
enqueue-unseen n seen queue (u ∷ row) inside within = elim (Bool-cases (seen u)) [
  | inl old ↦ rw old (enqueue-unseen n seen queue row inside.1 within)
  | inr new ↦
      let (sum, all) =
        enqueue-unseen n (assign ℕ_discrete seen u true) (queue ++ u ∷ []) row inside.1
          (All-append (λ j. j < n) queue (u ∷ []) within (inside.0, tt)) in
      rw new
        (omega (arith, sum, unseen-assign n seen u inside.0 new, length-append queue (u ∷ [])), all)
]

module _ (fl : Floats) where
  -- From `c` and `ids` to `d` and `ids'` the adopters have grown by the personas that joined the list.
  pub record Grown (c : Contagion fl) (ids : List ℕ) (d : Contagion fl) (ids' : List ℕ)
      : Type 0 where
    pub same_n : d.n ≡ c.n
    pub counted : count fl d + length ids ≡ count fl c + length ids'

  pub Grown-refl : (c : Contagion fl) (ids : List ℕ) → Grown c ids c ids
  Grown-refl c ids = record { same_n = refl; counted = refl }

  pub Grown-trans :
      (c : Contagion fl) (ids : List ℕ) (d : Contagion fl) (ids' : List ℕ) (e : Contagion fl)
      (ids'' : List ℕ)
      → Grown c ids d ids'
      → Grown d ids' e ids''
      → Grown c ids e ids''
  Grown-trans c ids d ids' e ids'' a b = record {
    same_n = b.same_n ∙ a.same_n;
    counted = omega (arith, a.counted, b.counted);
  }

  pub seed_one-Grown :
      (c : Contagion fl) (ids : List ℕ) (i : ℕ)
      → i < c.n
      → let one = seed_one fl c ids i in Grown c ids one.0 one.1 × (length one.1 ≤ suc (length ids))
  unfolding seed_one
  seed_one-Grown c ids i below =
      let after = assign ℕ_discrete c.state i adopted in
      let joined = length-append ids (i ∷ []) in
      elim (Bool-cases (is_unaware (c.state i))) [
        | inl free ↦
            let gain =
              count_below-gain c.n (λ j. not (is_unaware (c.state j)))
                (λ j. not (is_unaware (after j))) i below (rw free refl)
                (ap (λ s. not (is_unaware s)) (assign_self ℕ_discrete c.state i adopted))
                (λ j other.
                  ap (λ s. not (is_unaware s))
                    (assign_ne ℕ_discrete c.state i j adopted (λ e. other (sym e)))) in
            rw free (
              record { same_n = refl; counted = omega (arith, gain, joined) },
              omega (arith, joined),
            )
        | inr taken ↦ rw taken (Grown-refl c ids, omega arith)
      ]

  -- A list of at most `k`, if it was.
  scatter-Grown :
      (tries : ℕ) (c : Contagion fl) (r : Rng) (k : ℕ) (ids : List ℕ)
      → 1 ≤ c.n
      → length ids ≤ k
      → let all = scatter fl tries c r k ids in Grown c ids all.0 all.1 × (length all.1 ≤ k)
  unfolding scatter
  scatter-Grown zero c r k ids some_one short = (Grown-refl c ids, short)
  scatter-Grown (suc tries) c r k ids some_one short = elim (Bool-cases (ltb (length ids) k)) [
    | inl more ↦
        let i = (u32 r).1 % c.n in
        let (step, one_more) = seed_one-Grown c ids i (mod-lt _ (omega arith)) in
        let one = seed_one fl c ids i in
        let (rest, bound) =
          scatter-Grown tries one.0 (u32 r).0 k one.1 (rw step.same_n some_one) (ground arith) in
        rw more (Grown-trans c ids one.0 one.1 _ _ step rest, bound)
    | inr full ↦ rw full (Grown-refl c ids, short)
  ]

  -- `SeedScattered` returns at most `k` personas, and the adopters grow by as many as it returns.
  pub seed_scattered-count :
      (c : Contagion fl) (k seed : ℕ)
      → let (d, ids) = seed_scattered fl c k seed in
        (count fl d ≡ count fl c + length ids) × (length ids ≤ k)
  unfolding seed_scattered
  seed_scattered-count c k seed = elim (Bool-cases (c.n == 0)) [
    | inl nobody ↦ rw nobody (omega arith, omega arith)
    | inr some_one ↦
        let (grown, bound) =
          scatter-Grown (20 * k + 1000) c (new_rng seed 0x11) k [] (ground arith) (omega arith) in
        rw some_one (omega (arith, grown.counted), bound)
  ]

  grow-Grown :
      (fuel : ℕ) (c : Contagion fl) (g : Network) (k : ℕ) (seen : ℕ → Bool) (queue ids : List ℕ)
      → IsWithin g c.n
      → All (λ j. j < c.n) queue
      → unseen c.n seen + length queue ≤ fuel
      → length ids ≤ k
      → (d : Contagion fl) × (ids' : List ℕ) × (grow fl fuel c g k seen queue ids ≡ some (d, ids'))
        × Grown c ids d ids'
        × (length ids' ≤ k)
  unfolding grow
  grow-Grown fuel c g k seen [] ids within inside enough short =
      (c, ids, refl, Grown-refl c ids, short)
  grow-Grown zero c g k seen (v ∷ queue) ids within inside enough short = ground arith
  grow-Grown (suc fuel) c g k seen (v ∷ queue) ids within inside enough short =
      elim (Bool-cases (ltb (length ids) k)) [
        | inl more ↦
            let (step, one_more) = seed_one-Grown c ids v inside.0 in
            let one = seed_one fl c ids v in
            let next = enqueue seen queue (g v) in
            let (sum, all) = enqueue-unseen c.n seen queue (g v) (within v inside.0) inside.1 in
            let (d, ids', ends, rest, bound) =
              grow-Grown fuel one.0 g k next.0 next.1 one.1 (rw step.same_n within)
                (rw step.same_n all) (rw step.same_n omega (arith, sum, enough)) (ground arith) in
            (d, ids', rw more ends, Grown-trans c ids one.0 one.1 d ids' step rest, bound)
        | inr full ↦ (c, ids, rw full refl, Grown-refl c ids, short)
      ]

  -- `SeedCluster` from a persona of the population, on a graph whose ties stay in it, ends within `n` rounds
  -- of its loop; it returns at most `k` personas, and the adopters grow by as many as it returns.
  pub seed_cluster-count :
      (c : Contagion fl) (g : Network) (start k : ℕ)
      → IsWithin g c.n
      → start < c.n
      → (d : Contagion fl) × (ids : List ℕ) × (seed_cluster fl c g start k ≡ some (d, ids))
        × (count fl d ≡ count fl c + length ids)
        × (length ids ≤ k)
  unfolding seed_cluster
  seed_cluster-count c g start k within below =
      let first = unseen-assign c.n (λ i. false) start below refl in
      let room : unseen c.n (assign ℕ_discrete (λ i. false) start true) + 1 ≤ c.n =
        omega (arith, first, count_below-le c.n (λ i. true)) in
      let (d, ids, ends, grown, bound) =
        grow-Grown c.n c g k (assign ℕ_discrete (λ i. false) start true) (start ∷ []) [] within
          (below, tt) room (omega arith) in
      (d, ids, ends, omega (arith, grown.counted), bound)
