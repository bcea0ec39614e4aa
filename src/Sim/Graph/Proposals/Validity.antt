-- ===== src/Sim/Graph/Proposals/Validity.antt =====
-- `proposals` and `hubPool` of internal/sim/graph.go: whom a persona can propose.
use populace.Prelude.{
  ℕ, zero, suc, ◌+◌, ◌-◌, ◌%◌, ◌≤◌, ◌<◌, ◌≡◌, ◌≢◌, inl, inr, sym, ap, ◌∙◌, subst, Bool, true, false,
  List, [], ◌∷◌, ◌++◌, length, length-append, get_or, All, All-mono, All-append, ltb, ltb→lt,
  lt→ltb, ◌==◌, ==_iff, if◌then◌else◌, Bool-cases, arith,
}
use populace.Prelude.Int.{ℤ, pos, negsuc, ◌+ℤ◌, ◌-ℤ◌}
use native.Mathlib.Nat.{mod-lt}
use populace.Prelude.Floats.{Floats}
use populace.Sim.Random.{Rng, f64}
use populace.Sim.Seeding.{rem, wrap}
use populace.Sim.Graph.{slice}
use populace.Sim.Graph.Rank.{bucket_by_archetype}
use populace.Sim.Graph.Rank.Order.{order-rank, slice-get_or, slice-length}
use populace.Sim.Graph.Rank.Archetypes.{those, bucket_by_archetype-those}
use populace.World.{Stratum}
use populace.Sim.Graph.Proposals.{
  GraphConfig, Builder, fill, collect, hub_pool, near, alike, hub, candidate, propose, proposals,
  new_builder, degree_of,
}

-- Go's remainder, moved up if it is negative, is below the modulus.
pub wrap-rem-lt : (n : ℕ) (x : ℤ) → 1 ≤ n → wrap n (rem x n) < n
unfolding wrap ◌+ℤ◌ ◌-ℤ◌
wrap-rem-lt n (pos p) some_one = let h : p % n < n = mod-lt p (omega arith) in ground arith
wrap-rem-lt n (negsuc p) some_one =
    let h : suc p % n < n = mod-lt (suc p) (omega arith) in ground arith

get_or-All : (P : ℕ → Type 0) (xs : List ℕ) (k : ℕ) → All P xs → k < length xs → P (get_or xs k 0)
get_or-All P [] k a below = absurd (omega arith)
get_or-All P (x ∷ xs) zero a below = a.0
get_or-All P (x ∷ xs) (suc k) a below = get_or-All P xs k a.1 (omega arith)

those-All : (n : ℕ) (p : ℕ → Bool) → All (λ i. (i < n) × (p i ≡ true)) (those n p)
unfolding those
those-All zero p = tt
those-All (suc n) p =
    let up =
      All-mono (λ i. (i < n) × (p i ≡ true)) (λ i. (i < suc n) × (p i ≡ true)) (those n p)
        (λ i h. (omega arith, h.1)) (those-All n p) in
    elim (Bool-cases (p n)) [
      | inl on ↦ rw on (
          All-append (λ i. (i < suc n) × (p i ≡ true)) (those n p) (n ∷ []) up
            ((omega arith, on), tt))
      | inr off ↦ rw off up
    ]

-- What stands in the bucket of an archetype is a persona of the archetype.
bucket-member :
    (n : ℕ) (arch : ℕ → ℕ) (a k : ℕ)
    → let b = bucket_by_archetype n arch in
      k < b.off (a + 1) - b.off a
      → (b.members (b.off a + k) < n) × (arch (b.members (b.off a + k)) ≡ a)
bucket-member n arch a k within =
    let b = bucket_by_archetype n arch in
    let size = b.off (a + 1) - b.off a in
    let whole = bucket_by_archetype-those arch n a in
    let at = slice-get_or b.members (b.off a) size k within in
    let long = ap length (sym whole) ∙ slice-length b.members (b.off a) size in
    let of =
      get_or-All (λ i. (i < n) × ((arch i == a) ≡ true)) (those n (λ i. arch i == a)) k
        (those-All n (λ i. arch i == a)) (omega (arith, long)) in
    let entry = ap (λ xs. get_or xs k 0) (sym whole) ∙ at in
    (subst (λ q. q < n) entry of.0, (==_iff _ a).0 (subst (λ q. (arch q == a) ≡ true) entry of.1))

module _ (fl : Floats) where
  fill-All :
      (room : ℕ) (acc next step : fl.Float) (i n : ℕ) (pool : List ℕ)
      → i < n
      → All (λ v. v < n) pool
      → let pool' = (fill fl room acc next step i pool).1 in
        All (λ v. v < n) pool' × (length pool' ≤ length pool + room)
  unfolding fill
  fill-All zero acc next step i n pool below a = (a, omega arith)
  fill-All (suc room) acc next step i n pool below a = elim (Bool-cases (fl.lt next acc)) [
    | inl more ↦
        let (ih, bound) =
          fill-All room acc (fl.add next step) step i n (pool ++ i ∷ []) below
            (All-append (λ v. v < n) pool (i ∷ []) a (below, tt)) in
        rw more (ih, omega (arith, bound, length-append pool (i ∷ [])))
    | inr full ↦ rw full (a, omega arith)
  ]

  collect-All :
      (m : ℕ) (acc next step : fl.Float) (i n : ℕ) (pool deg : List ℕ)
      → i + length deg ≤ n
      → All (λ v. v < n) pool
      → length pool ≤ m
      → let pool' = collect fl m acc next step i pool deg in
        All (λ v. v < n) pool' × (length pool' ≤ m)
  unfolding collect
  collect-All m acc next step i n pool [] short a few = (a, few)
  collect-All m acc next step i n pool (d ∷ deg) short a few =
      let acc' = fl.add acc (fl.of_ℕ d) in
      let (a', few') = fill-All (m - length pool) acc' next step i n pool (omega arith) a in
      let filled = fill fl (m - length pool) acc' next step i pool in
      collect-All m acc' filled.0 step (i + 1) n filled.1 deg (omega arith) a' (omega arith)

  or_first :
      (m n : ℕ) (pool : List ℕ)
      → 1 ≤ n
      → m ≤ n
      → m ≤ 1048576
      → All (λ v. v < n) pool × (length pool ≤ m)
      → let pool' = if length pool == 0 then 0 ∷ [] else pool in
        All (λ v. v < n) pool' × (1 ≤ length pool') × (length pool' ≤ n) × (length pool' ≤ 1048576)
  or_first m n [] some_one few few' a = omega arith
  or_first m n (v ∷ pool) some_one few few' a =
      let some_more : (length (v ∷ pool) == 0) ≡ false = ground arith in
      rw some_more (a.0, omega arith, omega arith, omega arith)

  -- The pool of hubs is never empty, has personas of the population only, and at most as many as the population
  -- or 2 ^ 20, whichever is less.
  pub hub_pool-All :
      (deg : List ℕ) (seed : ℕ)
      → 1 ≤ length deg
      → let pool = hub_pool fl deg seed in
        All (λ v. v < length deg) pool
        × (1 ≤ length pool)
        × (length pool ≤ length deg)
        × (length pool ≤ 1048576)
  unfolding hub_pool
  hub_pool-All deg seed some_one =
      let m = if ltb (length deg) 1048576 then length deg else 1048576 in
      or_first m (length deg) _ some_one (ground arith) (ground arith)
        (collect-All m _ _ _ 0 (length deg) [] deg (omega arith) tt (omega arith))

  -- What a builder is to be for its candidates to be of the population.
  pub record IsSound (b : Builder fl) : Type 0 where
    pub some_one : 1 ≤ b.n
    pub ordered : (p : ℕ) → p < b.n → b.order p < b.n
    pub bucketed :
        (a k : ℕ)
        → k < b.arch_off (a + 1) - b.arch_off a
        → (b.arch_members (b.arch_off a + k) < b.n)
          × (b.arch (b.arch_members (b.arch_off a + k)) ≡ a)
    pub some_hub : 1 ≤ length b.hubs
    pub hubs_within : All (λ v. v < b.n) b.hubs

  near-lt : (b : Builder fl) (i : ℕ) (r : Rng) → IsSound b → (near fl b i r).1 < b.n
  unfolding near
  near-lt b i r s = s.ordered _ (wrap-rem-lt b.n _ s.some_one)

  -- A tie by likeness is to a persona of the same archetype, wherever there is one.
  pub alike-arch :
      (b : Builder fl) (i : ℕ) (r : Rng)
      → IsSound b
      → b.arch_off (b.arch i) < b.arch_off (b.arch i + 1)
      → b.arch (alike fl b i r).1 ≡ b.arch i
  unfolding alike
  alike-arch b i r s some_alike =
      rw (lt→ltb (b.arch_off (b.arch i)) (b.arch_off (b.arch i + 1)) some_alike)
        (s.bucketed (b.arch i) _ (mod-lt _ (omega arith))).1

  alike-lt : (b : Builder fl) (i : ℕ) (r : Rng) → IsSound b → (alike fl b i r).1 < b.n
  unfolding alike
  alike-lt b i r s = elim (Bool-cases (ltb (b.arch_off (b.arch i)) (b.arch_off (b.arch i + 1)))) [
    | inl some_alike ↦
        let less = ltb→lt _ _ some_alike in
        rw some_alike (s.bucketed (b.arch i) _ (mod-lt _ (omega arith))).0
    | inr alone ↦ rw alone (mod-lt _ (omega (arith, s.some_one)))
  ]

  hub-lt : (b : Builder fl) (r : Rng) → IsSound b → (hub fl b r).1 < b.n
  unfolding hub
  hub-lt b r s =
      get_or-All (λ v. v < b.n) b.hubs _ s.hubs_within (mod-lt _ (omega (arith, s.some_hub)))

  candidate-lt : (b : Builder fl) (i : ℕ) (r : Rng) → IsSound b → (candidate fl b i r).1 < b.n
  unfolding candidate
  candidate-lt b i r s =
      let u = f64 fl r in
      elim (Bool-cases (fl.lt u.1 b.cfg.prop_geo)) [
        | inl geo ↦ rw geo (near-lt b i u.0 s)
        | inr not_geo ↦ elim (Bool-cases (fl.lt u.1 (fl.add b.cfg.prop_geo b.cfg.prop_homophily))) [
          | inl hom ↦ rw (not_geo, hom) (alike-lt b i u.0 s)
          | inr far ↦ rw (not_geo, far) (hub-lt b u.0 s)
        ]
      ]

  abbrev IsProposed : Builder fl → ℕ → List ℕ → Type 0
  IsProposed b i out = All (λ v. (v < b.n) × (v ≢ i)) out

  propose-All :
      (left : ℕ) (b : Builder fl) (i : ℕ) (r : Rng) (out : List ℕ)
      → IsSound b
      → IsProposed b i out
      → let all = propose fl left b i r out in IsProposed b i all × (length all ≤ length out + left)
  unfolding propose
  propose-All zero b i r out s a = (a, omega arith)
  propose-All (suc left) b i r out s a =
      let c = candidate fl b i r in
      elim (Bool-cases (c.1 == i)) [
        | inl self ↦
            let (ih, bound) = propose-All left b i c.0 out s a in rw self (ih, omega (arith, bound))
        | inr other ↦
            let (ih, bound) = propose-All left b i c.0 (out ++ c.1 ∷ []) s (
              All-append (λ v. (v < b.n) × (v ≢ i)) out (c.1 ∷ []) a
                ((candidate-lt b i r s, λ e. ground arith), tt)) in
            rw other (ih, omega (arith, bound, length-append out (c.1 ∷ [])))
      ]

  pub proposals-All :
      (b : Builder fl) (i : ℕ)
      → IsSound b
      → IsProposed b i (proposals fl b i) × (length (proposals fl b i) ≤ b.kdeg i)
  unfolding proposals
  proposals-All b i s =
      let (all, few) = propose-All (b.kdeg i) b i _ [] s tt in (all, omega (arith, few))

  -- The ranks, the buckets and the pool of a population that is not empty make a sound builder.
  pub new_builder-IsSound :
      (n : ℕ) (cfg : GraphConfig fl) (cell arch : ℕ → ℕ) (strat : ℕ → Stratum)
      (reach : ℕ → fl.Float)
      → 1 ≤ n
      → IsSound (new_builder fl n cfg cell arch strat reach)
  unfolding new_builder
  new_builder-IsSound n cfg cell arch strat reach some_one =
      let kdeg = degree_of fl cfg strat reach in
      let many = slice-length kdeg 0 n in
      let pool = hub_pool-All (slice kdeg 0 n) cfg.seed (omega (arith, many)) in
      record {
        some_one = some_one;
        ordered = λ p below. ((order-rank n cell).1 p below).0;
        bucketed = bucket-member n arch;
        some_hub = pool.1;
        hubs_within =
            subst (λ q. All (λ v. v < q) (hub_pool fl (slice kdeg 0 n) cfg.seed)) many pool.0;
      }
