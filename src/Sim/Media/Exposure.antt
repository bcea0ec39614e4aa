-- ===== src/Sim/Media/Exposure.antt =====
-- `Advance` of internal/sim/media.go: to whom a feed shows anything, how much, and what turning it off does.
use populace.Prelude.{
  ℕ, zero, suc, ◌+◌, ◌≤◌, ◌≡◌, ◌⊎◌, inl, inr, refl, Bool, true, false, List, [], ◌∷◌, ltb,
  Bool-cases, arith,
}
use populace.Prelude.Int.{ℤ, pos, negsuc}
use populace.Prelude.Floats.{Floats}
use populace.Sim.Random.{Rng, f64}
use populace.Sim.Contagion.{Status, is_unaware, count_below}
use populace.Sim.Media.Platforms.{Platform}
use populace.Sim.Media.{Media, no_member, live, set_enabled}
use populace.Sim.Media.Round.{
  poisson, poisson_loop, at_most_four, effective_confirmations, reached, refresh, advance,
  feed_pull,
}

at_most_four-le : (z : ℤ) → at_most_four z ≤ 4
unfolding at_most_four
at_most_four-le (pos n) = ground arith
at_most_four-le (negsuc n) = omega arith

module _ (fl : Floats) where
  open fl use {Float, of_ℕ, le}

  -- The feed never counts for more than `maxFeedConfirm`.
  pub effective_confirmations-le : (shown : ℕ) → effective_confirmations fl shown ≤ 4
  unfolding effective_confirmations
  effective_confirmations-le shown =
      ground (arith, at_most_four-le (fl.trunc (fl.mul (fl.ratio 9 10) (fl.sqrt (of_ℕ shown)))))

  no_member-false :
      (bits : ℕ → Bool) (p : ℕ) (pls : List (Platform fl))
      → no_member fl bits p pls ≡ false
      → (q : ℕ) × (bits q ≡ true)
  unfolding no_member
  no_member-false bits p [] h = absurd (cc)
  no_member-false bits p (pl ∷ pls) h = elim (Bool-cases (bits p)) [
    | inl on ↦ (p, on)
    | inr off ↦ no_member-false bits (p + 1) pls (ground arith)
  ]

  -- What reaches a persona reaches one that is on a platform and unaware.
  reached-cases :
      (m : Media fl) (state : ℕ → Status) (i : ℕ)
      → (reached fl m state i ≡ 0)
        ⊎ ((is_unaware (state i) ≡ true) × ((p : ℕ) × (m.member i p ≡ true)))
  unfolding reached
  reached-cases m state i = elim (Bool-cases (no_member fl (m.member i) 0 m.platforms)) [
    | inl nowhere ↦ rw nowhere (inl refl)
    | inr somewhere ↦ elim (Bool-cases (is_unaware (state i))) [
      | inl free ↦ inr (free, no_member-false (m.member i) 0 m.platforms somewhere)
      | inr taken ↦ rw (somewhere, taken) (inl refl)
    ]
  ]

  poisson_loop-le :
      (left : ℕ) (r : Rng) (l : Float) (k : ℕ) (p : Float) → poisson_loop fl left r l k p ≤ k + left
  unfolding poisson_loop
  poisson_loop-le zero r l k p = omega arith
  poisson_loop-le (suc left) r l k p =
      let (r', u) = f64 fl r in ground (arith, poisson_loop-le left r' l (k + 1) (fl.mul p u))

  -- A platform's posts to one persona in a round are at most 32.
  poisson-le : (r : Rng) (lambda : Float) → poisson fl r lambda ≤ 32
  unfolding poisson
  poisson-le r lambda = ground (arith, poisson_loop-le 32 r _ 0 (of_ℕ 1))

  -- What the feed does to a persona, by how many posts have reached it.
  counted :
      (m : Media fl) (state : ℕ → Status) (i : ℕ)
      → (effective_confirmations fl (reached fl m state i) ≡ 0)
        ⊎ ((ltb 0 (reached fl m state i) ≡ true)
            × (is_unaware (state i) ≡ true)
            × ((p : ℕ) × (m.member i p ≡ true)))
  unfolding effective_confirmations
  counted m state i = elim (reached-cases m state i) [
    | inl nothing ↦ rw nothing (inl refl)
    | inr (free, on) ↦ elim (Bool-cases (ltb 0 (reached fl m state i))) [
      | inl some_posts ↦ inr (some_posts, free, on)
      | inr no_posts ↦
          let nothing : reached fl m state i ≡ 0 = ground arith in rw nothing (inl refl)
    ]
  ]

  -- Whatever the floats are: a round of the platforms counts for at most 4 confirmations for a persona, and for more
  -- than none only if the layer is on and a story alive on it, and the persona is unaware and on a platform, and it is
  -- then marked as exposed.
  pub advance-shown :
      (gomaxprocs n : ℕ) (m : Media fl) (state : ℕ → Status) (weight y : ℕ → Float) (i : ℕ)
      → let (m', shown) = advance fl gomaxprocs n m state weight y in
        (shown i ≤ 4)
        × ((shown i ≡ 0)
            ⊎ ((live fl m ≡ true)
                × (m'.exposed i ≡ true)
                × (is_unaware (state i) ≡ true)
                × ((p : ℕ) × (m.member i p ≡ true))))
  unfolding advance refresh
  advance-shown gomaxprocs n m state weight y i = elim (Bool-cases (live fl m)) [
    | inr dead ↦ rw dead (omega arith, inl refl)
    | inl alive ↦ rw alive (
      effective_confirmations-le _,
      elim (counted (refresh fl gomaxprocs n m state weight y) state i) [
        | inl none_left ↦ inl none_left
        | inr (posts, free, on) ↦ inr (refl, posts, free, on)
      ],
    )
  ]

  none_below : (n : ℕ) → count_below n (λ i. false) ≡ 0
  unfolding count_below
  none_below zero = refl
  none_below (suc n) = none_below n

  -- With the layer switched off nobody is exposed, a round of it shows nothing and leaves it as it is, and its feeds
  -- pull nobody.
  pub set_enabled-advance :
      (gomaxprocs n : ℕ) (m : Media fl) (state : ℕ → Status) (weight y : ℕ → Float)
      → let off = set_enabled fl m false in
        (advance fl gomaxprocs n off state weight y ≡ (off, λ i. 0))
        × ((i : ℕ) → feed_pull fl off y i ≡ (of_ℕ 0, of_ℕ 0))
        × (count_below n off.exposed ≡ 0)
  unfolding advance set_enabled live feed_pull
  set_enabled-advance gomaxprocs n m state weight y = (refl, λ i. refl, none_below n)
