-- ===== src/Sim/Contagion/Rule.antt =====
-- The adoption rule of internal/sim/contagion.go: what an adoption needs, and what `FeedDriven` says.
use populace.Prelude.{
  ℕ, ◌+◌, ◌≤◌, ◌≡◌, List, [], ◌∷◌, ◌↔◌, inl, inr, Bool, true, false, Option, none, length, arith,
}
use populace.Prelude.Int.{pos, ltb_ℤ, ◌≤ℤ◌}
use populace.Prelude.Floats.{Floats}
use populace.Sim.Contagion.Rounds.{advance_with-decides, advance_with-feed_driven}
use populace.Sim.Contagion.{
  Status, unaware, adopted, advance_with, stays, adopts, Network, Contagion, peers, asleep,
  shown_to, need, decide_on, evaluate, is_unaware,
}

peers-length : (state : ℕ → Status) (row : List ℕ) → peers state row ≤ length row
unfolding peers
peers-length state [] = omega arith
peers-length state (j ∷ row) = ground (arith, peers-length state row)

module _ (fl : Floats) where
  -- A complex adoption is by `need`.
  decide_on-need :
      (c : Contagion fl) (i degree peer feed : ℕ) (f : Bool)
      → c.simple ≡ false
      → decide_on fl c i degree peer feed ≡ adopts f
      → (need fl c i degree ≤ℤ pos (peer + feed))
        × (1 ≤ peer + feed)
        × (f ≡ ltb_ℤ (pos peer) (need fl c i degree))
  unfolding decide_on
  decide_on-need c i degree peer feed f complex h = ground arith

  decide_on-alone :
      (c : Contagion fl) (i degree peer : ℕ)
      → c.simple ≡ false
      → pos 1 ≤ℤ c.min_reinforce
      → peer ≤ degree
      → (decide_on fl c i degree peer 0 ≡ stays) ↔ (ltb_ℤ (pos peer) (need fl c i degree) ≡ true)
  unfolding decide_on need
  decide_on-alone c i degree peer complex two within = ground arith

  -- Who adopts is unaware and awake.
  awake :
      (c : Contagion fl) (g : Network) (shown : Option (ℕ → ℕ)) (activity : Option (ℕ → fl.Float))
      (i : ℕ) (f : Bool)
      → evaluate fl c g shown activity i ≡ adopts f
      → (is_unaware (c.state i) ≡ true)
        × (asleep fl c activity i ≡ false)
        × (decide_on fl c i (length (g i)) (peers c.state (g i)) (shown_to fl shown i) ≡ adopts f)
  unfolding evaluate
  awake c g shown activity i f h = ground arith

  evaluate-need :
      (c : Contagion fl) (g : Network) (shown : Option (ℕ → ℕ)) (activity : Option (ℕ → fl.Float))
      (i : ℕ) (f : Bool)
      → c.simple ≡ false
      → evaluate fl c g shown activity i ≡ adopts f
      → let exposed = peers c.state (g i) + shown_to fl shown i in
        (c.min_reinforce ≤ℤ pos exposed) × (1 ≤ exposed)
  unfolding need
  evaluate-need c g shown activity i f complex h =
      let (u, w, d) = awake c g shown activity i f h in
      let (enough, some_one, _) = decide_on-need c i _ _ _ f complex d in (ground arith, some_one)

  -- Whoever adopts in a round of the complex mode had at least `MinReinforce` confirmations, and at least
  -- one, from the old adopters among its ties and from its feed together, whatever its threshold.
  pub advance_with-need :
      (c : Contagion fl) (g : Network) (shown : Option (ℕ → ℕ)) (activity : Option (ℕ → fl.Float))
      (i : ℕ)
      → c.simple ≡ false
      → c.state i ≡ unaware
      → (advance_with fl c g shown activity).0.state i ≡ adopted
      → let exposed = peers c.state (g i) + shown_to fl shown i in
        (c.min_reinforce ≤ℤ pos exposed) × (1 ≤ exposed)
  advance_with-need c g shown activity i complex was is =
      elim (advance_with-decides fl c g shown activity i was) [
        | inl (_, still) ↦ ground arith
        | inr (f, h, _) ↦ evaluate-need c g shown activity i f complex h
      ]

  evaluate-counterfactual :
      (c : Contagion fl) (g : Network) (shown : Option (ℕ → ℕ)) (activity : Option (ℕ → fl.Float))
      (i : ℕ) (f : Bool)
      → c.simple ≡ false
      → pos 1 ≤ℤ c.min_reinforce
      → evaluate fl c g shown activity i ≡ adopts f
      → (f ≡ true) ↔ (evaluate fl c g none activity i ≡ stays)
  unfolding evaluate
  evaluate-counterfactual c g shown activity i f complex one h =
      let (u, w, d) = awake c g shown activity i f h in
      let (_, _, driven) = decide_on-need c i _ _ _ f complex d in
      let alone =
        decide_on-alone c i (length (g i)) (peers c.state (g i)) complex one
          (peers-length c.state (g i)) in
      rw (u, w, driven) ((λ lack. alone.1 lack), λ still. alone.0 still)

  -- In the complex mode with a `MinReinforce` of 1 or more `FeedDriven` is a true counterfactual: a persona
  -- that adopts in a round is marked exactly when the same round without any feed leaves it unaware.
  pub feed_driven_counterfactual :
      (c : Contagion fl) (g : Network) (shown : Option (ℕ → ℕ)) (activity : Option (ℕ → fl.Float))
      (i : ℕ)
      → c.simple ≡ false
      → pos 1 ≤ℤ c.min_reinforce
      → c.state i ≡ unaware
      → (advance_with fl c g shown activity).0.state i ≡ adopted
      → ((advance_with fl c g shown activity).0.feed_driven i ≡ true)
        ↔ ((advance_with fl c g none activity).0.state i ≡ unaware)
  feed_driven_counterfactual c g shown activity i complex one was is =
      elim (advance_with-decides fl c g shown activity i was) [
        | inl (_, still) ↦ ground arith
        | inr (f, h, _) ↦
            let same = evaluate-counterfactual c g shown activity i f complex one h in
            rw (advance_with-feed_driven fl c g shown activity i f h)
              (elim (advance_with-decides fl c g none activity i was) [
                | inl (quiet, still) ↦ ((λ driven. still), λ left. same.1 quiet)
                | inr (f', loud, up) ↦
                    ((λ driven. let quiet = same.0 driven in ground arith), λ left. ground arith)
              ])
      ]
