-- ===== src/Sim/Contagion.antt =====
-- internal/sim/contagion.go: the state of a contagion and one round of it. The arrays are functions of
-- the persona's index, below `n`; rounds stay below 2 ^ 31, and an `AdoptedAt` of -1 is `none`. The
-- work of a round is cut into chunks by the source; each persona's result depends on the old state
-- alone, and so does the model's.
pub mod Rounds
pub mod Rule
pub mod Stalled
pub mod Timing
pub mod Start
use Prim.Native.Nat.{bit_xor}
use populace.Prelude.{
  ℕ, zero, suc, ◌+◌, ◌-◌, ◌*◌, ◌≤◌, ◌<◌, ◌≡◌, Bool, true, false, not, ◌&&◌, ◌||◌, Option, none,
  some, List, [], ◌∷◌, length, ltb, leb, ◌==◌, if◌then◌else◌,
}
use populace.Prelude.Int.{ℤ, pos, ltb_ℤ, leb_ℤ, max_ℤ}
use populace.Prelude.Floats.{Floats}
use populace.Sim.Random.{u64, new_rng, f64}

pub data Status : Type 0 where
  unaware adopted fatigued : Status

abbrev pub is_unaware : Status → Bool
is_unaware unaware = true
is_unaware _ = false

abbrev pub is_adopted : Status → Bool
is_adopted adopted = true
is_adopted _ = false

-- What a round decides for one persona: nothing, or that it adopts, with its `FeedDriven`.
pub data Outcome : Type 0 where
  stays : Outcome
  adopts : Bool → Outcome

abbrev pub is_adoption : Outcome → Bool
is_adoption stays = false
is_adoption (adopts feed_driven) = true

-- `g.Neighbours`.
abbrev pub Network : Type 0
Network = ℕ → List ℕ

-- The adopted among the personas of a row.
unfoldable pub peers : (ℕ → Status) → List ℕ → ℕ
peers state [] = 0
peers state (j ∷ row) =
    let rest = peers state row in if is_adopted (state j) then suc rest else rest

-- How many indices below `n` pass the test.
unfoldable pub count_below : ℕ → (ℕ → Bool) → ℕ
count_below zero p = 0
count_below (suc n) p = let rest = count_below n p in if p n then suc rest else rest

module _ (fl : Floats) where
  open fl use {Float, of_ℕ, ratio, sub, mul, lt, le, pow, ceil}

  pub record Contagion : Type 0 where
    pub n : ℕ
    pub state : ℕ → Status
    pub threshold : ℕ → Float
    pub adopted_at : ℕ → Option ℕ
    pub step : ℕ
    pub min_reinforce : ℤ
    pub transmit_for : ℤ
    pub threshold_scale : Float
    pub simple : Bool
    pub beta : Float
    pub feed_driven : ℕ → Bool
    pub seed : ℕ
    pub base_threshold : ℕ → Float

  -- `scale` of a round.
  abbrev pub scale_of : Contagion → Float
  scale_of c = if le c.threshold_scale (of_ℕ 0) then of_ℕ 1 else c.threshold_scale

  -- A persona that does not look this round.
  unfoldable pub asleep : Contagion → Option (ℕ → Float) → ℕ → Bool
  asleep c none i = false
  asleep c (some activity) i =
      le (activity i) (f64 fl (new_rng (bit_xor c.seed (u64 (c.step * 0xA57A57A5))) i)).1

  abbrev pub shown_to : Option (ℕ → ℕ) → ℕ → ℕ
  shown_to none i = 0
  shown_to (some shown) i = shown i

  -- The confirmations that a persona with so many ties needs.
  unfoldable pub need : Contagion → ℕ → ℕ → ℤ
  need c i degree =
      max_ℤ (ceil (mul (mul (c.threshold i) (scale_of c)) (of_ℕ degree))) c.min_reinforce

  -- The draw of the simple contagion.
  unfoldable pub draw : Contagion → ℕ → ℕ → Bool
  draw c i exposed =
      lt (f64 fl (new_rng (bit_xor c.seed (u64 (c.step * 0x9E3779B1))) i)).1
        (sub (of_ℕ 1) (pow (sub (of_ℕ 1) c.beta) (of_ℕ exposed)))

  -- The rule for a persona that is unaware and awake.
  unfoldable pub decide_on : Contagion → ℕ → ℕ → ℕ → ℕ → Outcome
  decide_on c i degree peer feed =
      let exposed = peer + feed in
      if exposed == 0 || (degree == 0 && feed == 0)
      then stays
      else if c.simple
      then if draw c i exposed then adopts (peer == 0) else stays
      else if leb_ℤ (need c i degree) (pos exposed)
      then adopts (ltb_ℤ (pos peer) (need c i degree))
      else stays

  -- The body of the loop of `AdvanceWith`.
  unfoldable pub evaluate : Contagion → Network → Option (ℕ → ℕ) → Option (ℕ → Float) → ℕ → Outcome
  evaluate c g shown activity i =
      if not (is_unaware (c.state i)) || asleep c activity i
      then stays
      else decide_on c i (length (g i)) (peers c.state (g i)) (shown_to shown i)

  -- `Decay`.
  unfoldable pub spent : Contagion → ℤ → ℕ → Bool
  spent c after i = elim (c.adopted_at i) [
    | none ↦ false
    | some t ↦ is_adopted (c.state i) && leb_ℤ after (pos (c.step - t))
  ]

  unfoldable pub decay : Contagion → ℤ → Contagion
  unfolding spent
  decay c after = record c { state = λ i. if spent c after i then fatigued else c.state i }

  -- The end of a round: `Decay` unless adopters transmit for ever.
  unfoldable pub fade : Contagion → Contagion
  fade c = if ltb_ℤ (pos 0) c.transmit_for then decay c c.transmit_for else c

  -- The new arrays of a round, and the step counted.
  unfoldable pub take_up : Contagion → (ℕ → Outcome) → Contagion
  take_up c decided = record c {
    state = λ i. elim (decided i) [ stays ↦ c.state i | adopts f ↦ adopted ];
    adopted_at = λ i. elim (decided i) [ stays ↦ c.adopted_at i | adopts f ↦ some (c.step + 1) ];
    feed_driven = λ i. elim (decided i) [ stays ↦ c.feed_driven i | adopts f ↦ f ];
    step = c.step + 1;
  }

  -- `AdvanceWith`: the next state, and how many adopted.
  unfoldable pub advance_with :
      Contagion → Network → Option (ℕ → ℕ) → Option (ℕ → Float) → Contagion × ℕ
  advance_with c g shown activity =
      let decided = evaluate c g shown activity in
      (fade (take_up c decided), count_below c.n (λ i. is_adoption (decided i)))

  unfoldable pub advance : Contagion → Network → Contagion × ℕ
  advance c g = advance_with c g none none

  -- `Run`, from the round `rounds` on with `left` rounds to go, and `total` adopted before.
  unfoldable pub run_from : ℕ → Contagion → Network → ℕ → ℕ → Contagion × ℕ × ℕ
  run_from zero c g rounds total = (c, rounds, total)
  run_from (suc left) c g rounds total =
      let d = (advance c g).0 in
      let k = (advance c g).1 in
      let rest = run_from left d g (rounds + 1) (total + k) in
      if k == 0 then (d, rounds + 1, total + k) else rest

  unfoldable pub run : Contagion → Network → ℕ → Contagion × ℕ × ℕ
  unfolding run_from
  run c g max_rounds = run_from max_rounds c g 0 0

  -- `Count`.
  abbrev pub count : Contagion → ℕ
  count c = count_below c.n (λ i. not (is_unaware (c.state i)))

  unfoldable pub reset : Contagion → Contagion
  reset c = record c {
    state = λ i. unaware;
    adopted_at = λ i. none;
    feed_driven = λ i. false;
    threshold = c.base_threshold;
    step = 0;
    threshold_scale = of_ℕ 1;
  }
