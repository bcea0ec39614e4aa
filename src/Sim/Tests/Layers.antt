-- ===== src/Sim/Tests/Layers.antt =====
-- The theorems on the history, the opinions and the platforms at concrete inputs.
use populace.Prelude.{
  ℕ, zero, suc, ◌+◌, ◌≤◌, ◌≡◌, ◌⊎◌, inl, refl, ap, Option, true, false, none, some, List, [], ◌∷◌,
  ℕ_discrete, arith,
}
use populace.Sim.Numbers.{counting, with_nan}
use populace.Sim.Contagion.{Status, Network, is_unaware}
use populace.Sim.History.{empty_ring, record_all, history_of, latest}
use populace.Sim.History.Latest.{history_of-record_all}
use populace.Sim.Opinion.{Opinion, Pull, broadcast, settle, step_with, next_y, move, heard, social}
use populace.Sim.Opinion.Rounds.{rounds, broadcast-rounds, IsSettled, iterate, settle_lem}
use populace.Sim.Media.Platforms.{default_platforms}
use populace.Sim.Media.{Media, live}
use populace.Sim.Media.Round.{advance}
use populace.Sim.Media.Exposure.{advance-shown}

abbrev five : List ℕ
five = 1 ∷ 2 ∷ 3 ∷ 4 ∷ 5 ∷ []

last_three : history_of 3 (record_all 3 empty_ring five) ≡ 3 ∷ 4 ∷ 5 ∷ []
unfolding history_of record_all
last_three = refl

history_of-record_all_example : history_of 3 (record_all 3 empty_ring five) ≡ latest 3 five
history_of-record_all_example = history_of-record_all 3 five (omega arith)

-- Two personas that know each other.
abbrev pair : Network
pair zero = 1 ∷ []
pair (suc i) = 0 ∷ []

abbrev opinions : Opinion counting
opinions = record { n = 2; y = λ i. i; prior = λ i. i + 4; lambda = λ i. 1 }

abbrev known : Opinion with_nan
known = record { n = 2; y = λ i. some i; prior = λ i. some (i + 4); lambda = λ i. some 1 }

abbrev pull : Pull with_nan
pull i = (some 9, some 2)

abbrev IsNumber : Option ℕ → Type 0
IsNumber none = ⊥
IsNumber (some x) = Unit {0}

number_anchor :
    (heard : Option ℕ)
    → IsNumber heard
    → with_nan.add (with_nan.mul (some 0) heard) (with_nan.mul (some 1) (some 7)) ≡ some 7
number_anchor none h = absurd h
number_anchor (some x) h = ap some (omega arith)

broadcast-rounds_example :
    (rounds with_nan 2
        (broadcast with_nan known (1 ∷ []) (some 7)).0
        ((pair, none) ∷ (pair, some pull) ∷ [])).y
      1
    ≡ some 7
unfolding broadcast step_with next_y move heard social ℕ_discrete
broadcast-rounds_example =
    broadcast-rounds with_nan IsNumber 2 known (1 ∷ []) (some 7)
      ((pair, none) ∷ (pair, some pull) ∷ []) 1 (record { holds = number_anchor }) (tt, (tt, tt))
      (inl refl)

settle_lem_example :
    let (o', r, d) = settle counting 2 opinions pair 5 1 100 in
    (o' ≡ iterate counting 2 r opinions pair) × IsSettled counting 2 5 opinions pair 1 100 r d
settle_lem_example = settle_lem counting 2 opinions pair 5 1 100

-- A story on every platform.
abbrev stage : Media counting
stage = record {
  platforms = default_platforms counting;
  member = λ i p. true;
  feeds = λ p. record { score = 1; presence = 1; peak = 1; peak_at = 0; feed_mean = 0 };
  exposed = λ i. false;
  seed = 5;
  step = 0;
  enabled = true;
}

abbrev unaware_all : ℕ → Status
unaware_all i = Status.unaware

advance-shown_example :
    let (m', shown) = advance counting 2 4 stage unaware_all (λ i. 1) (λ i. 0) in
    (shown 3 ≤ 4)
    × ((shown 3 ≡ 0)
        ⊎ ((live counting stage ≡ true)
            × (m'.exposed 3 ≡ true)
            × (is_unaware (unaware_all 3) ≡ true)
            × ((p : ℕ) × (stage.member 3 p ≡ true))))
advance-shown_example = advance-shown counting 2 4 stage unaware_all (λ i. 1) (λ i. 0) 3
