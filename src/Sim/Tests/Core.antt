-- ===== src/Sim/Tests/Core.antt =====
-- The theorems on the simulation's operations at two personas that know each other.
use populace.Prelude.{
  ℕ, zero, suc, ◌+◌, ◌≤◌, ◌≡◌, refl, false, Option, none, some, List, [], ◌∷◌, length, arith,
}
use populace.Prelude.Int.{pos}
use populace.Sim.Numbers.{counting}
use populace.World.{World, general}
use populace.Sim.Contagion.{Network, count, count_below}
use populace.Sim.Contagion.Stalled.{IsWithin}
use populace.Sim.Contagion.Start.{ContagionConfig, new_contagion}
use populace.Sim.Media.{Media, new_media, set_enabled, live, quiet}
use populace.Sim.Media.Platforms.{default_platforms}
use populace.Sim.DayNight.{DayNightConfig}
use populace.Sim.Tests.{swapped_below, swapped_once}
use populace.Sim.Core.{Sim, Cohorts}
use populace.Sim.Core.Operations.{advance, inject, restart, new_sim, on_layer}
use populace.Sim.Core.Stories.{Event, in_network, size_of}
use populace.Sim.Core.Reactions.{Reactions, reacts, apply_reactions}
use populace.Sim.Core.Moves.{Reach, here, moves, switches, ticks, reacts as reacted}
use populace.Sim.Core.Currency.{IsCurrent, moves-IsCurrent}
use populace.Sim.Core.Anew.{IsAnew, restart-IsAnew, new_media-IsNewLayer}
use populace.Sim.Core.Control.{is_live, advance-control}
use populace.Sim.Core.Covered.{apply_reactions-count}
use populace.Sim.Core.Breaking.{inject-returns}

abbrev pair : Network
pair zero = 1 ∷ []
pair (suc i) = 0 ∷ []

abbrev people : World ℕ
people = record {
  n = 2;
  seed = 1;
  lon = λ i. i;
  lat = λ i. i;
  arch = λ i. i;
  palette = λ i. i;
  shape = λ i. i;
  strat = λ i. general;
  weight = λ i. 1;
  place = λ i. i;
  urbanity = λ i. 1;
  flags = λ i. 0;
}

abbrev settings : ContagionConfig counting
settings = record {
  mean_threshold = 1;
  spread_log = 1;
  min_reinforce = pos 1;
  transmit_for = pos 3;
  seed = 11;
}

abbrev clock : DayNightConfig counting
clock = record { minutes_per_tick = 60; start_hour_utc = 9; floor = 0; ceiling = 1 }

-- A cohort that counts the ticks.
abbrev tally : Cohorts counting ℕ
tally = record {
  observe = λ s. s.chat + 1;
  new_script = λ s seed stance. 0;
  reset_chat = λ chat. 0;
}

abbrev layer : Option (Media counting)
layer = new_media counting (default_platforms counting) 5 (λ i. 1) (λ i. 1) (λ i. 1)

abbrev town : Sim counting ℕ
town =
    new_sim counting tally 2 people (pair, 1 ∷ 0 ∷ [], λ i. i) settings clock (λ i. (i, 1)) 7 100
      layer 0

abbrev reactions : Reactions counting
reactions zero = some (record { stance = 3; salience = 1; share = 1 })
reactions (suc a) = none

abbrev later : Sim counting ℕ
later = (advance counting tally 2 5 town).0

abbrev later_on : Sim counting ℕ
later_on = record later { m = on_layer counting (λ m. set_enabled counting m false) later.m }

later_on-Reach : Reach counting tally (λ i. (i, 1)) 7 100 town later_on
later_on-Reach = switches later false (moves town later here (ticks town 2 5))

moves-IsCurrent_example : IsCurrent counting (apply_reactions counting 2 1 later_on reactions 1).0
moves-IsCurrent_example =
    moves-IsCurrent counting tally 2 people (pair, 1 ∷ 0 ∷ [], λ i. i) settings clock (λ i. (i, 1))
      7 100 layer 0 later_on (apply_reactions counting 2 1 later_on reactions 1).0 later_on-Reach
      (reacted later_on 2 1 reactions 1)

restart-IsAnew_example :
    IsAnew counting town (restart counting tally 2 (λ i. (i, 1)) 7 100 later_on)
restart-IsAnew_example =
    restart-IsAnew counting tally 2 people (pair, 1 ∷ 0 ∷ [], λ i. i) settings clock (λ i. (i, 1)) 7
      100 layer 0 later_on
      (new_media-IsNewLayer counting (default_platforms counting) 5 (λ i. 1) (λ i. 1) (λ i. 1))
      later_on-Reach

-- No story has broken.
town-quiet : is_live counting tally town.m ≡ false
unfolding new_sim new_media live quiet default_platforms
town-quiet = refl

advance-control_example :
    let (t, adopters, delta) = advance counting tally 2 5 town in
    let (t', adopters', delta') = advance counting tally 2 5 (record town { m = none }) in
    (t.c ≡ t'.c)
    × (t.o ≡ t'.o)
    × (t.frames.tick ≡ t'.frames.tick)
    × (t.hour_utc ≡ t'.hour_utc)
    × (t.history ≡ t'.history)
    × (adopters ≡ adopters')
    × (delta ≡ delta')
advance-control_example = advance-control counting tally 2 5 town town-quiet

apply_reactions-count_example :
    (apply_reactions counting 2 1 town reactions 1).2
    ≡ count_below 2 (λ i. reacts counting (reactions i))
unfolding new_sim
apply_reactions-count_example = apply_reactions-count counting 2 1 town reactions 1 (omega arith)

abbrev story : Event counting
story = record {
  stance = 3;
  salience = 1;
  seeding = in_network;
  seed_size = pos 1;
  seed = 13;
  difficulty = 2;
  hour = some 20;
}

pair-IsWithin : IsWithin pair 2
pair-IsWithin zero h = (omega arith, tt)
pair-IsWithin (suc i) h = (omega arith, tt)

inject-returns_example :
    (t : Sim counting ℕ) × (ids : List ℕ) × (inject counting tally town story ≡ some (t, ids))
    × (count counting t.c ≡ length ids)
    × (length ids ≤ 1)
unfolding new_sim new_contagion size_of
inject-returns_example =
    inject-returns counting tally town story pair-IsWithin refl (omega arith)
      (record { below = swapped_below; once = swapped_once }) refl (λ i h. h) (λ i. refl)
