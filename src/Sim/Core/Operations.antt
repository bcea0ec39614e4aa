-- ===== src/Sim/Core/Operations.antt =====
-- internal/sim/sim.go and reactions.go: `New` of the parts that are given, `Inject`, `Advance`, `Reset`, `Snapshot` and
-- `ApplyReactions`.
use Prim.Native.Nat.{bit_xor}
use populace.Prelude.{ℕ, ◌+◌, false, Option, none, some, List, [], if◌then◌else◌}
use populace.Prelude.Floats.{Floats}
use populace.World.{World}
use populace.Sim.Random.{new_rng}
use populace.Sim.Contagion.{Contagion, Network, advance_with, reset}
use populace.Sim.Contagion.Start.{ContagionConfig, new_contagion, reach}
use populace.Sim.Opinion.{
  Opinion, Pull, new_opinion, step_with, settle, broadcast, mean, polarisation,
}
use populace.Sim.Media.{Media, live, ignite}
use populace.Sim.Media as Layer
use populace.Sim.Media.Round.{feed_pull, exposed_count}
use populace.Sim.Media.Round as Round
use populace.Sim.DayNight.{DayNightConfig, runs, wrap_hour, day_night_activity}
use populace.Sim.Frames.{Stream, repack, resync}
use populace.Sim.History.{empty_ring, record_sample, reset_history}
use populace.Sim.Core.{Sim, Sample, Baseline, Cohorts}
use populace.Sim.Core.Flags.{flags_for}
use populace.Sim.Core.Groups.{capture_baseline}
use populace.Sim.Core.Stories.{Event, carriers, seeded}

-- `historyLen`.
abbrev pub history_len : ℕ
history_len = 1800

module _ (fl : Floats) where
  open fl use {Float, of_ℕ, ratio, add, sub, mul, div, lt, le, eq}

  -- A call of the media layer, if there is one.
  abbrev pub on_layer : (Media fl → Media fl) → Option (Media fl) → Option (Media fl)
  on_layer f none = none
  on_layer f (some m) = some (f m)

  -- `repack` or `resync`.
  abbrev pub refreshed : {Chat : Type 0} → (Stream → (ℕ → ℕ) → Stream) → Sim fl Chat → Sim fl Chat
  refreshed pack s = record s { frames = pack s.frames (flags_for fl s) }

  module _ {Chat : Type 0} (chats : Cohorts fl Chat) where
    open chats use {observe, new_script, reset_chat}

    -- `Inject` from the seeding on.
    unfoldable pub inject_seeded : Event fl → Sim fl Chat → Contagion fl → Sim fl Chat
    inject_seeded ev s c =
        let lit : Sim fl Chat = record s {
          c = c;
          m = on_layer (λ m. ignite fl m ev.salience) s.m;
        } in
        let scripted : Sim fl Chat = record lit { chat = new_script lit ev.seed ev.stance } in
        let (against, in_favour) = polarisation fl s.o s.w (ratio 35 100) in
        let based : Sim fl Chat = record scripted {
          base_opinion = mean fl s.o s.w;
          base_neg = against;
          base_pos = in_favour;
        } in
        let captured = capture_baseline fl based in
        refreshed resync (record captured { history = reset_history captured.history })

    -- `Inject` up to the seeding.
    unfoldable pub inject_begun : Event fl → Sim fl Chat → Sim fl Chat
    inject_begun ev s =
        let r = new_rng (bit_xor ev.seed 0xE7E7) 0 in
        let set_to : Float = elim ev.hour [
          | none ↦ s.hour_utc
          | some h ↦ if runs fl s.day_night then wrap_hour fl h else s.hour_utc
        ] in
        let harder : Contagion fl =
          if lt (of_ℕ 0) ev.difficulty
          then record s.c { threshold_scale = ev.difficulty }
          else s.c in
        record s {
          hour_utc = set_to;
          o = (broadcast fl s.o (carriers fl s.w.n 0 s.w.strat ev.salience r) ev.stance).0;
          c = harder;
        }

    unfoldable pub inject_ended :
        Event fl → Sim fl Chat → Option (Contagion fl × List ℕ) → Option (Sim fl Chat × List ℕ)
    unfolding inject_seeded
    inject_ended ev s none = none
    inject_ended ev s (some (c, ids)) = some (inject_seeded ev s c, ids)

    -- `Inject`; `none` when the fuel of the seeding is spent.
    unfoldable pub inject : Sim fl Chat → Event fl → Option (Sim fl Chat × List ℕ)
    unfolding inject_ended inject_begun seeded
    inject s ev =
        let t = inject_begun ev s in inject_ended ev t (seeded fl t.w t.g t.order t.rank t.c ev)

    -- What the layer shows in a round, and the layer after it.
    unfoldable pub show : ℕ → Sim fl Chat → Option (Media fl) × Option (ℕ → ℕ)
    show gomaxprocs s = elim s.m [
      | none ↦ (none, none)
      | some m ↦
          let (m', shown) = Round.advance fl gomaxprocs s.w.n m s.c.state s.w.weight s.o.y in
          if m.enabled then (some m', some shown) else (some m, none)
    ]

    -- What the feed pulls to; nothing if the layer is not live.
    unfoldable pub pull_of : Option (Media fl) → (ℕ → Float) → Option (Pull fl)
    pull_of none y = none
    pull_of (some m) y = if live fl m then some (feed_pull fl m y) else none

    unfoldable pub noted : Sim fl Chat → ℕ → Float → Sim fl Chat
    noted s new_adopters ms =
        let sample : Sample fl = record {
          tick = s.frames.tick;
          reach = reach fl s.c s.w;
          new_adopters = new_adopters;
          shift = sub (mean fl s.o s.w) s.base_opinion;
          tick_ms = ms;
        } in
        record s {
          tick_ms =
              if eq s.tick_ms (of_ℕ 0)
              then ms
              else add (mul s.tick_ms (ratio 9 10)) (mul ms (ratio 1 10));
          history = record_sample history_len s.history sample;
        }

    -- `Advance`, on so many processors and in so many milliseconds.
    unfoldable pub advance : ℕ → Float → Sim fl Chat → Sim fl Chat × ℕ × Float
    unfolding show pull_of noted
    advance gomaxprocs ms s =
        let (m', shown) = show gomaxprocs s in
        let activity =
          if runs fl s.day_night
          then some (day_night_activity fl s.day_night s.hour_utc s.w.lon)
          else none in
        let (c', new_adopters) = advance_with fl s.c s.g shown activity in
        let (o', delta) = step_with fl gomaxprocs s.o s.g (pull_of m' s.o.y) in
        let later =
          if runs fl s.day_night
          then wrap_hour fl (add s.hour_utc (div s.day_night.minutes_per_tick (of_ℕ 60)))
          else s.hour_utc in
        let moved : Sim fl Chat = record s {
          m = m';
          c = c';
          o = o';
          hour_utc = later;
          frames = record s.frames { tick = s.frames.tick + 1 };
        } in
        let watched : Sim fl Chat = record moved { chat = observe moved } in
        (noted (refreshed repack watched) new_adopters ms, new_adopters, delta)

    -- The opinions of a simulation that begins, with the two values of each persona's archetype.
    unfoldable pub first_opinion :
        ℕ → World Float → Network → (ℕ → Float × Float) → ℕ → Float → Opinion fl
    first_opinion gomaxprocs w g values topic_seed infinity =
        (settle fl gomaxprocs (new_opinion fl w values topic_seed) g 300 (ratio 1 100000)
          infinity).0

    abbrev pub no_base : Baseline fl
    no_base = record { region = λ r. of_ℕ 0; stratum = λ st. of_ℕ 0; set = false }

    -- `packAll`.
    unfoldable pub pack_all : Sim fl Chat → Sim fl Chat
    pack_all s = record s {
      frames = record s.frames { flags = flags_for fl s; last_fl = flags_for fl s };
    }

    -- `New`, from the graph that `BuildGraph` makes and the layer and the cohort of the configuration.
    unfoldable pub new_sim :
        ℕ
        → World Float
        → Network × List ℕ × (ℕ → ℕ)
        → ContagionConfig fl
        → DayNightConfig fl
        → (ℕ → Float × Float)
        → ℕ
        → Float
        → Option (Media fl)
        → Chat
        → Sim fl Chat
    unfolding first_opinion pack_all
    new_sim gomaxprocs w (g, order, rank) cfg day_night values topic_seed infinity layer chat =
        let made : Sim fl Chat = record {
          w = w;
          g = g;
          order = order;
          rank = rank;
          o = first_opinion gomaxprocs w g values topic_seed infinity;
          c = new_contagion fl w cfg;
          m = layer;
          chat = chat;
          day_night = day_night;
          hour_utc = day_night.start_hour_utc;
          frames = record {
            n = w.n;
            tick = 0;
            flags = w.flags;
            last_fl = λ i. 0;
            dirty = [];
            in_dirty = λ i. false;
          };
          base_opinion = of_ℕ 0;
          base_neg = of_ℕ 0;
          base_pos = of_ℕ 0;
          base = no_base;
          history = empty_ring;
          tick_ms = of_ℕ 0;
        } in
        pack_all made

    -- `Reset`.
    unfoldable pub restart : ℕ → (ℕ → Float × Float) → ℕ → Float → Sim fl Chat → Sim fl Chat
    unfolding first_opinion
    restart gomaxprocs values topic_seed infinity s =
        let cleared : Sim fl Chat = record s {
          c = reset fl s.c;
          m = on_layer (Layer.reset fl) s.m;
          chat = reset_chat s.chat;
          o = first_opinion gomaxprocs s.w s.g values topic_seed infinity;
          frames = record s.frames { tick = 0 };
          hour_utc = s.day_night.start_hour_utc;
          base_opinion = of_ℕ 0;
          base_neg = of_ℕ 0;
          base_pos = of_ℕ 0;
          base = no_base;
          history = reset_history s.history;
        } in
        refreshed resync cleared
