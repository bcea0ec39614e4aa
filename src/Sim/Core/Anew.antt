-- ===== src/Sim/Core/Anew.antt =====
-- A reset simulation of internal/sim/sim.go against a new one.
use populace.Prelude.{
  ℕ, ◌<◌, ◌≡◌, refl, sym, ap, ◌∙◌, subst, Bool, false, Option, none, some, List, length, ltb,
  Bool-cases, inl, inr,
}
use populace.Prelude.Floats.{Floats}
use populace.World.{World, is_media}
use populace.Sim.Contagion.{Contagion, Network, reset}
use populace.Sim.Contagion.Start.{ContagionConfig, new_contagion}
use populace.Sim.Opinion.{Opinion}
use populace.Sim.Media.{Media, new_media}
use populace.Sim.Media as Layer
use populace.Sim.Media.Platforms.{Platform}
use populace.Sim.DayNight.{DayNightConfig}
use populace.Sim.History.{reset_history}
use populace.Sim.Frames.Sync.{resync-tick}
use populace.Sim.Core.{Sim, Cohorts}
use populace.Sim.Core.Flags.{flags_for, pack_flags, feed_now}
use populace.Sim.Core.Operations.{first_opinion, restart, new_sim, pack_all, on_layer}
use populace.Sim.Core.Moves.{restarts, Reach}
use populace.Sim.Core.Currency.{moves-IsCurrent}
use populace.Sim.Core.Lasting.{cleared}
use populace.Sim.Core.Restart.{Reach-IsOf, restart-layer}

module _ (fl : Floats) where
  -- A layer as `NewMedia` makes it.
  abbrev pub IsNewLayer : Option (Media fl) → Type 0
  IsNewLayer layer = on_layer fl (cleared fl) layer ≡ layer

  pub new_media-IsNewLayer :
      (plats : List (Platform fl)) (seed : ℕ) (open_to reach urb : ℕ → fl.Float)
      → IsNewLayer (new_media fl plats seed open_to reach urb)
  unfolding new_media Layer.reset
  new_media-IsNewLayer plats seed open_to reach urb = elim (Bool-cases (ltb 8 (length plats))) [
    | inl many ↦ rw many refl
    | inr few ↦ rw few refl
  ]

  feed_now-new :
      (layer : Option (Media fl)) (i : ℕ) → IsNewLayer layer → feed_now fl layer i ≡ false
  unfolding feed_now Layer.reset
  feed_now-new none i is = refl
  feed_now-new (some m) i is = ap (λ l. feed_now fl l i) (sym is)

  feed_now-reset :
      (layer : Option (Media fl)) (i : ℕ)
      → feed_now fl (on_layer fl (Layer.reset fl) layer) i ≡ false
  unfolding feed_now Layer.reset
  feed_now-reset none i = refl
  feed_now-reset (some m) i = elim (Bool-cases m.enabled) [
    | inl on ↦ simp on refl
    | inr off ↦ simp off refl
  ]

  module _ {Chat : Type 0} where
    -- The second is as good as the first, but for the cohort, the switch of the layer, the smoothed time of a tick and the
    -- frames that are still to be sent.
    pub record IsAnew (first s : Sim fl Chat) : Type 0 where
      pub contagion : s.c ≡ first.c
      pub opinion : s.o ≡ first.o
      pub layer : on_layer fl (cleared fl) s.m ≡ first.m
      pub hour : s.hour_utc ≡ first.hour_utc
      pub tick : s.frames.tick ≡ first.frames.tick
      pub base_opinion : s.base_opinion ≡ first.base_opinion
      pub base_neg : s.base_neg ≡ first.base_neg
      pub base_pos : s.base_pos ≡ first.base_pos
      pub base : s.base ≡ first.base
      pub history : s.history ≡ first.history
      pub flags : (i : ℕ) → i < first.w.n → s.frames.flags i ≡ first.frames.flags i

    flags_for-same :
        (s t : Sim fl Chat) (i : ℕ)
        → s.w ≡ t.w
        → s.c ≡ t.c
        → s.o ≡ t.o
        → feed_now fl s.m i ≡ feed_now fl t.m i
        → flags_for fl s i ≡ flags_for fl t i
    unfolding flags_for
    flags_for-same s t i w c o feed =
        let packed : World fl.Float → Contagion fl → Opinion fl → Bool → ℕ = λ v d p now.
          pack_flags fl (d.state i) (p.y i) (is_media (v.strat i)) (d.feed_driven i) now in
        ap (λ v. packed v s.c s.o (feed_now fl s.m i)) w
        ∙ ap (λ d. packed t.w d s.o (feed_now fl s.m i)) c
        ∙ ap (λ p. packed t.w t.c p (feed_now fl s.m i)) o
        ∙ ap (λ now. packed t.w t.c t.o now) feed

    module _ (chats : Cohorts fl Chat) where
      -- Whatever has been done to a simulation that `New` has made, in any order, ticks, stories, reactions, resets,
      -- switches of the layer and frames sent: `Reset` with the same topic leaves the contagion with its thresholds, the
      -- opinions, the layer but for its switch, the tick and the hour, the baselines, the history and the flags as `New` made
      -- them. The cohort, the smoothed time of a tick and the frames that are still to be sent may differ.
      pub restart-IsAnew :
          (gomaxprocs : ℕ) (w : World fl.Float) (graph : Network × List ℕ × (ℕ → ℕ))
          (cfg : ContagionConfig fl) (day_night : DayNightConfig fl)
          (values : ℕ → fl.Float × fl.Float) (topic_seed : ℕ) (infinity : fl.Float)
          (layer : Option (Media fl)) (chat : Chat) (s : Sim fl Chat)
          → IsNewLayer layer
          → let first =
              new_sim fl chats gomaxprocs w graph cfg day_night values topic_seed infinity layer
                chat in
            Reach fl chats values topic_seed infinity first s
            → IsAnew first (restart fl chats gomaxprocs values topic_seed infinity s)
      unfolding restart new_sim pack_all reset_history reset new_contagion flags_for
      restart-IsAnew gomaxprocs w graph cfg day_night values topic_seed infinity layer chat s is_new
            run =
          let first =
            new_sim fl chats gomaxprocs w graph cfg day_night values topic_seed infinity layer
              chat in
          let t = restart fl chats gomaxprocs values topic_seed infinity s in
          let h = Reach-IsOf fl chats values topic_seed infinity first s run in
          let anew : t.c ≡ first.c = h.contagion in
          let opinion : t.o ≡ first.o =
            ap (λ v. first_opinion fl chats gomaxprocs v s.g values topic_seed infinity) h.w
            ∙ ap (λ g. first_opinion fl chats gomaxprocs w g values topic_seed infinity) h.g in
          let done =
            moves-IsCurrent fl chats gomaxprocs w graph cfg day_night values topic_seed infinity
              layer chat s t run (restarts s gomaxprocs) in
          record {
            contagion = anew;
            opinion = opinion;
            layer = restart-layer fl chats s.m ∙ h.layer ∙ is_new;
            hour = ap (λ d. d.start_hour_utc) h.day_night;
            tick = resync-tick (record s.frames { tick = 0 }) _;
            base_opinion = refl;
            base_neg = refl;
            base_pos = refl;
            base = refl;
            history = refl;
            flags = λ i below.
                done.current i (subst (λ v. i < v.n) (sym h.w) below)
                ∙ flags_for-same t first i h.w anew opinion
                    (feed_now-reset s.m i ∙ sym (feed_now-new layer i is_new));
          }
