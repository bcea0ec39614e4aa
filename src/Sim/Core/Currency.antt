-- ===== src/Sim/Core/Currency.antt =====
-- What internal/sim/sim.go promises of its flags: after every operation they are those of the state, and the frames
-- are in step with them.
use populace.Prelude.{ℕ, ◌<◌, ◌≡◌, refl, sym, ap, ◌∙◌, subst, Option, none, some, List}
use populace.Prelude.Floats.{Floats}
use populace.World.{World}
use populace.Sim.Contagion.{Contagion, Network}
use populace.Sim.Contagion.Start.{ContagionConfig}
use populace.Sim.Media.{Media}
use populace.Sim.DayNight.{DayNightConfig}
use populace.Sim.Frames.{repack, resync}
use populace.Sim.Frames.Sync.{
  IsSynced, repack-IsSynced, resync-IsSynced, acknowledge-IsSynced, acknowledge-n,
}
use populace.Sim.Core.{Sim, Cohorts}
use populace.Sim.Core.Flags.{flags_for}
use populace.Sim.Core.Groups.{capture_baseline}
use populace.Sim.Core.Operations.{
  inject, inject_begun, inject_seeded, inject_ended, advance, restart, refreshed, noted, new_sim,
  pack_all,
}
use populace.Sim.Core.Stories.{Event, seeded}
use populace.Sim.Core.Reactions.{reacted, apply_reactions}
use populace.Sim.Core.Moves.{
  Move, ticks, breaks, reacts, restarts, Reach, here, moves, switches, sends,
}

module _ (fl : Floats) {Chat : Type 0} where
  -- The frames are in step, and of the whole population.
  pub record IsInStep (s : Sim fl Chat) : Type 0 where
    pub synced : IsSynced s.frames
    pub whole : s.frames.n ≡ s.w.n

  pub record IsCurrent (s : Sim fl Chat) : Type 0 where
    pub in_step : IsInStep s
    pub current : (i : ℕ) → i < s.w.n → s.frames.flags i ≡ flags_for fl s i

  resync-IsCurrent : (s : Sim fl Chat) → s.frames.n ≡ s.w.n → IsCurrent (refreshed fl resync s)
  unfolding flags_for
  resync-IsCurrent s whole =
      let (synced, n, sent, fresh) = resync-IsSynced s.frames (flags_for fl s) in
      record {
        in_step = record { synced = synced; whole = n ∙ whole };
        current = λ i below. fresh i (subst (λ k. i < k) (sym whole) below);
      }

  repack-IsCurrent : (s : Sim fl Chat) → IsInStep s → IsCurrent (refreshed fl repack s)
  unfolding flags_for
  repack-IsCurrent s h =
      let (synced, n, sent, fresh) = repack-IsSynced s.frames (flags_for fl s) h.synced in
      record {
        in_step = record { synced = synced; whole = n ∙ h.whole };
        current = λ i below. fresh i (subst (λ k. i < k) (sym h.whole) below);
      }

  module _ (chats : Cohorts fl Chat) where
    noted-IsCurrent :
        (s : Sim fl Chat) (new_adopters : ℕ) (ms : fl.Float)
        → IsCurrent s
        → IsCurrent (noted fl chats s new_adopters ms)
    unfolding noted flags_for
    noted-IsCurrent s new_adopters ms h = record {
      in_step = record { synced = h.in_step.synced; whole = h.in_step.whole };
      current = h.current;
    }

    advance-IsCurrent :
        (s : Sim fl Chat) (gomaxprocs : ℕ) (ms : fl.Float)
        → IsInStep s
        → IsCurrent (advance fl chats gomaxprocs ms s).0
    unfolding advance
    advance-IsCurrent s gomaxprocs ms h = noted-IsCurrent _ _ ms (
        repack-IsCurrent _ (record {
          synced = record {
            clean = h.synced.clean;
            listed = h.synced.listed;
            inside = h.synced.inside;
          };
          whole = h.whole;
        }))

    inject_ended-seeded :
        (b t : Sim fl Chat) (ev : Event fl) (ids : List ℕ) (r : Option (Contagion fl × List ℕ))
        → inject_ended fl chats ev b r ≡ some (t, ids)
        → (c : Contagion fl) × (r ≡ some (c, ids)) × (t ≡ inject_seeded fl chats ev b c)
    unfolding inject_ended
    inject_ended-seeded b t ev ids none is = cc
    inject_ended-seeded b t ev ids (some (c, ids')) is =
        let same : ◌≡◌ {A = Sim fl Chat × List ℕ} (inject_seeded fl chats ev b c, ids') (t, ids) =
          cc in
        (c, ap (λ p. some (c, p.1)) same, sym (ap (λ p. p.0) same))

    -- The contagion that `Inject` goes on with after the seeding.
    pub inject-seeded :
        (s t : Sim fl Chat) (ev : Event fl) (ids : List ℕ)
        → inject fl chats s ev ≡ some (t, ids)
        → let b = inject_begun fl chats ev s in
          (c : Contagion fl) × (seeded fl b.w b.g b.order b.rank b.c ev ≡ some (c, ids))
          × (t ≡ inject_seeded fl chats ev b c)
    unfolding inject
    inject-seeded s t ev ids is =
        let b = inject_begun fl chats ev s in
        inject_ended-seeded b t ev ids (seeded fl b.w b.g b.order b.rank b.c ev) is

    inject_seeded-IsCurrent :
        (b : Sim fl Chat) (ev : Event fl) (c : Contagion fl)
        → b.frames.n ≡ b.w.n
        → IsCurrent (inject_seeded fl chats ev b c)
    unfolding inject_seeded capture_baseline
    inject_seeded-IsCurrent b ev c whole = resync-IsCurrent _ whole

    inject-IsCurrent :
        (s t : Sim fl Chat) (ev : Event fl) (ids : List ℕ)
        → inject fl chats s ev ≡ some (t, ids)
        → s.frames.n ≡ s.w.n
        → IsCurrent t
    unfolding inject_begun
    inject-IsCurrent s t ev ids is whole =
        let (c, seeds, ends) = inject-seeded s t ev ids is in
        subst IsCurrent (sym ends) (inject_seeded-IsCurrent (inject_begun fl chats ev s) ev c whole)

    move-IsCurrent :
        (values : ℕ → fl.Float × fl.Float) (topic_seed : ℕ) (infinity : fl.Float)
        (s t : Sim fl Chat)
        → Move fl chats values topic_seed infinity s t
        → IsInStep s
        → IsCurrent t
    unfolding apply_reactions restart reacted
    move-IsCurrent values topic_seed infinity s _ (ticks _ gomaxprocs ms) h =
        advance-IsCurrent s gomaxprocs ms h
    move-IsCurrent values topic_seed infinity s t (breaks _ _ ev ids is) h =
        inject-IsCurrent s t ev ids is h.whole
    move-IsCurrent values topic_seed infinity s _ (reacts _ gomaxprocs size rx weight) h =
        resync-IsCurrent (reacted fl s rx weight) h.whole
    move-IsCurrent values topic_seed infinity s _ (restarts _ gomaxprocs) h =
        resync-IsCurrent _ h.whole

    Reach-IsInStep :
        (values : ℕ → fl.Float × fl.Float) (topic_seed : ℕ) (infinity : fl.Float)
        (first s : Sim fl Chat)
        → IsInStep first
        → Reach fl chats values topic_seed infinity first s
        → IsInStep s
    Reach-IsInStep values topic_seed infinity first _ h here = h
    Reach-IsInStep values topic_seed infinity first t h (moves s _ run move) =
        (move-IsCurrent values topic_seed infinity s t move
          (Reach-IsInStep values topic_seed infinity first s h run)).in_step
    Reach-IsInStep values topic_seed infinity first _ h (switches s v run) =
        let so = Reach-IsInStep values topic_seed infinity first s h run in
        record { synced = so.synced; whole = so.whole }
    Reach-IsInStep values topic_seed infinity first _ h (sends s run) =
        let so = Reach-IsInStep values topic_seed infinity first s h run in
        record {
          synced = (acknowledge-IsSynced s.frames so.synced).0;
          whole = acknowledge-n s.frames ∙ so.whole;
        }

    new_sim-IsInStep :
        (gomaxprocs : ℕ) (w : World fl.Float) (graph : Network × List ℕ × (ℕ → ℕ))
        (cfg : ContagionConfig fl) (day_night : DayNightConfig fl)
        (values : ℕ → fl.Float × fl.Float) (topic_seed : ℕ) (infinity : fl.Float)
        (layer : Option (Media fl)) (chat : Chat)
        → IsInStep (
            new_sim fl chats gomaxprocs w graph cfg day_night values topic_seed infinity layer chat)
    unfolding new_sim pack_all
    new_sim-IsInStep gomaxprocs w graph cfg day_night values topic_seed infinity layer chat =
        record {
          synced = record {
            clean = λ i below quiet. refl;
            listed = λ i below loud. cc;
            inside = tt;
          };
          whole = refl;
        }

    -- Whatever has been done to a simulation that `New` has made, in any order, ticks, stories, reactions, resets, switches
    -- of the layer and frames sent: the next `Inject`, `Advance`, `ApplyReactions` or `Reset` leaves the flags of every
    -- persona as those of its state, with the dirty list in step with them.
    pub moves-IsCurrent :
        (gomaxprocs : ℕ) (w : World fl.Float) (graph : Network × List ℕ × (ℕ → ℕ))
        (cfg : ContagionConfig fl) (day_night : DayNightConfig fl)
        (values : ℕ → fl.Float × fl.Float) (topic_seed : ℕ) (infinity : fl.Float)
        (layer : Option (Media fl)) (chat : Chat) (s t : Sim fl Chat)
        → Reach fl chats values topic_seed infinity
            (new_sim fl chats gomaxprocs w graph cfg day_night values topic_seed infinity layer
              chat)
            s
        → Move fl chats values topic_seed infinity s t
        → IsCurrent t
    moves-IsCurrent gomaxprocs w graph cfg day_night values topic_seed infinity layer chat s t run
          move =
        move-IsCurrent values topic_seed infinity s t move (
          Reach-IsInStep values topic_seed infinity _ s
            (new_sim-IsInStep gomaxprocs w graph cfg day_night values topic_seed infinity layer
              chat)
            run)
