-- ===== src/Sim/Core/Restart.antt =====
-- `Reset` of internal/sim/sim.go: the same graph and thresholds, and a fresh cascade.
use populace.Prelude.{
  ℕ, ◌≡◌, refl, sym, ap, ◌∙◌, subst, Bool, Option, none, some, List, Bool-cases, inl, inr,
}
use populace.Prelude.Floats.{Floats}
use populace.Sim.Contagion.{reset}
use populace.Sim.Contagion.Rounds.{reset-advance_with}
use populace.Sim.Media.{Media, set_enabled, ignite}
use populace.Sim.Media as Layer
use populace.Sim.Core.{Sim, Cohorts}
use populace.Sim.Core.Groups.{capture_baseline}
use populace.Sim.Core.Operations.{
  inject, inject_begun, inject_seeded, advance, show, noted, restart, on_layer,
}
use populace.Sim.Core.Stories.{Event}
use populace.Sim.Core.Reactions.{apply_reactions, reacted}
use populace.Sim.Core.Moves.{
  Move, ticks, breaks, reacts, restarts, Reach, here, moves, switches, sends,
}
use populace.Sim.Core.Currency.{inject-seeded}
use populace.Sim.Core.Lasting.{
  seeded-reset, cleared, cleared-advance, cleared-ignite, cleared-set_enabled,
}

module _ (fl : Floats) {Chat : Type 0} (chats : Cohorts fl Chat) where
  -- What no operation changes.
  pub record IsOf (first s : Sim fl Chat) : Type 0 where
    pub w : s.w ≡ first.w
    pub g : s.g ≡ first.g
    pub day_night : s.day_night ≡ first.day_night
    pub contagion : reset fl s.c ≡ reset fl first.c
    pub layer : on_layer fl (cleared fl) s.m ≡ on_layer fl (cleared fl) first.m

  IsOf-trans : (r s t : Sim fl Chat) → IsOf s t → IsOf r s → IsOf r t
  IsOf-trans r s t h k = record {
    w = h.w ∙ k.w;
    g = h.g ∙ k.g;
    day_night = h.day_night ∙ k.day_night;
    contagion = h.contagion ∙ k.contagion;
    layer = h.layer ∙ k.layer;
  }

  show-layer :
      (gomaxprocs : ℕ) (s : Sim fl Chat) (m : Option (Media fl))
      → on_layer fl (cleared fl) (show fl chats gomaxprocs (record s { m = m })).0
        ≡ on_layer fl (cleared fl) m
  unfolding show
  show-layer gomaxprocs s none = refl
  show-layer gomaxprocs s (some m) = elim (Bool-cases m.enabled) [
    | inl on ↦ simp on (ap some (cleared-advance fl gomaxprocs s.w.n m s.c.state s.w.weight s.o.y))
    | inr off ↦ simp off refl
  ]

  advance-IsOf :
      (s : Sim fl Chat) (gomaxprocs : ℕ) (ms : fl.Float)
      → IsOf s (advance fl chats gomaxprocs ms s).0
  unfolding advance noted
  advance-IsOf s gomaxprocs ms = record {
    w = refl;
    g = refl;
    day_night = refl;
    contagion = reset-advance_with fl s.c s.g _ _;
    layer = show-layer gomaxprocs s s.m;
  }

  lit-layer :
      (m : Option (Media fl)) (salience : fl.Float)
      → on_layer fl (cleared fl) (on_layer fl (λ l. ignite fl l salience) m)
        ≡ on_layer fl (cleared fl) m
  lit-layer none salience = refl
  lit-layer (some m) salience = ap some (cleared-ignite fl m salience)

  switched-layer :
      (m : Option (Media fl)) (v : Bool)
      → on_layer fl (cleared fl) (on_layer fl (λ l. set_enabled fl l v) m)
        ≡ on_layer fl (cleared fl) m
  switched-layer none v = refl
  switched-layer (some m) v = ap some (cleared-set_enabled fl m v)

  begun-contagion :
      (ev : Event fl) (s : Sim fl Chat) → reset fl (inject_begun fl chats ev s).c ≡ reset fl s.c
  unfolding inject_begun reset
  begun-contagion ev s = elim (Bool-cases (fl.lt (fl.of_ℕ 0) ev.difficulty)) [
    | inl hard ↦ rw hard refl
    | inr plain ↦ rw plain refl
  ]

  inject-IsOf :
      (s t : Sim fl Chat) (ev : Event fl) (ids : List ℕ)
      → inject fl chats s ev ≡ some (t, ids)
      → IsOf s t
  unfolding inject_begun inject_seeded capture_baseline
  inject-IsOf s t ev ids is =
      let b = inject_begun fl chats ev s in
      let (c, seeds, ends) = inject-seeded fl chats s t ev ids is in
      subst (IsOf s) (sym ends) (record {
        w = refl;
        g = refl;
        day_night = refl;
        contagion =
            seeded-reset fl b.w b.g b.order b.rank b.c c ev ids seeds ∙ begun-contagion ev s;
        layer = lit-layer s.m ev.salience;
      })

  pub restart-layer :
      (m : Option (Media fl))
      → on_layer fl (cleared fl) (on_layer fl (Layer.reset fl) m) ≡ on_layer fl (cleared fl) m
  unfolding Layer.reset
  restart-layer none = refl
  restart-layer (some m) = refl

  move-IsOf :
      (values : ℕ → fl.Float × fl.Float) (topic_seed : ℕ) (infinity : fl.Float) (s t : Sim fl Chat)
      → Move fl chats values topic_seed infinity s t
      → IsOf s t
  unfolding apply_reactions reacted restart reset
  move-IsOf values topic_seed infinity s _ (ticks _ gomaxprocs ms) = advance-IsOf s gomaxprocs ms
  move-IsOf values topic_seed infinity s t (breaks _ _ ev ids is) = inject-IsOf s t ev ids is
  move-IsOf values topic_seed infinity s _ (reacts _ gomaxprocs size rx weight) = record {
    w = refl;
    g = refl;
    day_night = refl;
    contagion = refl;
    layer = refl;
  }
  move-IsOf values topic_seed infinity s _ (restarts _ gomaxprocs) = record {
    w = refl;
    g = refl;
    day_night = refl;
    contagion = refl;
    layer = restart-layer s.m;
  }

  pub Reach-IsOf :
      (values : ℕ → fl.Float × fl.Float) (topic_seed : ℕ) (infinity : fl.Float)
      (first s : Sim fl Chat)
      → Reach fl chats values topic_seed infinity first s
      → IsOf first s
  Reach-IsOf values topic_seed infinity first _ here = record {
    w = refl;
    g = refl;
    day_night = refl;
    contagion = refl;
    layer = refl;
  }
  Reach-IsOf values topic_seed infinity first t (moves s _ run move) =
      IsOf-trans first s t (move-IsOf values topic_seed infinity s t move)
        (Reach-IsOf values topic_seed infinity first s run)
  Reach-IsOf values topic_seed infinity first _ (switches s v run) =
      IsOf-trans first s _
        (record {
          w = refl;
          g = refl;
          day_night = refl;
          contagion = refl;
          layer = switched-layer s.m v;
        })
        (Reach-IsOf values topic_seed infinity first s run)
  Reach-IsOf values topic_seed infinity first _ (sends s run) =
      IsOf-trans first s _
        (record { w = refl; g = refl; day_night = refl; contagion = refl; layer = refl })
        (Reach-IsOf values topic_seed infinity first s run)
