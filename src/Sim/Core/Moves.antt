-- ===== src/Sim/Core/Moves.antt =====
-- The operations on a simulation as steps, in any order: those of internal/sim/sim.go and reactions.go, the switch of the
-- layer, and a frame that has been sent.
use populace.Prelude.{ℕ, Bool, some, List, ◌≡◌}
use populace.Prelude.Floats.{Floats}
use populace.Sim.Media.{set_enabled}
use populace.Sim.Frames.{acknowledge}
use populace.Sim.Core.{Sim, Cohorts}
use populace.Sim.Core.Operations.{inject, advance, restart, on_layer}
use populace.Sim.Core.Stories.{Event}
use populace.Sim.Core.Reactions.{Reactions, apply_reactions}

module _ (fl : Floats) {Chat : Type 0} (chats : Cohorts fl Chat) where
  -- The operations that pack the flags, with the arguments of `New` for `Reset`.
  pub data Move (values : ℕ → fl.Float × fl.Float) (topic_seed : ℕ) (infinity : fl.Float)
      : Sim fl Chat → Sim fl Chat → Type 0 where
    ticks :
        (s : Sim fl Chat) (gomaxprocs : ℕ) (ms : fl.Float)
        → Move values topic_seed infinity s (advance fl chats gomaxprocs ms s).0
    breaks :
        (s t : Sim fl Chat) (ev : Event fl) (ids : List ℕ)
        → inject fl chats s ev ≡ some (t, ids)
        → Move values topic_seed infinity s t
    reacts :
        (s : Sim fl Chat) (gomaxprocs size : ℕ) (rx : Reactions fl) (weight : fl.Float)
        → Move values topic_seed infinity s (apply_reactions fl gomaxprocs size s rx weight).0
    restarts :
        (s : Sim fl Chat) (gomaxprocs : ℕ)
        → Move values topic_seed infinity s
            (restart fl chats gomaxprocs values topic_seed infinity s)

  -- What a simulation can come to.
  pub data Reach (values : ℕ → fl.Float × fl.Float) (topic_seed : ℕ) (infinity : fl.Float)
      (first : Sim fl Chat) : Sim fl Chat → Type 0 where
    here : Reach values topic_seed infinity first first
    moves :
        (s t : Sim fl Chat)
        → Reach values topic_seed infinity first s
        → Move values topic_seed infinity s t
        → Reach values topic_seed infinity first t
    switches :
        (s : Sim fl Chat) (v : Bool)
        → Reach values topic_seed infinity first s
        → Reach values topic_seed infinity first
            (record s { m = on_layer fl (λ m. set_enabled fl m v) s.m })
    sends :
        (s : Sim fl Chat)
        → Reach values topic_seed infinity first s
        → Reach values topic_seed infinity first (record s { frames = acknowledge s.frames })
