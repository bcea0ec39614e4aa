-- ===== src/Sim/Core.antt =====
-- internal/sim/sim.go and reactions.go: the simulation that holds a world, its graph, opinions, contagion and media
-- layer, and its operations. The chat cohort is a state of any type, with what `Observe`, `NewScript` and `Reset` do
-- to it given: it reads the simulation and changes nothing of it. So are the milliseconds that a tick takes.
pub mod Flags
pub mod Groups
pub mod Reactions
pub mod Stories
pub mod Operations
pub mod Moves
pub mod Currency
pub mod Lasting
pub mod Restart
pub mod Anew
pub mod Control
pub mod Covered
pub mod Breaking
use populace.Prelude.{ℕ, ◌<◌, Bool, true, false, Option, none, some, List, ◌==◌, if◌then◌else◌}
use populace.Prelude.Floats.{Floats}
use populace.World.{Stratum, World, is_media}
use populace.World.Regions.{Region}
use populace.Sim.Contagion.{Contagion, Network}
use populace.Sim.Opinion.{Opinion}
use populace.Sim.Media.{Media}
use populace.Sim.DayNight.{DayNightConfig}
use populace.Sim.Frames.{Stream}
use populace.Sim.History.{Ring}

module _ (fl : Floats) where
  open fl use {Float}

  pub record Sample : Type 0 where
    pub tick : ℕ
    pub reach : Float
    pub new_adopters : ℕ
    pub shift : Float
    pub tick_ms : Float

  -- `baseline`.
  pub record Baseline : Type 0 where
    pub region : Region → Float
    pub stratum : Stratum → Float
    pub set : Bool

  -- `Sim`. Of the graph it has the neighbours and the order by places with its inverse; `frames` has the flags of the world, the dirty
  -- list, and the tick.
  pub record Sim (Chat : Type 0) : Type 0 where
    pub w : World Float
    pub g : Network
    pub order : List ℕ
    pub rank : ℕ → ℕ
    pub o : Opinion fl
    pub c : Contagion fl
    pub m : Option (Media fl)
    pub chat : Chat
    pub day_night : DayNightConfig fl
    pub hour_utc : Float
    pub frames : Stream
    pub base_opinion : Float
    pub base_neg : Float
    pub base_pos : Float
    pub base : Baseline
    pub history : Ring Sample
    pub tick_ms : Float

  -- The calls of the cohort, each on the simulation as it is then.
  pub record Cohorts (Chat : Type 0) : Type 0 where
    pub observe : Sim Chat → Chat
    pub new_script : Sim Chat → ℕ → Float → Chat
    pub reset_chat : Chat → Chat
