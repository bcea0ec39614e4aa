-- ===== src/Sim/Core/Reactions.antt =====
-- internal/sim/reactions.go: `ApplyReactions`. The map by archetype is a function, and its size is given.
use populace.Prelude.{
  ℕ, zero, suc, ◌+◌, ◌-◌, Bool, true, false, Option, none, some, List, [], ◌∷◌, ltb, if◌then◌else◌,
}
use populace.Prelude.Floats.{Floats}
use populace.World.{is_media}
use populace.Sim.Parallel.{parallel_idx}
use populace.Sim.Frames.{resync}
use populace.Sim.Core.{Sim}
use populace.Sim.Core.Operations.{refreshed}

-- How many of the `k` personas from `lo` on have a reaction.
unfoldable pub count_chunk : (ℕ → Bool) → ℕ → ℕ → ℕ → ℕ
count_chunk p lo zero n = n
count_chunk p lo (suc k) n = count_chunk p (lo + 1) k (if p lo then n + 1 else n)

unfoldable pub count_chunks : (ℕ → Bool) → List (ℕ × ℕ × ℕ) → ℕ
unfolding count_chunk
count_chunks p [] = 0
count_chunks p ((c, lo, hi) ∷ chunks) = count_chunk p lo (hi - lo) 0 + count_chunks p chunks

module _ (fl : Floats) where
  open fl use {Float, of_ℕ, ratio, add, sub, mul, lt, le}

  pub record ArchetypeReaction : Type 0 where
    pub stance : Float
    pub salience : Float
    pub share : Float

  -- `rx`.
  abbrev pub Reactions : Type 0
  Reactions = ℕ → Option ArchetypeReaction

  -- `weight` as it is used.
  unfoldable pub in_range : Float → Float
  in_range weight =
      let w = if le weight (of_ℕ 0) then of_ℕ 1 else weight in if lt (of_ℕ 1) w then of_ℕ 1 else w

  unfoldable pub pulled_prior : Float → Option ArchetypeReaction → Float → Float
  pulled_prior weight none prior = prior
  pulled_prior weight (some r) prior = add prior (mul (sub r.stance prior) (mul weight r.salience))

  unfoldable pub pulled_threshold : Option ArchetypeReaction → Float → Float
  pulled_threshold none t = t
  pulled_threshold (some r) t =
      let t' = mul t (sub (of_ℕ 1) (mul (ratio 55 100) r.share)) in
      if lt t' (ratio 1 100) then ratio 1 100 else t'

  abbrev pub reacts : Option ArchetypeReaction → Bool
  reacts none = false
  reacts (some r) = true

  module _ {Chat : Type 0} where
    -- The reaction of a persona's archetype.
    abbrev pub reaction_of : Sim fl Chat → Reactions → ℕ → Option ArchetypeReaction
    reaction_of s rx i = if ltb i s.w.n then rx (s.w.arch i) else none

    -- The simulation with the reactions in it, before its flags are packed again.
    unfoldable pub reacted : Sim fl Chat → Reactions → Float → Sim fl Chat
    unfolding pulled_prior pulled_threshold in_range
    reacted s rx weight =
        let prior = λ (i : ℕ). pulled_prior (in_range weight) (reaction_of s rx i) (s.o.prior i) in
        let y = λ (i : ℕ).
          if is_media (s.w.strat i)
          then if reacts (reaction_of s rx i) then prior i else s.o.y i
          else s.o.y i in
        record s {
          o = record s.o { prior = prior; y = y };
          c = record s.c {
            threshold = λ i. pulled_threshold (reaction_of s rx i) (s.c.threshold i);
          };
        }

    -- `ApplyReactions`: the simulation, the archetypes and the personas.
    unfoldable pub apply_reactions : ℕ → ℕ → Sim fl Chat → Reactions → Float → Sim fl Chat × ℕ × ℕ
    unfolding reacted count_chunks parallel_idx
    apply_reactions gomaxprocs size s rx weight = (
      refreshed fl resync (reacted s rx weight),
      size,
      count_chunks (λ i. reacts (reaction_of s rx i)) (parallel_idx gomaxprocs s.w.n),
    )
