-- ===== src/Reaction/Relay/Accounts.antt =====
-- What `Run` of internal/reaction/relay.go accounts for, in whatever order its goroutines end.
use populace.Prelude.{ℕ, ◌+◌, ◌≤◌, ◌≡◌, Bool, true, false, Option, none, some, length}
use populace.Reaction.Relay.{Relay}
use populace.Reaction.Relay.Runs.{Generation, places}

abbrev pub one_of : Option ℕ → ℕ
one_of none = 0
one_of (some id) = 1

abbrev pub one_hit : Bool → ℕ
one_hit true = 1
one_hit false = 0

module _ {Story Number : Type 0} (dec : Discrete Story) where
  -- Archetypes that are counted, out, waiting for a place, and those to come.
  abbrev pub seen : Generation Story Number → ℕ
  seen g = g.done + length g.pending + g.failing + length g.stored + one_of g.asked + length g.left

  record IsCounted (conc n : ℕ) (g : Generation Story Number) : Type 0 where
    all : g.stopped ≡ false → seen g ≡ n
    most : seen g ≤ n
    whole : g.total ≡ n
    parts : g.from_cache + one_hit g.hitting + g.failed ≤ g.done + g.failing
    places_free : places g ≤ conc
