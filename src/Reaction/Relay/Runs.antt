-- ===== src/Reaction/Relay/Runs.antt =====
-- `Run` of internal/reaction/relay.go: one generation of reactions, as steps of the loop that hands out the archetypes
-- and of the goroutines that it starts, each addition to an atomic counter a step of its own. The write to the cache is
-- under its lock. The model's answers are given.
use populace.Prelude.{
  ℕ, suc, ◌+◌, ◌<◌, ◌≡◌, Bool, true, false, Option, none, some, List, [], ◌∷◌, ◌++◌, length,
  if◌then◌else◌,
}
use populace.Prelude.Int.{ℤ, pos, pos_part, leb_ℤ}
use populace.Reaction.Relay.{Reaction, Relay, put, touch_story}

-- The default of `conc`.
unfoldable pub conc_of : ℤ → ℕ
conc_of conc = if leb_ℤ conc (pos 0) then 6 else pos_part conc

pub record Generation (Story : Type 0) (Number : Type 0) : Type 0 where
  pub relay : Relay Story Number
  pub total : ℕ
  pub done : ℕ
  pub from_cache : ℕ
  pub failed : ℕ
  pub tokens : ℕ
  -- not handed out yet
  pub left : List ℕ
  -- whether the loop stands between its `done.Add` for a hit and its `fromCache.Add`
  pub hitting : Bool
  -- not in the cache, and waiting for a place in `sem`
  pub asked : Option ℕ
  -- goroutines with a place in `sem`: before their answer, by archetype
  pub pending : List ℕ
  -- between `failed.Add` and `done.Add`
  pub failing : ℕ
  -- between the write to the cache and `done.Add`, and from there to `tokens.Add`, by the tokens of their answers
  pub stored : List ℕ
  pub counted : List ℕ
  -- before they give back the place
  pub leaving : ℕ
  -- whether the loop has stopped for `ctx.Err()`
  pub stopped : Bool

-- `wg.Wait` has returned.
pub record IsOver {Story Number : Type 0} (g : Generation Story Number) : Type 0 where
  pub none_left : g.left ≡ []
  pub none_asked : g.asked ≡ none
  pub not_hitting : g.hitting ≡ false
  pub none_pending : g.pending ≡ []
  pub none_failing : g.failing ≡ 0
  pub none_stored : g.stored ≡ []
  pub none_counted : g.counted ≡ []
  pub none_leaving : g.leaving ≡ 0

-- The goroutines with a place in `sem`.
abbrev pub places : {Story Number : Type 0} → Generation Story Number → ℕ
places g = length g.pending + g.failing + length g.stored + length g.counted + g.leaving

module _ {Story Number : Type 0} (dec : Discrete Story) where
  -- `Run` up to its loop, with the counters reset.
  unfoldable pub started : Relay Story Number → Story → List ℕ → Generation Story Number
  started r fp archetypes = record {
    relay = touch_story dec r fp;
    total = length archetypes;
    done = 0;
    from_cache = 0;
    failed = 0;
    tokens = 0;
    left = archetypes;
    hitting = false;
    asked = none;
    pending = [];
    failing = 0;
    stored = [];
    counted = [];
    leaving = 0;
    stopped = false;
  }

  -- The start of `Run`: `none` is its error where a generation is running.
  unfoldable pub begin :
      Bool → Relay Story Number → Story → List ℕ → Option (Generation Story Number)
  begin running r fp archetypes = if running then none else some (started r fp archetypes)

  -- `rec` with its place in the cache.
  unfoldable pub answered :
      Generation Story Number → Story → ℕ → Reaction Number → List ℕ → Generation Story Number
  answered g fp id x pending = record g {
    relay = put dec g.relay fp id x;
    pending = pending;
    stored = x.tokens ∷ g.stored;
  }

  pub data Turn (conc : ℕ) (fp : Story)
      : Generation Story Number → Generation Story Number → Type 0 where
    stop :
        {g : Generation Story Number}
        → g.asked ≡ none
        → g.hitting ≡ false
        → Turn conc fp g (record g { left = []; stopped = true })
    hit :
        {g : Generation Story Number} (id : ℕ) {left : List ℕ} (x : Reaction Number)
        → g.asked ≡ none
        → g.hitting ≡ false
        → g.left ≡ id ∷ left
        → g.relay.cache fp id ≡ some x
        → Turn conc fp g (record g { left = left; done = g.done + 1; hitting = true })
    hit_counted :
        {g : Generation Story Number}
        → g.hitting ≡ true
        → Turn conc fp g (record g { from_cache = g.from_cache + 1; hitting = false })
    miss :
        {g : Generation Story Number} (id : ℕ) {left : List ℕ}
        → g.asked ≡ none
        → g.hitting ≡ false
        → g.left ≡ id ∷ left
        → g.relay.cache fp id ≡ none
        → Turn conc fp g (record g { left = left; asked = some id })
    start :
        {g : Generation Story Number} (id : ℕ)
        → g.asked ≡ some id
        → places g < conc
        → Turn conc fp g (record g { asked = none; pending = id ∷ g.pending })
    answer :
        {g : Generation Story Number} (id : ℕ) (before after : List ℕ)
        → g.pending ≡ before ++ id ∷ after
        → (x : Reaction Number) → Turn conc fp g (answered g fp id x (before ++ after))
    answer_done :
        {g : Generation Story Number} (tokens : ℕ) (before after : List ℕ)
        → g.stored ≡ before ++ tokens ∷ after
        → Turn conc fp g
            (record g { done = g.done + 1; stored = before ++ after; counted = tokens ∷ g.counted })
    answer_tokens :
        {g : Generation Story Number} (tokens : ℕ) (before after : List ℕ)
        → g.counted ≡ before ++ tokens ∷ after
        → Turn conc fp g (record g {
          tokens = g.tokens + tokens;
          counted = before ++ after;
          leaving = g.leaving + 1;
        })
    -- both of its two attempts failed
    fail :
        {g : Generation Story Number} (id : ℕ) (before after : List ℕ)
        → g.pending ≡ before ++ id ∷ after
        → Turn conc fp g
            (record g { failed = g.failed + 1; pending = before ++ after; failing = g.failing + 1 })
    fail_done :
        {g : Generation Story Number} (k : ℕ)
        → g.failing ≡ suc k
        → Turn conc fp g (record g { done = g.done + 1; failing = k; leaving = g.leaving + 1 })
    leave :
        {g : Generation Story Number} (k : ℕ)
        → g.leaving ≡ suc k
        → Turn conc fp g (record g { leaving = k })

  -- The generations that a run can come to.
  pub data Reach (conc : ℕ) (r : Relay Story Number) (fp : Story) (archetypes : List ℕ)
      : Generation Story Number → Type 0 where
    begun : Reach conc r fp archetypes (started r fp archetypes)
    turned :
        {g g' : Generation Story Number}
        → Reach conc r fp archetypes g
        → Turn conc fp g g'
        → Reach conc r fp archetypes g'
