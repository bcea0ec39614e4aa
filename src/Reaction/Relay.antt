-- ===== src/Reaction/Relay.antt =====
-- internal/reaction/relay.go: the cache of reactions, bounded by whole stories, and one generation of
-- reactions. A story stands for its fingerprint, a float32 is of a type that is given.
pub mod Orders
pub mod Stories
pub mod Restart
pub mod Runs
pub mod Accounts
pub mod Coverage
use mathlib.Core.Option
use populace.Prelude.{
  ℕ, zero, suc, ◌+◌, ◌≤◌, ◌<◌, Bool, true, false, Option, none, some, List, [], ◌∷◌, ◌++◌, length,
  ite, ltb, if◌then◌else◌, assign, ℕ_discrete,
}

pub record Reaction (Number : Type 0) : Type 0 where
  pub archetype : ℕ
  pub stance : Number
  pub salience : Number
  pub share : Number
  pub line : List ℕ
  pub cached : Bool
  pub tokens : ℕ

-- `cache[Key{archetype, story}]`.
abbrev pub Store : Type 0 → Type 0 → Type 0
Store Story Number = Story → ℕ → Option (Reaction Number)

-- The part of a `Relay` that its lock guards.
pub record Relay (Story : Type 0) (Number : Type 0) : Type 0 where
  pub cache : Store Story Number
  -- oldest first
  pub order : List Story
  pub max_story : ℕ

-- An entry of the file.
pub record DiskEntry (Story : Type 0) (Number : Type 0) : Type 0 where
  pub archetype : ℕ
  pub story : Story
  pub reaction : Reaction Number

-- `New` before its `load`.
abbrev pub empty_relay : {Story Number : Type 0} → ℕ → Relay Story Number
empty_relay max_story = record {
  cache = λ story archetype. none;
  order = [];
  max_story = max_story;
}

-- The order without the first place of the story; `none` where it has none.
unfoldable pub remove : {Story : Type 0} → Discrete Story → Story → List Story → Option (List Story)
remove dec fp [] = none
remove dec fp (s ∷ order) =
    let rest = Option.map (◌∷◌ s) (remove dec fp order) in ite (dec fp s) (some order) rest

module _ {Story Number : Type 0} (dec : Discrete Story) where
  -- `Get`.
  abbrev pub get : Relay Story Number → Story → ℕ → Option (Reaction Number)
  get r story archetype = r.cache story archetype

  -- `r.cache[key] = rec`.
  unfoldable pub put : Relay Story Number → Story → ℕ → Reaction Number → Relay Story Number
  put r story archetype x = record r {
    cache = assign dec r.cache story (assign ℕ_discrete (r.cache story) archetype (some x));
  }

  -- The loop that deletes the entries of a story.
  abbrev pub forget : Story → Store Story Number → Store Story Number
  forget story cache = assign dec cache story (λ archetype. none)

  -- The loop that drops the oldest stories.
  unfoldable pub trim : ℕ → List Story → Store Story Number → List Story × Store Story Number
  trim max_story [] cache = ([], cache)
  trim max_story (drop ∷ order) cache =
      let rest = trim max_story order (forget drop cache) in
      if ltb max_story (length (drop ∷ order)) then rest else (drop ∷ order, cache)

  unfoldable pub touch_story : Relay Story Number → Story → Relay Story Number
  unfolding remove trim
  touch_story r fp = elim (remove dec fp r.order) [
    | some rest ↦ record r { order = rest ++ fp ∷ [] }
    | none ↦
        let kept = trim r.max_story (r.order ++ fp ∷ []) r.cache in
        record r { order = kept.0; cache = kept.1 }
  ]

  -- One entry read back: `seen` is the stories of the order.
  unfoldable pub load_one : Relay Story Number → DiskEntry Story Number → Relay Story Number
  unfolding put remove
  load_one r e =
      let filled = put r e.story e.archetype e.reaction in
      elim (remove dec e.story r.order) [
        | some rest ↦ filled
        | none ↦ record filled { order = r.order ++ e.story ∷ [] }
      ]

  unfoldable pub load_all : Relay Story Number → List (DiskEntry Story Number) → Relay Story Number
  load_all r [] = r
  load_all r (e ∷ entries) = load_all (load_one r e) entries

  -- `load` of a file whose JSON is these entries.
  unfoldable pub load : Relay Story Number → List (DiskEntry Story Number) → Relay Story Number
  unfolding trim
  load r entries =
      let full = load_all r entries in
      let kept = trim full.max_story full.order full.cache in
      record full { order = kept.0; cache = kept.1 }
