-- ===== src/Reaction/Relay/Orders.antt =====
-- The order of stories of internal/reaction/relay.go, as a list with no story twice.
use mathlib.Core.Option
use populace.Prelude.{
  Among, Among-append, append-Among, ◌≡◌, ◌≢◌, ◌⊎◌, inl, inr, refl, sym, ap, none, some, List, [],
  ◌∷◌, ◌++◌, if_pos, if_neg,
}
use populace.Reaction.Relay.{remove}

module _ {Story : Type 0} where
  -- No story twice.
  abbrev pub IsUnique : List Story → Type 0
  IsUnique [] = Unit {0}
  IsUnique (s ∷ order) = ¬ Among s order × IsUnique order

  pub append-IsUnique :
      (xs : List Story) (s : Story) → IsUnique xs → ¬ Among s xs → IsUnique (xs ++ s ∷ [])
  append-IsUnique [] s u new = ((λ a. a), tt)
  append-IsUnique (x ∷ xs) s u new = (
    (λ a. elim (Among-append x xs (s ∷ []) a) [
      | inl old ↦ u.0 old
      | inr (inl e) ↦ new (inl (sym e))
      | inr (inr e) ↦ e
    ]),
    append-IsUnique xs s u.1 (λ a. new (inr a)),
  )

  pub widen :
      (s fp : Story) (before after : List Story)
      → Among s (before ++ after)
      → Among s (before ++ fp ∷ after)
  widen s fp [] after a = inr a
  widen s fp (b ∷ before) after (inl e) = inl e
  widen s fp (b ∷ before) after (inr a) = inr (widen s fp before after a)

  pub narrow :
      (s fp : Story) (before after : List Story)
      → Among s (before ++ fp ∷ after)
      → (fp ≡ s) ⊎ Among s (before ++ after)
  narrow s fp [] after a = a
  narrow s fp (b ∷ before) after (inl e) = inr (inl e)
  narrow s fp (b ∷ before) after (inr a) = elim (narrow s fp before after a) [
    | inl e ↦ inl e
    | inr b' ↦ inr (inr b')
  ]

  pub within : (fp : Story) (before after : List Story) → Among fp (before ++ fp ∷ after)
  within fp before after = append-Among fp before (fp ∷ after) (inr (inl refl))

  -- A list without one of its stories.
  pub without :
      (fp : Story) (before after : List Story)
      → IsUnique (before ++ fp ∷ after)
      → IsUnique (before ++ after) × ¬ Among fp (before ++ after)
  without fp [] after unique = (unique.1, unique.0)
  without fp (b ∷ before) after unique =
      let (rest, new) = without fp before after unique.1 in
      (
        ((λ a. unique.0 (widen b fp before after a)), rest),
        (λ a. elim a [ inl e ↦ unique.0 (rw e (within fp before after)) | inr old ↦ new old ]),
      )

module _ {Story : Type 0} (dec : Discrete Story) where
  remove_nil : (fp : Story) → remove dec fp [] ≡ none
  unfolding remove
  remove_nil fp = refl

  remove_here :
      (fp s : Story) (order : List Story) → fp ≡ s → remove dec fp (s ∷ order) ≡ some order
  unfolding remove
  remove_here fp s order e =
      if_pos (dec fp s) e (some order) (Option.map (◌∷◌ s) (remove dec fp order))

  remove_later :
      (fp s : Story) (order : List Story)
      → fp ≢ s
      → remove dec fp (s ∷ order) ≡ Option.map (◌∷◌ s) (remove dec fp order)
  unfolding remove
  remove_later fp s order other =
      if_neg (dec fp s) other (some order) (Option.map (◌∷◌ s) (remove dec fp order))

  -- `remove` takes out the first place of the story, or it has none.
  pub remove-split :
      (fp : Story) (order : List Story)
      → ((remove dec fp order ≡ none) × ¬ Among fp order)
        ⊎ ((before : List Story) × (after : List Story) × (remove dec fp order
              ≡ some (before ++ after))
            × (order ≡ before ++ fp ∷ after))
  remove-split fp [] = inl (remove_nil fp, λ a. a)
  remove-split fp (s ∷ order) = elim (dec fp s) [
    | yes e ↦ inr ([], order, remove_here fp s order e, rw e refl)
    | no other ↦ elim (remove-split fp order) [
      | inl (gone, new) ↦ inl (
        rw (remove_later fp s order other, gone) refl,
        λ a. elim a [ inl e ↦ other (sym e) | inr old ↦ new old ],
      )
      | inr (before, after, found, split) ↦
          inr (s ∷ before, after, rw (remove_later fp s order other, found) refl, ap (◌∷◌ s) split)
    ]
  ]
