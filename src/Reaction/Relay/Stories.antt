-- ===== src/Reaction/Relay/Stories.antt =====
-- `touchStory` and `load` of internal/reaction/relay.go keep the cache bounded by whole stories.
use populace.Prelude.{
  Among, append-Among, ℕ, ◌≤◌, ◌≡◌, ◌⊎◌, inl, inr, refl, sym, ap, ◌∙◌, false, none, some, List, [],
  ◌∷◌, ◌++◌, length, length-append, if_pos, ltb, assign_ne, Bool-cases, arith,
}
use populace.Reaction.Relay.{Reaction, Store, Relay, forget, trim, touch_story}
use populace.Reaction.Relay.Orders.{IsUnique, append-IsUnique, without, narrow, remove-split}

-- Every cached reaction is of a story in the order.
abbrev pub IsHeld : {Story Number : Type 0} → List Story → Store Story Number → Type 0
IsHeld {Story} {Number} order cache =
    (s : Story) (a : ℕ) (x : Reaction Number) → cache s a ≡ some x → Among s order

-- The cache holds whole stories of the order, each of them once, and no more than the bound.
pub record IsBounded {Story Number : Type 0} (r : Relay Story Number) : Type 0 where
  pub unique : IsUnique r.order
  pub held : IsHeld r.order r.cache
  pub bounded : length r.order ≤ r.max_story

module _ {Story Number : Type 0} (dec : Discrete Story) where
  forget_same :
      (drop s : Story) (cache : Store Story Number)
      → drop ≡ s
      → forget dec drop cache s ≡ (λ a. none)
  forget_same drop s cache e = if_pos (dec drop s) e (λ a. none) (cache s)

  forget-IsHeld :
      (drop : Story) (order : List Story) (cache : Store Story Number)
      → IsHeld (drop ∷ order) cache
      → IsHeld order (forget dec drop cache)
  forget-IsHeld drop order cache held s a x here = elim (dec drop s) [
    | yes e ↦ let bad = sym (ap (λ f. f a) (forget_same drop s cache e)) ∙ here in ground arith
    | no other ↦
        let there = sym (ap (λ f. f a) (assign_ne dec cache drop s (λ b. none) other)) ∙ here in
        elim (held s a x there) [ inl e ↦ absurd (other e) | inr old ↦ old ]
  ]

  pub trim-IsHeld :
      (max_story : ℕ) (order : List Story) (cache : Store Story Number)
      → IsUnique order
      → IsHeld order cache
      → let kept = trim dec max_story order cache in
        IsUnique kept.0 × IsHeld kept.0 kept.1 × (length kept.0 ≤ max_story)
  unfolding trim
  trim-IsHeld max_story [] cache unique held = (tt, held, omega arith)
  trim-IsHeld max_story (drop ∷ order) cache unique held =
      elim (Bool-cases (ltb max_story (length (drop ∷ order)))) [
        | inl over ↦ rw over (
            trim-IsHeld max_story order (forget dec drop cache) unique.1
              (forget-IsHeld drop order cache held))
        | inr fits ↦ rw fits (unique, held, ground arith)
      ]

  -- A story goes whole or not at all.
  trim-whole :
      (max_story : ℕ) (order : List Story) (cache : Store Story Number) (s : Story)
      → let kept = trim dec max_story order cache in (kept.1 s ≡ cache s) ⊎ (kept.1 s ≡ (λ a. none))
  unfolding trim
  trim-whole max_story [] cache s = inl refl
  trim-whole max_story (drop ∷ order) cache s =
      elim (Bool-cases (ltb max_story (length (drop ∷ order)))) [
        | inl over ↦ rw over (elim (trim-whole max_story order (forget dec drop cache) s) [
          | inl same ↦ elim (dec drop s) [
            | yes e ↦ inr (same ∙ forget_same drop s cache e)
            | no other ↦ inl (same ∙ assign_ne dec cache drop s (λ a. none) other)
          ]
          | inr gone ↦ inr gone
        ])
        | inr fits ↦ rw fits (inl refl)
      ]

  -- The newest story stays, with all its entries.
  trim-last :
      (max_story : ℕ) (front : List Story) (fp : Story) (cache : Store Story Number)
      → 1 ≤ max_story
      → ¬ Among fp front
      → let kept = trim dec max_story (front ++ fp ∷ []) cache in
        (front' : List Story) × (kept.0 ≡ front' ++ fp ∷ []) × (kept.1 fp ≡ cache fp)
  unfolding trim
  trim-last max_story [] fp cache some_one new =
      let fits : ltb max_story 1 ≡ false = ground arith in rw fits ([], refl, refl)
  trim-last max_story (drop ∷ front) fp cache some_one new =
      elim (Bool-cases (ltb max_story (length (drop ∷ (front ++ fp ∷ []))))) [
        | inl over ↦
            let (front', ends, same) =
              trim-last max_story front fp (forget dec drop cache) some_one (λ a. new (inr a)) in
            rw over
              (front', ends, same ∙ assign_ne dec cache drop fp (λ a. none) (λ e. new (inl e)))
        | inr fits ↦ rw fits (drop ∷ front, refl, refl)
      ]

  touch_old :
      (r : Relay Story Number) (fp : Story) (before after : List Story)
      → IsBounded r
      → r.order ≡ before ++ fp ∷ after
      → IsBounded (record r { order = (before ++ after) ++ fp ∷ [] })
  touch_old r fp before after b split =
      let (unique, new) = without fp before after (rw split at b.unique) in
      record {
        unique = append-IsUnique (before ++ after) fp unique new;
        held = λ s a x here.
            append-Among s (before ++ after) (fp ∷ [])
              (elim (narrow s fp before after (rw split at (b.held s a x here))) [
                | inl e ↦ inr (inl e)
                | inr old ↦ inl old
              ]);
        bounded = omega (
          arith,
          b.bounded,
          ap length split,
          length-append before (fp ∷ after),
          length-append (before ++ after) (fp ∷ []),
          length-append before after,
        );
      }

  -- From a bounded cache `touchStory` makes a bounded cache, with its story the newest and all the entries of
  -- this story; any other story keeps all its entries or loses all of them.
  pub touch_story-IsBounded :
      (r : Relay Story Number) (fp s : Story)
      → 1 ≤ r.max_story
      → IsBounded r
      → let d = touch_story dec r fp in
        IsBounded d
        × ((front : List Story) × (d.order ≡ front ++ fp ∷ []))
        × (d.cache fp ≡ r.cache fp)
        × ((d.cache s ≡ r.cache s) ⊎ (d.cache s ≡ (λ a. none)))
  unfolding touch_story
  touch_story-IsBounded r fp s some_one b = elim (remove-split dec fp r.order) [
    | inl (gone, new) ↦
        let all = r.order ++ fp ∷ [] in
        let (unique, held, bounded) =
          trim-IsHeld r.max_story all r.cache (append-IsUnique r.order fp b.unique new)
            (λ t a x here. append-Among t r.order (fp ∷ []) (inl (b.held t a x here))) in
        let (front, ends, same) = trim-last r.max_story r.order fp r.cache some_one new in
        rw (touch_story, gone)
          (
            record { unique = unique; held = held; bounded = bounded },
            (front, ends),
            same,
            trim-whole r.max_story all r.cache s,
          )
    | inr (before, after, found, split) ↦
        rw (touch_story, found)
          (touch_old r fp before after b split, (before ++ after, refl), refl, inl refl)
  ]
