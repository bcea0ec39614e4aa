-- ===== src/Reaction/Relay/Restart.antt =====
-- `load` of internal/reaction/relay.go: a cache read back from a file is bounded like a live one.
use populace.Prelude.{
  Among, append-Among, ℕ, sym, ap, ◌∙◌, subst, inl, inr, some, List, [], ◌∷◌, ◌++◌, assign,
  assign_ne, ℕ_discrete, arith,
}
use populace.Reaction.Relay.{Reaction, Relay, DiskEntry, put, load_one, load_all, load, empty_relay}
use populace.Reaction.Relay.Orders.{IsUnique, append-IsUnique, within, remove-split}
use populace.Reaction.Relay.Stories.{IsHeld, IsBounded, trim-IsHeld}

module _ {Story Number : Type 0} (dec : Discrete Story) where
  -- A new reaction of a story of the order.
  pub put-IsHeld :
      (r : Relay Story Number) (order : List Story) (story : Story) (archetype : ℕ)
      (x : Reaction Number)
      → Among story order
      → IsHeld order r.cache
      → IsHeld order (put dec r story archetype x).cache
  unfolding put
  put-IsHeld r order story archetype x there held s a y here = elim (dec story s) [
    | yes e ↦ subst (λ t. Among t order) e there
    | no other ↦
        let old =
          sym (
            ap (λ f. f a)
              (assign_ne dec r.cache story s (assign ℕ_discrete (r.cache story) archetype (some x))
                other))
          ∙ here in
        held s a y old
  ]

  pub record IsConsistent (r : Relay Story Number) : Type 0 where
    pub unique : IsUnique r.order
    pub held : IsHeld r.order r.cache

  load_one-IsConsistent :
      (r : Relay Story Number) (e : DiskEntry Story Number)
      → IsConsistent r
      → IsConsistent (load_one dec r e)
  unfolding load_one put
  load_one-IsConsistent r e c = elim (remove-split dec e.story r.order) [
    | inl (gone, new) ↦
        rw (load_one, gone)
          (record {
            unique = append-IsUnique r.order e.story c.unique new;
            held =
                put-IsHeld r (r.order ++ e.story ∷ []) e.story e.archetype e.reaction
                  (within e.story r.order [])
                  (λ s a x here. append-Among s r.order (e.story ∷ []) (inl (c.held s a x here)));
          })
    | inr (before, after, found, split) ↦
        rw (load_one, found)
          (record {
            unique = c.unique;
            held =
                put-IsHeld r r.order e.story e.archetype e.reaction
                  (subst (Among e.story) (sym split) (within e.story before after)) c.held;
          })
  ]

  load_all-IsConsistent :
      (r : Relay Story Number) (entries : List (DiskEntry Story Number))
      → IsConsistent r
      → IsConsistent (load_all dec r entries)
  unfolding load_all
  load_all-IsConsistent r [] c = c
  load_all-IsConsistent r (e ∷ entries) c =
      load_all-IsConsistent (load_one dec r e) entries (load_one-IsConsistent r e c)

  -- Whatever entries the file has, `New` makes a bounded cache of them.
  pub load-IsBounded :
      (max_story : ℕ) (entries : List (DiskEntry Story Number))
      → IsBounded (load dec (empty_relay max_story) entries)
  unfolding load
  load-IsBounded max_story entries =
      let c =
        load_all-IsConsistent (empty_relay max_story) entries
          (record { unique = tt; held = λ s a x here. ground arith }) in
      let full = load_all dec (empty_relay max_story) entries in
      let (unique, held, bounded) =
        trim-IsHeld dec full.max_story full.order full.cache c.unique c.held in
      record { unique = unique; held = held; bounded = bounded }
