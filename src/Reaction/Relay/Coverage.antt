-- ===== src/Reaction/Relay/Coverage.antt =====
-- What a finished `Run` of internal/reaction/relay.go leaves in the cache.
use populace.Prelude.{
  Among, ℕ, ◌≤◌, ◌≡◌, ◌≢◌, ◌⊎◌, inl, inr, refl, sym, ap, ◌∙◌, subst, true, false, Bool-cases, none,
  some, List, [], ◌∷◌, ◌++◌, assign, assign_self, assign_ne, ℕ_discrete, arith,
}
use populace.Reaction.Relay.{Reaction, Relay, put}
use populace.Reaction.Relay.Orders.{narrow, within}
use populace.Reaction.Relay.Stories.{IsBounded, touch_story-IsBounded}
use populace.Reaction.Relay.Restart.{put-IsHeld}
use populace.Reaction.Relay.Runs.{
  Generation, started, answered, Turn, stop, hit, hit_counted, miss, start, answer, answer_done,
  answer_tokens, fail, fail_done, leave, Reach, begun, turned, IsOver,
}

-- Where an archetype of the run stands.
data Place {Story Number : Type 0} (fp : Story) (g : Generation Story Number) (id : ℕ)
    : Type 0 where
  to_come : Among id g.left → Place fp g id
  asking : g.asked ≡ some id → Place fp g id
  out : Among id g.pending → Place fp g id
  cached : (x : Reaction Number) → g.relay.cache fp id ≡ some x → Place fp g id
  lost : 1 ≤ g.failed → Place fp g id

some-injective : {a b : ℕ} → some a ≡ some b → a ≡ b
some-injective {a} h = ap (λ o. elim o [ none ↦ a | some c ↦ c ]) h

module _ {Story Number : Type 0} (dec : Discrete Story) where
  put-here :
      (r : Relay Story Number) (fp : Story) (id : ℕ) (x : Reaction Number)
      → (put dec r fp id x).cache fp id ≡ some x
  unfolding put
  put-here r fp id x =
      ap (λ f. f id) (assign_self dec r.cache fp (assign ℕ_discrete (r.cache fp) id (some x)))
      ∙ assign_self ℕ_discrete (r.cache fp) id (some x)

  put-elsewhere :
      (r : Relay Story Number) (fp : Story) (id id' : ℕ) (x : Reaction Number)
      → id ≢ id'
      → (put dec r fp id x).cache fp id' ≡ r.cache fp id'
  unfolding put
  put-elsewhere r fp id id' x other =
      ap (λ f. f id') (assign_self dec r.cache fp (assign ℕ_discrete (r.cache fp) id (some x)))
      ∙ assign_ne ℕ_discrete (r.cache fp) id id' (some x) other

  -- A reaction that is cached is replaced, never lost.
  put-cached :
      (r : Relay Story Number) (fp : Story) (id id' : ℕ) (x y : Reaction Number)
      → r.cache fp id' ≡ some y
      → (z : Reaction Number) × ((put dec r fp id x).cache fp id' ≡ some z)
  put-cached r fp id id' x y h = elim (ℕ_discrete id id') [
    | yes e ↦ (x, subst (λ j. (put dec r fp id x).cache fp j ≡ some x) e (put-here r fp id x))
    | no other ↦ (y, put-elsewhere r fp id id' x other ∙ h)
  ]

  answered-Place :
      (fp : Story) (g : Generation Story Number) (i id : ℕ) (before after : List ℕ)
      (x : Reaction Number)
      → g.pending ≡ before ++ i ∷ after
      → Place fp g id
      → Place fp (answered dec g fp i x (before ++ after)) id
  unfolding answered
  answered-Place fp g i id before after x is (to_come a) = to_come a
  answered-Place fp g i id before after x is (asking h) = asking h
  answered-Place fp g i id before after x is (out a) =
      elim (narrow id i before after (subst (Among id) is a)) [
        | inl e ↦
            cached x (
              subst (λ j. (put dec g.relay fp i x).cache fp j ≡ some x) e (put-here g.relay fp i x))
        | inr rest ↦ out rest
      ]
  answered-Place fp g i id before after x is (cached y h) =
      let (z, here) = put-cached g.relay fp i id x y h in cached z here
  answered-Place fp g i id before after x is (lost h) = lost h

  turn-Place :
      (conc : ℕ) (fp : Story) (g g' : Generation Story Number) (id : ℕ)
      → Turn dec conc fp g g'
      → g'.stopped ≡ false
      → Place fp g id
      → Place fp g' id
  turn-Place conc fp g g' id (stop idle free) on p = ground arith
  turn-Place conc fp g g' id (hit i x idle free next found) on (to_come a) =
      elim (subst (Among id) next a) [
        | inl e ↦ cached x (subst (λ j. g.relay.cache fp j ≡ some x) e found)
        | inr later ↦ to_come later
      ]
  turn-Place conc fp g g' id (hit i x idle free next found) on (asking h) = asking h
  turn-Place conc fp g g' id (hit i x idle free next found) on (out a) = out a
  turn-Place conc fp g g' id (hit i x idle free next found) on (cached y h) = cached y h
  turn-Place conc fp g g' id (hit i x idle free next found) on (lost h) = lost h
  turn-Place conc fp g g' id (miss i idle free next new) on (to_come a) =
      elim (subst (Among id) next a) [ inl e ↦ asking (ap some e) | inr later ↦ to_come later ]
  turn-Place conc fp g g' id (miss i idle free next new) on (asking h) =
      let bad = sym idle ∙ h in ground arith
  turn-Place conc fp g g' id (miss i idle free next new) on (out a) = out a
  turn-Place conc fp g g' id (miss i idle free next new) on (cached x h) = cached x h
  turn-Place conc fp g g' id (miss i idle free next new) on (lost h) = lost h
  turn-Place conc fp g g' id (start i waits room) on (to_come a) = to_come a
  turn-Place conc fp g g' id (start i waits room) on (asking h) =
      out (inl (some-injective (sym waits ∙ h)))
  turn-Place conc fp g g' id (start i waits room) on (out a) = out (inr a)
  turn-Place conc fp g g' id (start i waits room) on (cached x h) = cached x h
  turn-Place conc fp g g' id (start i waits room) on (lost h) = lost h
  turn-Place conc fp g g' id (answer i before after is x) on p =
      answered-Place fp g i id before after x is p
  turn-Place conc fp g g' id (fail i before after is) on (to_come a) = to_come a
  turn-Place conc fp g g' id (fail i before after is) on (asking h) = asking h
  turn-Place conc fp g g' id (fail i before after is) on (out a) =
      elim (narrow id i before after (subst (Among id) is a)) [
        | inl e ↦ lost (omega arith)
        | inr rest ↦ out rest
      ]
  turn-Place conc fp g g' id (fail i before after is) on (cached x h) = cached x h
  turn-Place conc fp g g' id (fail i before after is) on (lost h) = lost (omega arith)
  turn-Place conc fp g g' id (hit_counted on') on (to_come a) = to_come a
  turn-Place conc fp g g' id (hit_counted on') on (asking h) = asking h
  turn-Place conc fp g g' id (hit_counted on') on (out a) = out a
  turn-Place conc fp g g' id (hit_counted on') on (cached y h) = cached y h
  turn-Place conc fp g g' id (hit_counted on') on (lost h) = lost h
  turn-Place conc fp g g' id (answer_done t before after is) on (to_come a) = to_come a
  turn-Place conc fp g g' id (answer_done t before after is) on (asking h) = asking h
  turn-Place conc fp g g' id (answer_done t before after is) on (out a) = out a
  turn-Place conc fp g g' id (answer_done t before after is) on (cached y h) = cached y h
  turn-Place conc fp g g' id (answer_done t before after is) on (lost h) = lost h
  turn-Place conc fp g g' id (answer_tokens t before after is) on (to_come a) = to_come a
  turn-Place conc fp g g' id (answer_tokens t before after is) on (asking h) = asking h
  turn-Place conc fp g g' id (answer_tokens t before after is) on (out a) = out a
  turn-Place conc fp g g' id (answer_tokens t before after is) on (cached y h) = cached y h
  turn-Place conc fp g g' id (answer_tokens t before after is) on (lost h) = lost h
  turn-Place conc fp g g' id (fail_done k is) on (to_come a) = to_come a
  turn-Place conc fp g g' id (fail_done k is) on (asking h) = asking h
  turn-Place conc fp g g' id (fail_done k is) on (out a) = out a
  turn-Place conc fp g g' id (fail_done k is) on (cached y h) = cached y h
  turn-Place conc fp g g' id (fail_done k is) on (lost h) = lost h
  turn-Place conc fp g g' id (leave k is) on (to_come a) = to_come a
  turn-Place conc fp g g' id (leave k is) on (asking h) = asking h
  turn-Place conc fp g g' id (leave k is) on (out a) = out a
  turn-Place conc fp g g' id (leave k is) on (cached y h) = cached y h
  turn-Place conc fp g g' id (leave k is) on (lost h) = lost h

  turn-stopped :
      (conc : ℕ) (fp : Story) (g g' : Generation Story Number)
      → Turn dec conc fp g g'
      → g.stopped ≡ true
      → g'.stopped ≡ true
  unfolding answered
  turn-stopped conc fp g g' (stop idle free) h = refl
  turn-stopped conc fp g g' (hit i x idle free next found) h = h
  turn-stopped conc fp g g' (miss i idle free next new) h = h
  turn-stopped conc fp g g' (start i waits room) h = h
  turn-stopped conc fp g g' (answer i before after is x) h = h
  turn-stopped conc fp g g' (fail i before after is) h = h
  turn-stopped conc fp g g' (hit_counted on') h = h
  turn-stopped conc fp g g' (answer_done t before after is) h = h
  turn-stopped conc fp g g' (answer_tokens t before after is) h = h
  turn-stopped conc fp g g' (fail_done k is) h = h
  turn-stopped conc fp g g' (leave k is) h = h

  answered-IsBounded :
      (fp : Story) (g : Generation Story Number) (id : ℕ) (x : Reaction Number) (pending : List ℕ)
      → Among fp g.relay.order
      → IsBounded g.relay
      → IsBounded (answered dec g fp id x pending).relay
        × Among fp (answered dec g fp id x pending).relay.order
  unfolding answered put
  answered-IsBounded fp g id x pending there b = (
    record {
      unique = b.unique;
      held = put-IsHeld dec g.relay g.relay.order fp id x there b.held;
      bounded = b.bounded;
    },
    there,
  )

  turn-IsBounded :
      (conc : ℕ) (fp : Story) (g g' : Generation Story Number)
      → Turn dec conc fp g g'
      → Among fp g.relay.order
      → IsBounded g.relay
      → IsBounded g'.relay × Among fp g'.relay.order
  turn-IsBounded conc fp g g' (stop idle free) there b = (b, there)
  turn-IsBounded conc fp g g' (hit i x idle free next found) there b = (b, there)
  turn-IsBounded conc fp g g' (miss i idle free next new) there b = (b, there)
  turn-IsBounded conc fp g g' (start i waits room) there b = (b, there)
  turn-IsBounded conc fp g g' (answer i before after is x) there b =
      answered-IsBounded fp g i x (before ++ after) there b
  turn-IsBounded conc fp g g' (fail i before after is) there b = (b, there)
  turn-IsBounded conc fp g g' (hit_counted on') there b = (b, there)
  turn-IsBounded conc fp g g' (answer_done t before after is) there b = (b, there)
  turn-IsBounded conc fp g g' (answer_tokens t before after is) there b = (b, there)
  turn-IsBounded conc fp g g' (fail_done k is) there b = (b, there)
  turn-IsBounded conc fp g g' (leave k is) there b = (b, there)

  Reach-Place :
      {conc : ℕ} {r : Relay Story Number} {fp : Story} {archetypes : List ℕ}
      {g : Generation Story Number}
      → Reach dec conc r fp archetypes g
      → (id : ℕ) → Among id archetypes
      → (g.stopped ≡ true) ⊎ Place fp g id
  unfolding started
  Reach-Place begun id a = inr (to_come a)
  Reach-Place {conc} {r} {fp} (turned {g} {g'} way turn) id a = elim (Bool-cases g'.stopped) [
    | inl cut ↦ inl cut
    | inr on ↦ elim (Reach-Place way id a) [
      | inl cut ↦ inl (turn-stopped conc fp g g' turn cut)
      | inr p ↦ inr (turn-Place conc fp g g' id turn on p)
    ]
  ]

  -- The cache stays bounded while the generation runs, and its story stays in the order.
  Reach-IsBounded :
      {conc : ℕ} {r : Relay Story Number} {fp : Story} {archetypes : List ℕ}
      {g : Generation Story Number}
      → Reach dec conc r fp archetypes g
      → 1 ≤ r.max_story
      → IsBounded r
      → IsBounded g.relay × Among fp g.relay.order
  unfolding started answered put
  Reach-IsBounded {r = r} {fp = fp} begun some_one b =
      let (bounded, (front, ends), _, _) = touch_story-IsBounded dec r fp fp some_one b in
      (bounded, subst (Among fp) (sym ends) (within fp front []))
  Reach-IsBounded (turned {g} {g'} way turn) some_one b =
      let (bounded, there) = Reach-IsBounded way some_one b in
      turn-IsBounded _ _ g g' turn there bounded

  -- When an uncancelled `Run` from a bounded cache is over, the cache is bounded, and unless an archetype
  -- has failed it holds a reaction to the story of every archetype asked for.
  pub run_covers :
      {conc : ℕ} {r : Relay Story Number} {fp : Story} {archetypes : List ℕ}
      {g : Generation Story Number} (id : ℕ)
      → Reach dec conc r fp archetypes g
      → 1 ≤ r.max_story
      → IsBounded r
      → IsOver g
      → g.stopped ≡ false
      → Among id archetypes
      → IsBounded g.relay
        × ((1 ≤ g.failed) ⊎ ((x : Reaction Number) × (g.relay.cache fp id ≡ some x)))
  run_covers {fp = fp} {g = g} id way some_one b over on a =
      let (bounded, _) = Reach-IsBounded way some_one b in
      (
        bounded,
        elim (Reach-Place way id a) [
          | inl cut ↦ ground arith
          | inr (to_come l) ↦ absurd (subst (Among id) over.none_left l)
          | inr (asking h) ↦ let bad = sym over.none_asked ∙ h in ground arith
          | inr (out p) ↦ absurd (subst (Among id) over.none_pending p)
          | inr (cached x h) ↦ inr (x, h)
          | inr (lost h) ↦ inl h
        ],
      )
