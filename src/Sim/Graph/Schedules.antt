-- ===== src/Sim/Graph/Schedules.antt =====
-- The orders in which the goroutines of `BuildGraph` in internal/sim/graph.go can run: what a row receives in each.
use populace.Prelude.{
  ℕ, zero, suc, ◌+◌, ◌≤◌, ◌<◌, ◌≡◌, ◌≢◌, ◌⊎◌, ◌↔◌, inl, inr, refl, sym, ap, ◌∙◌, subst, List, [],
  ◌∷◌, map, length, length-append, Among, Among-append, append-Among, ltb, if◌then◌else◌, assign,
  assign_self, assign_ne, ℕ_discrete, dec_lt, Bool-cases, lt→ltb, arith,
}
use native.Mathlib.Nat.{add_comm}
use populace.Sim.Graph.{Event, own, back, program, Merge, over, next}
use populace.Sim.Graph.Placement.{entries, received, entries_self, entries_other}

-- The programs of the nodes below `n`.
abbrev pub programs : ℕ → (ℕ → List ℕ) → ℕ → List Event
programs n proposals i = if ltb i n then program proposals i else []

-- The events of a merge are those of its programs.
Merge-Among :
    {threads : ℕ → List Event} {es : List Event} (e : Event)
    → Merge threads es
    → Among e es
    → (i : ℕ) × Among e (threads i)
Merge-Among e (over done) m = absurd m
Merge-Among {threads} e (next i a rest has others) (inl h) = (i, rw has (inl h))
Merge-Among {threads} e (next i a rest has others) (inr m) =
    let (k, at) = Merge-Among e others m in
    elim (ℕ_discrete i k) [
      | yes h ↦ (
        i,
        rw has (
            inr (
              subst (λ es. Among e es) (assign_self ℕ_discrete threads i rest)
                (subst (λ q. Among e (assign ℕ_discrete threads i rest q)) (sym h) at))),
      )
      | no h ↦ (k, subst (λ es. Among e es) (assign_ne ℕ_discrete threads i k rest h) at)
    ]

Among-Merge :
    {threads : ℕ → List Event} {es : List Event} (e : Event) (k : ℕ)
    → Merge threads es
    → Among e (threads k)
    → Among e es
Among-Merge e k (over done) m = subst (λ es. Among e es) (done k) m
Among-Merge {threads} e k (next i a rest has others) m = elim (ℕ_discrete i k) [
  | yes h ↦ elim (subst (λ es. Among e es) has (subst (λ q. Among e (threads q)) (sym h) m)) [
    | inl same ↦ inl same
    | inr later ↦ inr (
        Among-Merge e i others
          (subst (λ es. Among e es) (sym (assign_self ℕ_discrete threads i rest)) later))
  ]
  | no h ↦ inr (
      Among-Merge e k others
        (subst (λ es. Among e es) (sym (assign_ne ℕ_discrete threads i k rest h)) m))
]

unfoldable pub sum_below : ℕ → (ℕ → ℕ) → ℕ
sum_below zero f = 0
sum_below (suc n) f = sum_below n f + f n

pub sum_below-ext :
    (n : ℕ) (f g : ℕ → ℕ) → ((i : ℕ) → i < n → f i ≡ g i) → sum_below n f ≡ sum_below n g
unfolding sum_below
sum_below-ext zero f g h = refl
sum_below-ext (suc n) f g h =
    rw (h n (omega arith), sum_below-ext n f g (λ i b. h i (omega arith))) refl

pub sum_below-change :
    (n : ℕ) (f g : ℕ → ℕ) (k d : ℕ)
    → k < n
    → f k ≡ g k + d
    → ((i : ℕ) → k ≢ i → f i ≡ g i)
    → sum_below n f ≡ sum_below n g + d
unfolding sum_below
sum_below-change zero f g k d below at others = absurd (omega arith)
sum_below-change (suc n) f g k d below at others = elim (ℕ_discrete k n) [
  | yes h ↦
      let rest = sum_below-ext n f g (λ i b. others i (λ e. omega arith)) in
      let top : f n ≡ g n + d = subst (λ q. f q ≡ g q + d) h at in omega arith
  | no h ↦
      let rest = sum_below-change n f g k d (omega arith) at others in
      let top = others n h in omega arith
]

sum_below-zero : (n : ℕ) (f : ℕ → ℕ) → ((i : ℕ) → f i ≡ 0) → 0 ≡ sum_below n f
unfolding sum_below
sum_below-zero zero f h = refl
sum_below-zero (suc n) f h = rw (h n, ← sum_below-zero n f h) refl

module _ (j : ℕ) where
  load : List Event → ℕ
  load es = length (received j es)

  -- A row receives as much in each order.
  Merge-load :
      {threads : ℕ → List Event} {es : List Event} (n : ℕ)
      → ((i : ℕ) → n ≤ i → threads i ≡ [])
      → Merge threads es
      → load es ≡ sum_below n (λ i. load (threads i))
  unfolding load received
  Merge-load {threads} n idle (over done) =
      sum_below-zero n (λ i. load (threads i)) (λ i. ap load (done i))
  Merge-load {threads} n idle (next {es = es} i e rest has others) =
      let left = assign ℕ_discrete threads i rest in
      let busy : i < n = elim (dec_lt i n) [
        | yes h ↦ h
        | no h ↦ absurd (cc (idle i (omega arith)))
      ] in
      let ih =
        Merge-load {threads = left} n
          (λ k after. assign_ne ℕ_discrete threads i k rest (λ h. omega arith) ∙ idle k after)
          others in
      let change =
        sum_below-change n (λ k. load (threads k)) (λ k. load (left k)) i (length (entries j e))
          busy
          (ap load has
            ∙ length-append (entries j e) (received j rest)
            ∙ ap (λ (q : ℕ). length (entries j e) + q)
                (sym (ap load (assign_self ℕ_discrete threads i rest)))
            ∙ add_comm (length (entries j e)) (load (left i)))
          (λ k other. sym (ap load (assign_ne ℕ_discrete threads i k rest other))) in
      omega (arith, ih, change, length-append (entries j e) (received j es))

  -- What row `j` receives, and from whom.
  entries-Among :
      (v : ℕ) (e : Event)
      → Among v (entries j e)
      → ((row : List ℕ) × (e ≡ own j row) × Among v row) ⊎ (e ≡ back v j)
  unfolding entries
  entries-Among v (own i row) m = elim (ℕ_discrete i j) [
    | yes h ↦ inl (
      row,
      ap (λ q. own q row) h,
      subst (λ xs. Among v xs)
          (subst (λ q. entries q (own i row) ≡ row) h (entries_self (own i row))) m,
    )
    | no h ↦ absurd (subst (λ xs. Among v xs) (entries_other (own i row) j h) m)
  ]
  entries-Among v (back i k) m = elim (ℕ_discrete k j) [
    | yes h ↦
        elim (subst (λ xs. Among v xs)
          (subst (λ q. entries q (back i k) ≡ i ∷ []) h (entries_self (back i k))) m) [
            | inl e ↦ inr (cc)
            | inr none_left ↦ absurd none_left
          ]
    | no h ↦ absurd (subst (λ xs. Among v xs) (entries_other (back i k) j h) m)
  ]

  received-Among :
      (v : ℕ) (es : List Event)
      → Among v (received j es)
      → ((row : List ℕ) × Among (own j row) es × Among v row) ⊎ Among (back v j) es
  unfolding received
  received-Among v [] m = absurd m
  received-Among v (e ∷ es) m = elim (Among-append v (entries j e) (received j es) m) [
    | inl now ↦ elim (entries-Among v e now) [
      | inl (row, is, at) ↦ inl (row, inl is, at)
      | inr is ↦ inr (inl is)
    ]
    | inr later ↦ elim (received-Among v es later) [
      | inl (row, is, at) ↦ inl (row, inr is, at)
      | inr is ↦ inr (inr is)
    ]
  ]

  Among-own :
      (v : ℕ) (row : List ℕ) (es : List Event)
      → Among (own j row) es
      → Among v row
      → Among v (received j es)
  unfolding received
  Among-own v row [] m at = absurd m
  Among-own v row (e ∷ es) (inl is) at = append-Among v (entries j e) (received j es) (
      inl (
        subst (λ d. Among v (entries j d)) (sym is)
          (subst (λ xs. Among v xs) (sym (entries_self (own j row))) at)))
  Among-own v row (e ∷ es) (inr m) at =
      append-Among v (entries j e) (received j es) (inr (Among-own v row es m at))

  Among-back : (v : ℕ) (es : List Event) → Among (back v j) es → Among v (received j es)
  unfolding received
  Among-back v [] m = absurd m
  Among-back v (e ∷ es) (inl is) = append-Among v (entries j e) (received j es) (
      inl (
        subst (λ d. Among v (entries j d)) (sym is)
          (subst (λ xs. Among v xs) (sym (entries_self (back v j))) (inl refl))))
  Among-back v (e ∷ es) (inr m) =
      append-Among v (entries j e) (received j es) (inr (Among-back v es m))

backs-Among :
    (i : ℕ) (ps : List ℕ) (e : Event)
    → Among e (map (λ k. back i k) ps)
    → (k : ℕ) × (back i k ≡ e) × Among k ps
backs-Among i [] e m = absurd m
backs-Among i (p ∷ ps) e (inl is) = (p, is, inl refl)
backs-Among i (p ∷ ps) e (inr m) = let (k, is, at) = backs-Among i ps e m in (k, is, inr at)

Among-backs : (i k : ℕ) (ps : List ℕ) → Among k ps → Among (back i k) (map (λ q. back i q) ps)
Among-backs i k [] m = absurd m
Among-backs i k (p ∷ ps) (inl e) = inl (ap (λ q. back i q) e)
Among-backs i k (p ∷ ps) (inr m) = inr (Among-backs i k ps m)

module _ (n : ℕ) (proposals : ℕ → List ℕ) where
  idle_after : (i : ℕ) → n ≤ i → programs n proposals i ≡ []
  idle_after i after = ground arith

  -- `v` is to stand in row `j`: one of the two has proposed the other.
  abbrev pub IsTied : ℕ → ℕ → Type 0
  IsTied j v = ((j < n) × Among v (proposals j)) ⊎ ((v < n) × Among j (proposals v))

  own-programs :
      (i j : ℕ) (row : List ℕ)
      → Among (own j row) (programs n proposals i)
      → (j < n) × (proposals j ≡ row)
  unfolding program
  own-programs i j row m = elim (Bool-cases (ltb i n)) [
    | inl below ↦
        elim (subst (λ b. Among (own j row) (if b then program proposals i else [])) below m) [
          | inl e ↦
              let same : i ≡ j = cc in
              let is : proposals i ≡ row = cc in (ground arith, ap proposals (sym same) ∙ is)
          | inr later ↦
              let (k, is, at) = backs-Among i (proposals i) (own j row) later in absurd (cc)
        ]
    | inr above ↦
        absurd (subst (λ b. Among (own j row) (if b then program proposals i else [])) above m)
  ]

  back-programs :
      (i v j : ℕ) → Among (back v j) (programs n proposals i) → (v < n) × Among j (proposals v)
  unfolding program
  back-programs i v j m = elim (Bool-cases (ltb i n)) [
    | inl below ↦
        elim (subst (λ b. Among (back v j) (if b then program proposals i else [])) below m) [
          | inl e ↦ absurd (cc)
          | inr later ↦
              let (k, is, at) = backs-Among i (proposals i) (back v j) later in
              let same : i ≡ v = cc in
              let there : k ≡ j = cc in
              (
                ground arith,
                subst (λ q. Among j (proposals q)) same
                    (subst (λ q. Among q (proposals i)) there at),
              )
        ]
    | inr above ↦
        absurd (subst (λ b. Among (back v j) (if b then program proposals i else [])) above m)
  ]

  -- A row receives exactly the nodes that it is tied to.
  pub Merge-received :
      (es : List Event) (j v : ℕ)
      → Merge (programs n proposals) es
      → Among v (received j es) ↔ IsTied j v
  unfolding program
  Merge-received es j v run = (
    λ m. elim (received-Among j v es m) [
      | inl (row, is, at) ↦
          let (i, of) = Merge-Among (own j row) run is in
          let (below, same) = own-programs i j row of in
          inl (below, subst (λ xs. Among v xs) (sym same) at)
      | inr is ↦ let (i, of) = Merge-Among (back v j) run is in inr (back-programs i v j of)
    ],
    λ t. elim t [
      | inl (below, at) ↦
          Among-own j v (proposals j) es
            (Among-Merge (own j (proposals j)) j run (
              subst (λ b. Among (own j (proposals j)) (if b then program proposals j else []))
                (sym (lt→ltb j n below)) (inl refl)))
            at
      | inr (below, at) ↦ Among-back j v es (
          Among-Merge (back v j) v run (
            subst (λ b. Among (back v j) (if b then program proposals v else []))
              (sym (lt→ltb v n below)) (inr (Among-backs v j (proposals v) at))))
    ],
  )

  -- The two passes may run in different orders: each row receives as much in both.
  pub Merge-length :
      (counting placing : List Event) (j : ℕ)
      → Merge (programs n proposals) counting
      → Merge (programs n proposals) placing
      → length (received j counting) ≡ length (received j placing)
  unfolding load
  Merge-length counting placing j a b =
      let idle = λ (i : ℕ) (after : n ≤ i). idle_after i after in
      Merge-load j n idle a ∙ sym (Merge-load j n idle b)
