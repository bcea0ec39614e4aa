-- ===== src/Sim/Graph/Placement.antt =====
-- The two passes of `BuildGraph` in internal/sim/graph.go: in any order of their events the slots of a row hold what
-- the row has received, and nothing is written outside.
use populace.Prelude.{
  ℕ, zero, suc, ◌+◌, ◌-◌, ◌≤◌, ◌<◌, ◌≡◌, ◌≢◌, ◌⊎◌, inl, inr, refl, ap, ◌∙◌, List, [], ◌∷◌, ◌++◌,
  length, length-append, assign, assign_self, assign_ne, ℕ_discrete, dec_lt, arith,
}
use native.Mathlib.Nat.{zero-add, add-zero}
use populace.Sim.Graph.{
  Event, own, back, add_cap, count_pass, Slots, write_row, place, place_pass, slice,
}

-- The row that an event writes to, and what it writes.
abbrev pub target : Event → ℕ
target (own i row) = i
target (back i j) = j

abbrev pub payload : Event → List ℕ
payload (own i row) = row
payload (back i j) = i ∷ []

-- What the events write to row `j`, in their order.
unfoldable pub entries : ℕ → Event → List ℕ
entries j e = elim (ℕ_discrete (target e) j) [ yes h ↦ payload e | no h ↦ [] ]

unfoldable pub received : ℕ → List Event → List ℕ
unfolding entries
received j [] = []
received j (e ∷ es) = entries j e ++ received j es

pub entries_self : (e : Event) → entries (target e) e ≡ payload e
unfolding entries
entries_self e =
    elim (ℕ_discrete (target e) (target e))
      as (λ d. elim d [ yes h ↦ payload e | no h ↦ [] ] ≡ payload e) [
        | yes h ↦ refl
        | no h ↦ absurd (h refl)
      ]

pub entries_other : (e : Event) (j : ℕ) → target e ≢ j → entries j e ≡ []
unfolding entries
entries_other e j other =
    elim (ℕ_discrete (target e) j)
      as (λ d. ◌≡◌ {A = List ℕ} (elim d [ yes h ↦ payload e | no h ↦ [] ]) []) [
        | yes h ↦ absurd (other h)
        | no h ↦ refl
      ]

-- An event adds to one counter as much as it writes.
add_cap_lem : (cap : ℕ → ℕ) (e : Event) (j : ℕ) → add_cap cap e j ≡ cap j + length (entries j e)
unfolding add_cap
add_cap_lem cap (own i row) j = elim (ℕ_discrete i j) [
  | yes h ↦
      rw (← h)
        (rw (assign_self ℕ_discrete cap i (cap i + length row), entries_self (own i row)) refl)
  | no h ↦
      rw (assign_ne ℕ_discrete cap i j (cap i + length row) h, entries_other (own i row) j h) omega
        arith
]
add_cap_lem cap (back i k) j = elim (ℕ_discrete k j) [
  | yes h ↦ rw (← h) (rw (assign_self ℕ_discrete cap k (cap k + 1), entries_self (back i k)) refl)
  | no h ↦ rw (assign_ne ℕ_discrete cap k j (cap k + 1) h, entries_other (back i k) j h) omega arith
]

pub count_pass_lem :
    (cap : ℕ → ℕ) (es : List Event) (j : ℕ) → count_pass cap es j ≡ cap j + length (received j es)
unfolding count_pass received
count_pass_lem cap [] j = omega arith
count_pass_lem cap (e ∷ es) j = omega (
  arith,
  count_pass_lem (add_cap cap e) es j,
  add_cap_lem cap e j,
  length-append (entries j e) (received j es),
)

pub place-cur : (s : Slots) (e : Event) (j : ℕ) → (place s e).cur j ≡ s.cur j + length (entries j e)
unfolding place add_cap
place-cur s (own i row) j = add_cap_lem s.cur (own i row) j
place-cur s (back i k) j = add_cap_lem s.cur (back i k) j

write_row-outside :
    (adj : ℕ → ℕ) (base : ℕ) (row : List ℕ) (p : ℕ)
    → (p < base) ⊎ (base + length row ≤ p)
    → write_row adj base row p ≡ adj p
unfolding write_row
write_row-outside adj base [] p h = refl
write_row-outside adj base (j ∷ row) p h =
    write_row-outside (assign ℕ_discrete adj base j) (base + 1) row p (ground arith)
    ∙ assign_ne ℕ_discrete adj base p j (ground arith)

write_row-slice :
    (adj : ℕ → ℕ) (base : ℕ) (row : List ℕ) → slice (write_row adj base row) base (length row) ≡ row
unfolding write_row slice
write_row-slice adj base [] = refl
write_row-slice adj base (j ∷ row) =
    rw
      (
        write_row-outside (assign ℕ_discrete adj base j) (base + 1) row base (inl (omega arith)),
        assign_self ℕ_discrete adj base j,
        write_row-slice (assign ℕ_discrete adj base j) (base + 1) row,
      )
      refl

place-outside :
    (s : Slots) (e : Event) (p : ℕ)
    → (p < s.cur (target e)) ⊎ (s.cur (target e) + length (payload e) ≤ p)
    → (place s e).adj p ≡ s.adj p
unfolding place
place-outside s (own i row) p h = write_row-outside s.adj (s.cur i) row p h
place-outside s (back i j) p h = assign_ne ℕ_discrete s.adj (s.cur j) p i (ground arith)

place-payload :
    (s : Slots) (e : Event)
    → slice (place s e).adj (s.cur (target e)) (length (payload e)) ≡ payload e
unfolding place slice
place-payload s (own i row) = write_row-slice s.adj (s.cur i) row
place-payload s (back i j) = rw (assign_self ℕ_discrete s.adj (s.cur j) i) refl

place-slice :
    (s : Slots) (e : Event) (j : ℕ)
    → slice (place s e).adj (s.cur j) (length (entries j e)) ≡ entries j e
unfolding slice
place-slice s e j = elim (ℕ_discrete (target e) j) [
  | yes h ↦ rw (← h) (rw (entries_self e) (place-payload s e))
  | no h ↦ rw (entries_other e j h) refl
]

slice-ext :
    (a b : ℕ → ℕ) (lo n : ℕ)
    → ((p : ℕ) → lo ≤ p → p < lo + n → a p ≡ b p)
    → slice a lo n ≡ slice b lo n
unfolding slice
slice-ext a b lo zero h = refl
slice-ext a b lo (suc n) h =
    rw
      (
        h lo (omega arith) (omega arith),
        slice-ext a b (lo + 1) n (λ p from to. h p (omega arith) (omega arith)),
      )
      refl

pub slice-add : (a : ℕ → ℕ) (lo m n : ℕ) → slice a lo (m + n) ≡ slice a lo m ++ slice a (lo + m) n
unfolding slice
slice-add a lo zero n = rw (zero-add n, add-zero lo) refl
slice-add a lo (suc m) n =
    let ih = slice-add a (lo + 1) m n in
    let e : suc m + n ≡ suc (m + n) = omega arith in
    let f : lo + suc m ≡ lo + 1 + m = omega arith in rw (e, f, ih) refl

-- Rows follow one another without overlap, and there is room in each for what it is still to receive.
module _ (off : ℕ → ℕ) (up : (i : ℕ) → off i ≤ off (suc i)) where
  off-le : (i k : ℕ) → off i ≤ off (i + k)
  off-le i zero = rw (add-zero i) omega arith
  off-le i (suc k) =
      let e : i + suc k ≡ suc (i + k) = omega arith in rw e (omega (arith, off-le i k, up (i + k)))

  off-lt : (i j : ℕ) → i < j → off (suc i) ≤ off j
  off-lt i j less =
      let e : j ≡ suc i + (j - suc i) = omega arith in rw e (off-le (suc i) (j - suc i))

  pub record Fits (s : Slots) (es : List Event) : Type 0 where
    pub above : (j : ℕ) → off j ≤ s.cur j
    pub room : (j : ℕ) → s.cur j + length (received j es) ≤ off (suc j)

  place-Fits : (s : Slots) (e : Event) (es : List Event) → Fits s (e ∷ es) → Fits (place s e) es
  unfolding received
  place-Fits s e es f = record {
    above = λ j. omega (arith, f.above j, place-cur s e j);
    room =
        λ j. omega (arith, f.room j, place-cur s e j, length-append (entries j e) (received j es));
  }

  place_pass-elsewhere :
      (s : Slots) (e : Event) (es : List Event) (j p : ℕ)
      → Fits s (e ∷ es)
      → off j ≤ p
      → p < s.cur j
      → (p < s.cur (target e)) ⊎ (s.cur (target e) + length (payload e) ≤ p)
  unfolding received
  place_pass-elsewhere s e es j p f low high = elim (ℕ_discrete (target e) j) [
    | yes h ↦ rw h (inl high)
    | no other ↦ elim (dec_lt (target e) j) [
      | yes before ↦ inr omega (
        arith,
        f.room (target e),
        length-append (entries (target e) e) (received (target e) es),
        ap length (entries_self e),
        off-lt (target e) j before,
      )
      | no after ↦ inl omega (
        arith,
        f.room j,
        f.above (target e),
        off-lt j (target e) (omega (arith, λ (h : target e ≡ j). other h)),
      )
    ]
  ]

  -- A slot that a row has filled is not written again.
  place_pass-kept :
      (s : Slots) (es : List Event) (j p : ℕ)
      → Fits s es
      → off j ≤ p
      → p < s.cur j
      → (place_pass s es).adj p ≡ s.adj p
  unfolding place_pass
  place_pass-kept s [] j p f low high = refl
  place_pass-kept s (e ∷ es) j p f low high =
      place_pass-kept (place s e) es j p (place-Fits s e es f) low (omega (arith, place-cur s e j))
      ∙ place-outside s e p (place_pass-elsewhere s e es j p f low high)

  -- The slots from the counter on hold what the row receives, in that order.
  pub place_pass-slice :
      (s : Slots) (es : List Event) (j : ℕ)
      → Fits s es
      → slice (place_pass s es).adj (s.cur j) (length (received j es)) ≡ received j es
  unfolding place_pass received slice
  place_pass-slice s [] j f = refl
  place_pass-slice s (e ∷ es) j f =
      let rest = place_pass-slice (place s e) es j (place-Fits s e es f) in
      let last = (place_pass (place s e) es).adj in
      let now =
        slice-ext last (place s e).adj (s.cur j) (length (entries j e)) (λ p from to.
          place_pass-kept (place s e) es j p (place-Fits s e es f) (omega (arith, f.above j))
            (omega (arith, place-cur s e j)))
        ∙ place-slice s e j in
      rw
        (
          length-append (entries j e) (received j es),
          slice-add last (s.cur j) (length (entries j e)) (length (received j es)),
          now,
          ← place-cur s e j,
          rest,
        )
        refl
