-- ===== src/Sim/History/Latest.antt =====
-- The ring of internal/sim/stats.go keeps the latest samples in their order.
use populace.Prelude.{
  ℕ, zero, suc, ◌+◌, ◌-◌, ◌%◌, ◌≤◌, ◌<◌, ◌≡◌, refl, sym, ap, ◌∙◌, subst, true, false, List, [], ◌∷◌,
  ◌++◌, length, length-append, set, ltb, lt→ltb, dec_lt, inl, inr, ◌⊎◌, arith,
}
use native.Mathlib.Nat.{mod-eq_of_lt, mod-lt, mod_self}
use mathlib.Core.List.{append-nil, append_assoc}
use populace.Sim.History.{
  take, drop, Ring, empty_ring, record_sample, history_of, record_all, latest,
}

module _ {A : Type 0} where
  take-append : (xs ys : List A) → take (length xs) (xs ++ ys) ≡ xs
  unfolding take
  take-append [] ys = refl
  take-append (x ∷ xs) ys = ap (λ q. x ∷ q) (take-append xs ys)

  drop-append : (xs ys : List A) → drop (length xs) (xs ++ ys) ≡ ys
  unfolding drop
  drop-append [] ys = refl
  drop-append (x ∷ xs) ys = drop-append xs ys

  pub take-drop : (n : ℕ) (xs : List A) → take n xs ++ drop n xs ≡ xs
  unfolding take drop
  take-drop zero xs = refl
  take-drop (suc n) [] = refl
  take-drop (suc n) (x ∷ xs) = ap (λ q. x ∷ q) (take-drop n xs)

  length-take : (n : ℕ) (xs : List A) → n ≤ length xs → length (take n xs) ≡ n
  unfolding take
  length-take zero xs h = refl
  length-take (suc n) [] h = absurd (omega arith)
  length-take (suc n) (x ∷ xs) h = ap suc (length-take n xs (omega arith))

  drop-tail : (n : ℕ) (xs ys : List A) → n ≤ length xs → drop n (xs ++ ys) ≡ drop n xs ++ ys
  unfolding drop
  drop-tail zero xs ys h = refl
  drop-tail (suc n) [] ys h = absurd (omega arith)
  drop-tail (suc n) (x ∷ xs) ys h = drop-tail n xs ys (omega arith)

  set-append : (xs ys : List A) (x v : A) → set (xs ++ x ∷ ys) (length xs) v ≡ xs ++ v ∷ ys
  set-append [] ys x v = refl
  set-append (y ∷ xs) ys x v = ap (λ q. y ∷ q) (set-append xs ys x v)

module _ {A : Type 0} where
  -- The ring has seen `xs`: all of it is there while there is room, and else the ring, read around from its head, is
  -- the last `cap` of it.
  abbrev Holds : ℕ → Ring A → List A → Type 0
  Holds cap s xs =
      ((length xs < cap) × (s.history ≡ xs) × (s.head ≡ 0))
      ⊎ ((cap ≤ length xs)
          × (length s.history ≡ cap)
          × (s.head < cap)
          × (drop s.head s.history ++ take s.head s.history ≡ latest cap xs))

  split_at :
      (n : ℕ) (xs : List A)
      → n < length xs
      → (front : List A) × ((x : A) × ((back : List A) × (xs ≡ front ++ x ∷ back)
            × (length front ≡ n)))
  split_at n [] h = absurd (omega arith)
  split_at zero (x ∷ xs) h = ([], (x, (xs, refl, refl)))
  split_at (suc n) (x ∷ xs) h =
      let (front, (y, (back, is, size))) = split_at n xs (omega arith) in
      (x ∷ front, (y, (back, ap (λ q. x ∷ q) is, ap suc size)))

  drop-suc :
      (n : ℕ) (xs : List A) (x : A) (rest : List A) → drop n xs ≡ x ∷ rest → drop (suc n) xs ≡ rest
  unfolding drop
  drop-suc zero [] x rest h = absurd (cc)
  drop-suc zero (y ∷ xs) x rest h = cc
  drop-suc (suc n) [] x rest h = absurd (cc)
  drop-suc (suc n) (y ∷ xs) x rest h = drop-suc n xs x rest h

  -- The ring around a head that splits it.
  around :
      (front back : List A) (x : A) (h : ℕ)
      → length front ≡ h
      → drop h (front ++ x ∷ back) ++ take h (front ++ x ∷ back) ≡ x ∷ (back ++ front)
  around front back x h size =
      rw (← size) (rw (drop-append front (x ∷ back), take-append front (x ∷ back)) refl)

  around_next :
      (front back : List A) (sm : A)
      → drop (suc (length front)) (front ++ sm ∷ back)
          ++ take (suc (length front)) (front ++ sm ∷ back)
        ≡ back ++ (front ++ sm ∷ [])
  around_next front back sm =
      let size : length (front ++ sm ∷ []) ≡ suc (length front) =
        omega (arith, length-append front (sm ∷ [])) in
      rw (← append_assoc front (sm ∷ []) back, ← size)
        (rw (drop-append (front ++ sm ∷ []) back, take-append (front ++ sm ∷ []) back) refl)

  latest-suc :
      (cap : ℕ) (xs rest : List A) (x sm : A)
      → cap ≤ length xs
      → latest cap xs ≡ x ∷ rest
      → latest cap (xs ++ sm ∷ []) ≡ rest ++ sm ∷ []
  latest-suc cap xs rest x sm full is =
      let count : length (xs ++ sm ∷ []) - cap ≡ suc (length xs - cap) =
        omega (arith, length-append xs (sm ∷ [])) in
      rw count (
        drop-suc (length xs - cap) (xs ++ sm ∷ []) x (rest ++ sm ∷ [])
          (drop-tail (length xs - cap) xs (sm ∷ []) (omega arith) ∙ ap (λ q. q ++ sm ∷ []) is))

  -- The ring is just full.
  fresh :
      (cap : ℕ) (s : Ring A) (xs : List A) (sm : A)
      → s.history ≡ xs
      → s.head ≡ 0
      → length (xs ++ sm ∷ []) ≡ cap
      → drop s.head (s.history ++ sm ∷ []) ++ take s.head (s.history ++ sm ∷ [])
        ≡ latest cap (xs ++ sm ∷ [])
  unfolding take drop
  fresh cap s xs sm is start full =
      let count : length (xs ++ sm ∷ []) - cap ≡ 0 = omega arith in
      rw (start, is, count) (append-nil (xs ++ sm ∷ []))

  -- The ring after a write at its head, which moves on.
  turned :
      (cap head : ℕ) (front back : List A) (sm : A)
      → length front ≡ head
      → length front + suc (length back) ≡ cap
      → let h = (head + 1) % cap in
        drop h (front ++ sm ∷ back) ++ take h (front ++ sm ∷ back) ≡ back ++ (front ++ sm ∷ [])
  unfolding take drop
  turned cap head front [] sm split whole =
      let h : (head + 1) % cap ≡ 0 = let e : head + 1 ≡ cap = omega arith in rw e (mod_self cap) in
      rw h (append-nil (front ++ sm ∷ []))
  turned cap head front (b ∷ back) sm split whole =
      let h : (head + 1) % cap ≡ suc (length front) = mod-eq_of_lt (omega arith) ∙ omega arith in
      rw h (around_next front (b ∷ back) sm)

  record_sample-Holds :
      (cap : ℕ) (s : Ring A) (xs : List A) (sm : A)
      → 1 ≤ cap
      → Holds cap s xs
      → Holds cap (record_sample cap s sm) (xs ++ sm ∷ [])
  unfolding record_sample
  record_sample-Holds cap s xs sm some_room (inl (short, is, start)) =
      let longer = length-append xs (sm ∷ []) in
      let room : ltb (length s.history) cap ≡ true = lt→ltb _ _ (omega (arith, ap length is)) in
      rw room (elim (dec_lt (length (xs ++ sm ∷ [])) cap) [
        | yes still ↦ inl (still, ap (λ q. q ++ sm ∷ []) is, start)
        | no full ↦ inr (
          omega arith,
          omega (arith, length-append s.history (sm ∷ []), ap length is),
          omega arith,
          fresh cap s xs sm is start (omega arith),
        )
      ])
  record_sample-Holds cap s xs sm some_room (inr (full, size, low, view)) =
      let no_room : ltb (length s.history) cap ≡ false = ground arith in
      let (front, (x, (back, is, split))) = split_at s.head s.history (omega arith) in
      let written : set s.history s.head sm ≡ front ++ sm ∷ back =
        ap (λ q. set q s.head sm) is
        ∙ ap (λ h. set (front ++ x ∷ back) h sm) (sym split)
        ∙ set-append front back x sm in
      let whole = ap length is ∙ length-append front (x ∷ back) in
      let old : latest cap xs ≡ x ∷ (back ++ front) =
        sym view ∙ ap (λ q. drop s.head q ++ take s.head q) is ∙ around front back x s.head split in
      let new = latest-suc cap xs (back ++ front) x sm full old in
      let sizes = length-append front (sm ∷ back) in
      rw (no_room, written)
        (inr (
          omega (arith, length-append xs (sm ∷ [])),
          omega (arith, sizes, whole),
          mod-lt (s.head + 1) (omega arith),
          turned cap s.head front back sm split (omega (arith, whole))
              ∙ sym (append_assoc back front (sm ∷ []))
              ∙ sym new,
        ))

  kept : (xs : List A) → xs ≡ drop 0 xs
  unfolding drop
  kept xs = refl

  record_all-Holds :
      (cap : ℕ) (s : Ring A) (xs sms : List A)
      → 1 ≤ cap
      → Holds cap s xs
      → Holds cap (record_all cap s sms) (xs ++ sms)
  unfolding record_all
  record_all-Holds cap s xs [] some_room h = rw (append-nil xs) h
  record_all-Holds cap s xs (sm ∷ sms) some_room h =
      subst (λ q. Holds cap (record_all cap (record_sample cap s sm) sms) q)
        (append_assoc xs (sm ∷ []) sms)
        (record_all-Holds cap (record_sample cap s sm) (xs ++ sm ∷ []) sms some_room
          (record_sample-Holds cap s xs sm some_room h))

  -- After any samples have been recorded on an empty ring, `History` gives the last of them, as many as the ring has
  -- room for, in the order in which they were recorded.
  pub history_of-record_all :
      (cap : ℕ) (sms : List A)
      → 1 ≤ cap
      → history_of cap (record_all cap empty_ring sms) ≡ latest cap sms
  unfolding history_of
  history_of-record_all cap sms some_room =
      let s = record_all cap empty_ring sms in
      elim (record_all-Holds cap empty_ring [] sms some_room (inl (omega arith, refl, refl))) [
        | inl (short, is, start) ↦
            let room : ltb (length s.history) cap ≡ true =
              lt→ltb _ _ (omega (arith, ap length is)) in
            let none_lost : length sms - cap ≡ 0 = omega arith in
            rw (room, none_lost, is) (kept sms)
        | inr (full, size, low, view) ↦
            let no_room : ltb (length s.history) cap ≡ false = ground arith in rw no_room view
      ]
