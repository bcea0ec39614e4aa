-- ===== src/Sim/Graph/Sorting.antt =====
-- `insertionSort` of internal/sim/graph.go and the loop of `BuildGraph` that skips repeats: the order of what they
-- give, and its members.
use populace.Prelude.{
  ℕ, suc, ◌+◌, ◌≤◌, ◌<◌, ◌≡◌, ◌≢◌, ◌⊎◌, ◌↔◌, inl, inr, refl, sym, subst, Option, none, some, List,
  [], ◌∷◌, ◌++◌, reverse, length, length-append, All, All-mono, All-append, Among, Among-append,
  append-Among, ltb, ◌==◌, Bool-cases, arith,
}
use mathlib.Core.List.{reverse-append}
use populace.Sim.Graph.{shift, insert_all, insertion_sort, dedup}

abbrev pub IsDescending : List ℕ → Type 0
IsDescending [] = Unit
IsDescending (x ∷ xs) = All (λ y. y ≤ x) xs × IsDescending xs

abbrev pub IsAscending : List ℕ → Type 0
IsAscending [] = Unit
IsAscending (x ∷ xs) = All (λ y. x ≤ y) xs × IsAscending xs

-- Each entry is below the later ones.
abbrev pub IsIncreasing : List ℕ → Type 0
IsIncreasing [] = Unit
IsIncreasing (x ∷ xs) = All (λ y. x < y) xs × IsIncreasing xs

module _ {κ} (P : ℕ → Type κ) where
  All-shift : (v : ℕ) (front : List ℕ) → P v → All P front → All P (shift v front)
  unfolding shift
  All-shift v [] p a = (p, tt)
  All-shift v (w ∷ front) p a = elim (Bool-cases (ltb v w)) [
    | inl less ↦ rw less (a.0, All-shift v front p a.1)
    | inr not_less ↦ rw not_less (p, a)
  ]

  pub All-Among : (xs : List ℕ) (x : ℕ) → All P xs → Among x xs → P x
  All-Among [] x a m = elim m [ ]
  All-Among (y ∷ xs) x a (inl e) = subst P e a.0
  All-Among (y ∷ xs) x a (inr m) = All-Among xs x a.1 m

  pub Among-All : (xs : List ℕ) → ((x : ℕ) → Among x xs → P x) → All P xs
  Among-All [] f = tt
  Among-All (x ∷ xs) f = (f x (inl refl), Among-All xs (λ y m. f y (inr m)))

shift-IsDescending : (v : ℕ) (front : List ℕ) → IsDescending front → IsDescending (shift v front)
unfolding shift
shift-IsDescending v [] d = (tt, tt)
shift-IsDescending v (w ∷ front) d = elim (Bool-cases (ltb v w)) [
  | inl less ↦
      rw less (All-shift (λ y. y ≤ w) v front (ground arith) d.0, shift-IsDescending v front d.1)
  | inr not_less ↦
      let top : w ≤ v = ground arith in
      rw not_less ((top, All-mono (λ y. y ≤ w) (λ y. y ≤ v) front (λ y h. omega arith) d.0), d)
]

shift-Among : (v x : ℕ) (front : List ℕ) → Among x (shift v front) ↔ (v ≡ x) ⊎ Among x front
unfolding shift
shift-Among v x [] = (λ m. m, λ m. m)
shift-Among v x (w ∷ front) = elim (Bool-cases (ltb v w)) [
  | inl less ↦
      let ih = shift-Among v x front in
      rw less (
        λ m. elim m [
          | inl e ↦ inr (inl e)
          | inr k ↦ elim (ih.0 k) [ inl e ↦ inl e | inr j ↦ inr (inr j) ]
        ],
        λ m. elim m [
          | inl e ↦ inr (ih.1 (inl e))
          | inr k ↦ elim k [ inl e ↦ inl e | inr j ↦ inr (ih.1 (inr j)) ]
        ],
      )
  | inr not_less ↦ rw not_less (λ m. m, λ m. m)
]

insert_all-IsDescending :
    (front a : List ℕ) → IsDescending front → IsDescending (insert_all front a)
unfolding insert_all
insert_all-IsDescending front [] d = d
insert_all-IsDescending front (v ∷ a) d =
    insert_all-IsDescending (shift v front) a (shift-IsDescending v front d)

insert_all-Among :
    (x : ℕ) (front a : List ℕ) → Among x (insert_all front a) ↔ Among x front ⊎ Among x a
unfolding insert_all
insert_all-Among x front [] = (λ m. inl m, λ m. elim m [ inl k ↦ k | inr k ↦ absurd k ])
insert_all-Among x front (v ∷ a) =
    let ih = insert_all-Among x (shift v front) a in
    let one = shift-Among v x front in
    (
      λ m. elim (ih.0 m) [
        | inl k ↦ elim (one.0 k) [ inl e ↦ inr (inl e) | inr j ↦ inl j ]
        | inr k ↦ inr (inr k)
      ],
      λ m. elim m [
        | inl k ↦ ih.1 (inl (one.1 (inr k)))
        | inr k ↦ elim k [ inl e ↦ ih.1 (inl (one.1 (inl e))) | inr j ↦ ih.1 (inr j) ]
      ],
    )

reverse-cons : (x : ℕ) (xs : List ℕ) → reverse (x ∷ xs) ≡ reverse xs ++ x ∷ []
reverse-cons x xs = reverse-append (x ∷ []) xs

reverse-Among : (v : ℕ) (xs : List ℕ) → Among v (reverse xs) ↔ Among v xs
reverse-Among v [] = (λ m. m, λ m. m)
reverse-Among v (x ∷ xs) =
    let ih = reverse-Among v xs in
    rw (reverse-cons x xs) (
      λ m. elim (Among-append v (reverse xs) (x ∷ []) m) [
        | inl k ↦ inr (ih.0 k)
        | inr k ↦ elim k [ inl e ↦ inl e | inr none_left ↦ absurd none_left ]
      ],
      λ m.
          append-Among v (reverse xs) (x ∷ [])
            (elim m [ inl e ↦ inr (inl e) | inr k ↦ inl (ih.1 k) ]),
    )

append-IsAscending :
    (xs : List ℕ) (x : ℕ) → IsAscending xs → All (λ y. y ≤ x) xs → IsAscending (xs ++ x ∷ [])
append-IsAscending [] x a below = (tt, tt)
append-IsAscending (y ∷ xs) x a below =
    (All-append (λ z. y ≤ z) xs (x ∷ []) a.0 (below.0, tt), append-IsAscending xs x a.1 below.1)

reverse-IsAscending : (xs : List ℕ) → IsDescending xs → IsAscending (reverse xs)
reverse-IsAscending [] d = tt
reverse-IsAscending (x ∷ xs) d = rw (reverse-cons x xs) (
    append-IsAscending (reverse xs) x (reverse-IsAscending xs d.1) (
      Among-All (λ y. y ≤ x) (reverse xs)
        (λ y m. All-Among (λ z. z ≤ x) xs y d.0 ((reverse-Among y xs).0 m))))

pub insertion_sort-IsAscending : (a : List ℕ) → IsAscending (insertion_sort a)
unfolding insertion_sort
insertion_sort-IsAscending a =
    reverse-IsAscending (insert_all [] a) (insert_all-IsDescending [] a tt)

shift-length : (v : ℕ) (front : List ℕ) → length (shift v front) ≡ suc (length front)
unfolding shift
shift-length v [] = refl
shift-length v (w ∷ front) = ground (arith, shift-length v front)

insert_all-length : (front a : List ℕ) → length (insert_all front a) ≡ length front + length a
unfolding insert_all
insert_all-length front [] = omega arith
insert_all-length front (v ∷ a) =
    omega (arith, insert_all-length (shift v front) a, shift-length v front)

reverse-length : (xs : List ℕ) → length (reverse xs) ≡ length xs
reverse-length [] = refl
reverse-length (x ∷ xs) =
    rw (reverse-cons x xs) omega (arith, length-append (reverse xs) (x ∷ []), reverse-length xs)

pub insertion_sort-length : (a : List ℕ) → length (insertion_sort a) ≡ length a
unfolding insertion_sort
insertion_sort-length a = omega (arith, reverse-length (insert_all [] a), insert_all-length [] a)

pub insertion_sort-Among : (x : ℕ) (a : List ℕ) → Among x (insertion_sort a) ↔ Among x a
unfolding insertion_sort
insertion_sort-Among x a =
    let r = reverse-Among x (insert_all [] a) in
    let i = insert_all-Among x [] a in
    (λ m. elim (i.0 (r.0 m)) [ inl k ↦ absurd k | inr k ↦ k ], λ m. r.1 (i.1 (inr m)))

module _ (self : ℕ) where
  dedup-Among :
      (x : ℕ) (last : Option ℕ) (row : List ℕ)
      → Among x (dedup self last row)
      → Among x row × (x ≢ self)
  unfolding dedup
  dedup-Among x last [] m = absurd m
  dedup-Among x none (v ∷ row) m =
      ground (arith, dedup-Among x none row, dedup-Among x (some v) row)
  dedup-Among x (some w) (v ∷ row) m =
      ground (arith, dedup-Among x (some w) row, dedup-Among x (some v) row)

  abbrev IsNew : Option ℕ → ℕ → Type 0
  IsNew none x = Unit
  IsNew (some w) x = x ≢ w

  Among-dedup :
      (x : ℕ) (last : Option ℕ) (row : List ℕ)
      → x ≢ self
      → IsNew last x
      → Among x row
      → Among x (dedup self last row)
  unfolding dedup
  Among-dedup x last [] other new m = absurd m
  Among-dedup x none (v ∷ row) other new m =
      ground (arith, Among-dedup x none row, Among-dedup x (some v) row)
  Among-dedup x (some w) (v ∷ row) other new m =
      ground (arith, Among-dedup x (some w) row, Among-dedup x (some v) row)

  abbrev IsAfter : Option ℕ → List ℕ → Type 0
  IsAfter none row = Unit
  IsAfter (some w) row = All (λ y. w < y) row

  abbrev IsFrom : Option ℕ → List ℕ → Type 0
  IsFrom none row = Unit
  IsFrom (some w) row = All (λ y. w ≤ y) row

  dedup-IsIncreasing :
      (last : Option ℕ) (row : List ℕ)
      → IsAscending row
      → IsFrom last row
      → IsAfter last (dedup self last row) × IsIncreasing (dedup self last row)
  unfolding dedup
  dedup-IsIncreasing none [] a from = (tt, tt)
  dedup-IsIncreasing (some w) [] a from = (tt, tt)
  dedup-IsIncreasing none (v ∷ row) a from =
      ground (arith, dedup-IsIncreasing none row, dedup-IsIncreasing (some v) row)
  dedup-IsIncreasing (some w) (v ∷ row) a from = elim (Bool-cases (v == self)) [
    | inl same ↦ rw same (dedup-IsIncreasing (some w) row a.1 from.1)
    | inr other ↦ elim (Bool-cases (w == v)) [
      | inl repeat ↦ rw (other, repeat) (dedup-IsIncreasing (some w) row a.1 from.1)
      | inr fresh ↦
          let (after, rest) = dedup-IsIncreasing (some v) row a.1 a.0 in
          let less : w < v = ground arith in
          rw (other, fresh)
            (
              (
                less,
                All-mono (λ y. v < y) (λ y. w < y) (dedup self (some v) row) (λ y h. omega arith)
                    after,
              ),
              (after, rest),
            )
    ]
  ]

-- Two increasing rows with the same members are the same.
pub increasing-ext :
    (xs ys : List ℕ)
    → IsIncreasing xs
    → IsIncreasing ys
    → ((v : ℕ) → Among v xs ↔ Among v ys)
    → xs ≡ ys
increasing-ext [] [] a b same = refl
increasing-ext [] (y ∷ ys) a b same = absurd ((same y).1 (inl refl))
increasing-ext (x ∷ xs) [] a b same = absurd ((same x).0 (inl refl))
increasing-ext (x ∷ xs) (y ∷ ys) a b same =
    let e : x ≡ y = elim (((same x).0 (inl refl))) [
      | inl h ↦ sym h
      | inr later ↦ elim ((same y).1 (inl refl)) [
        | inl h ↦ h
        | inr later' ↦
            let p = All-Among (λ z. y < z) ys x b.0 later in
            let q = All-Among (λ z. x < z) xs y a.0 later' in absurd (omega arith)
      ]
    ] in
    let rest = increasing-ext xs ys a.1 b.1 (λ v. (
      λ m. elim ((same v).0 (inr m)) [
        | inl h ↦ absurd (let p = All-Among (λ z. x < z) xs v a.0 m in omega arith)
        | inr k ↦ k
      ],
      λ m. elim ((same v).1 (inr m)) [
        | inl h ↦ absurd (let p = All-Among (λ z. y < z) ys v b.0 m in omega arith)
        | inr k ↦ k
      ],
    )) in
    cc

-- What is left of a row: increasing, and its members are those of the row without the node itself.
pub sorted_row-Among :
    (self x : ℕ) (a : List ℕ)
    → Among x (dedup self none (insertion_sort a)) ↔ Among x a × (x ≢ self)
sorted_row-Among self x a =
    let s = insertion_sort-Among x a in
    (
      λ m. let d = dedup-Among self x none (insertion_sort a) m in (s.0 d.0, d.1),
      λ m. Among-dedup self x none (insertion_sort a) m.1 tt (s.1 m.0),
    )

pub sorted_row-IsIncreasing :
    (self : ℕ) (a : List ℕ) → IsIncreasing (dedup self none (insertion_sort a))
sorted_row-IsIncreasing self a =
    (dedup-IsIncreasing self none (insertion_sort a) (insertion_sort-IsAscending a) tt).1
