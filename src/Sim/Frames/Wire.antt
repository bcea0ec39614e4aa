-- ===== src/Sim/Frames/Wire.antt =====
-- The frames of internal/sim/sim.go read back, by the layout that its comments give: a magic, a count and a
-- tick of 32 bits, and then `count` flags, or `count` pairs of an index and flags.
use populace.Prelude.{
  ℕ, zero, suc, ◌+◌, ◌*◌, ◌/◌, ◌%◌, ◌≤◌, ◌<◌, ◌≡◌, ◌⊎◌, inl, inr, refl, subst, ◌∙◌, ◌&&◌, Option,
  none, some, List, [], ◌∷◌, length, All, Among, ◌==◌, if◌then◌else◌, assign, assign_self,
  assign_ne, ℕ_discrete, arith,
}
use populace.Sim.Frames.{full_body, delta_body}

abbrev pub read16 : List ℕ → Option (ℕ × List ℕ)
read16 (a ∷ b ∷ rest) = some (a + 256 * b, rest)
read16 _ = none

abbrev pub read32 : List ℕ → Option (ℕ × List ℕ)
read32 (a ∷ b ∷ c ∷ d ∷ rest) = some (a + 256 * b + 65536 * c + 16777216 * d, rest)
read32 _ = none

pub word16 : (x : ℕ) → x < 65536 → x % 256 + 256 * (x / 256 % 256) ≡ x
word16 x small = omega arith

pub word32 :
    (x : ℕ)
    → x < 4294967296
    → x % 256 + 256 * (x / 256 % 256) + 65536 * (x / 65536 % 256) + 16777216 * (x / 16777216 % 256)
      ≡ x
word32 x small = omega arith

infixl 10 ◌>>=◌
abbrev pub ◌>>=◌ : {A B : Type 0} → Option A → (A → Option B) → Option B
none >>= f = none
some a >>= f = f a

-- The flags of a full frame, from the index `i` on.
unfoldable pub read_full : ℕ → ℕ → (ℕ → ℕ) → List ℕ → Option (ℕ → ℕ)
read_full zero i view bytes = some view
read_full (suc left) i view bytes = do
  (v, rest) ← read16 bytes
  read_full left (i + 1) (assign ℕ_discrete view i v) rest

unfoldable pub read_delta : ℕ → (ℕ → ℕ) → List ℕ → Option (ℕ → ℕ)
read_delta zero view bytes = some view
read_delta (suc left) view bytes = do
  (i, rest) ← read32 bytes
  (v, rest') ← read16 rest
  read_delta left (assign ℕ_discrete view i v) rest'

-- A whole frame: the tick, and the flags that a client has after it.
unfoldable pub read_frame : (ℕ → ℕ) → List ℕ → Option (ℕ × (ℕ → ℕ))
unfolding read_full read_delta
read_frame view (a ∷ b ∷ c ∷ d ∷ bytes) = do
  (count, rest) ← read32 bytes
  (tick, body) ← read32 rest
  let magic = a == 80 && c == 76 && d == 49
  view' ←
      if magic && b == 70
      then read_full count 0 view body
      else if magic && b == 68
      then read_delta count view body
      else none
  some (tick, view')
read_frame view _ = none

-- What a body of pairs makes of the client's flags.
unfoldable pub patch : List ℕ → (ℕ → ℕ) → (ℕ → ℕ) → ℕ → ℕ
patch [] flags view = view
patch (i ∷ dirty) flags view = patch dirty flags (assign ℕ_discrete view i (flags i))

pub patch_lem :
    (dirty : List ℕ) (flags view : ℕ → ℕ) (i : ℕ)
    → (Among i dirty ⊎ (view i ≡ flags i))
    → patch dirty flags view i ≡ flags i
unfolding patch
patch_lem [] flags view i (inl a) = absurd a
patch_lem [] flags view i (inr h) = h
patch_lem (j ∷ dirty) flags view i h =
    patch_lem dirty flags (assign ℕ_discrete view j (flags j)) i (elim (ℕ_discrete j i) [
      | yes e ↦ inr (
          subst (λ k. assign ℕ_discrete view j (flags j) k ≡ flags k) e
            (assign_self ℕ_discrete view j (flags j)))
      | no other ↦ elim h [
        | inl (inl e) ↦ absurd (other e)
        | inl (inr a) ↦ inl a
        | inr same ↦ inr (assign_ne ℕ_discrete view j i (flags j) other ∙ same)
      ]
    ])

pub read_delta-delta_body :
    (dirty : List ℕ) (flags view : ℕ → ℕ)
    → All (λ i. i < 4294967296) dirty
    → ((i : ℕ) → flags i < 65536)
    → read_delta (length dirty) view (delta_body dirty flags) ≡ some (patch dirty flags view)
unfolding read_delta delta_body patch
read_delta-delta_body [] flags view small words = refl
read_delta-delta_body (i ∷ dirty) flags view small words =
    rw (word32 i small.0, word16 (flags i) (words i))
      (read_delta-delta_body dirty flags (assign ℕ_discrete view i (flags i)) small.1 words)

-- A full body gives the flags of all indices from `i` on.
pub read_full-full_body :
    (left i : ℕ) (flags view : ℕ → ℕ)
    → ((j : ℕ) → flags j < 65536)
    → (view' : ℕ → ℕ) × (read_full left i view (full_body left i flags) ≡ some view')
      × ((j : ℕ) → (j < i + left) → (view j ≡ flags j) ⊎ (i ≤ j) → view' j ≡ flags j)
unfolding read_full full_body
read_full-full_body zero i flags view words =
    (view, refl, λ j below h. elim h [ inl same ↦ same | inr after ↦ ground arith ])
read_full-full_body (suc left) i flags view words =
    let now = assign ℕ_discrete view i (flags i) in
    let (view', reads, right) = read_full-full_body left (i + 1) flags now words in
    (
      view',
      rw (word16 (flags i) (words i)) reads,
      λ j below h. right j (omega arith) (elim (ℕ_discrete i j) [
        | yes e ↦ inl (subst (λ k. now k ≡ flags k) e (assign_self ℕ_discrete view i (flags i)))
        | no other ↦ elim h [
          | inl same ↦ inl (assign_ne ℕ_discrete view i j (flags i) other ∙ same)
          | inr after ↦ inr (omega arith)
        ]
      ]),
    )
