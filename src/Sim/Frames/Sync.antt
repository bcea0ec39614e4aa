-- ===== src/Sim/Frames/Sync.antt =====
-- What internal/sim/sim.go promises of its frames: a client that has the flags last sent has the present
-- flags after the next frame.
use populace.Prelude.{
  ℕ, zero, suc, ◌+◌, ◌<◌, ◌≡◌, ◌⊎◌, inl, inr, refl, sym, ap, subst, ◌∙◌, Bool, true, false, not,
  ◌&&◌, List, [], ◌∷◌, All, All-append, Among, append-Among, ◌==◌, assign, assign_ne, if_pos,
  ℕ_discrete, Bool-cases, arith,
}
use populace.Sim.Frames.{
  Stream, repack_one, repack_from, repack, resync, is_full, ack_dirty, acknowledge,
}

-- Flags below `m` that are not dirty are those last sent, and the dirty are listed.
pub record IsSyncedTo (m : ℕ) (s : Stream) : Type 0 where
  pub clean : (i : ℕ) → i < m → s.in_dirty i ≡ false → s.flags i ≡ s.last_fl i
  pub listed : (i : ℕ) → i < s.n → s.in_dirty i ≡ true → Among i s.dirty
  pub inside : All (λ i. i < s.n) s.dirty

abbrev pub IsSynced : Stream → Type 0
IsSynced s = IsSyncedTo s.n s

abbrev changed : Stream → (ℕ → ℕ) → ℕ → Bool
changed s f i = not (f i == s.last_fl i) && not (s.in_dirty i)

repack_one-keeps :
    (s : Stream) (f : ℕ → ℕ) (i : ℕ)
    → let t = repack_one s f i in
      (t.n ≡ s.n) × (t.last_fl ≡ s.last_fl) × (t.flags ≡ assign ℕ_discrete s.flags i (f i))
unfolding repack_one
repack_one-keeps s f i = elim (Bool-cases (changed s f i)) [
  | inl on ↦ rw on (refl, refl, refl)
  | inr off ↦ rw off (refl, refl, refl)
]

repack_one-IsSyncedTo :
    (s : Stream) (f : ℕ → ℕ) (i : ℕ)
    → i < s.n
    → IsSyncedTo i s
    → IsSyncedTo (i + 1) (repack_one s f i)
unfolding repack_one
repack_one-IsSyncedTo s f i below c = elim (Bool-cases (changed s f i)) [
  | inl on ↦ rw on (record {
    clean = λ j lower quiet. elim (ℕ_discrete i j) [
      | yes e ↦
          let bad = sym (if_pos (ℕ_discrete i j) e true (s.in_dirty j)) ∙ quiet in ground arith
      | no other ↦
          assign_ne ℕ_discrete s.flags i j (f i) other
          ∙ c.clean j (omega arith) (sym (assign_ne ℕ_discrete s.in_dirty i j true other) ∙ quiet)
    ];
    listed = λ j lower loud. elim (ℕ_discrete i j) [
      | yes e ↦ append-Among j s.dirty (i ∷ []) (inr (inl e))
      | no other ↦
          append-Among j s.dirty (i ∷ [])
            (inl (c.listed j lower (sym (assign_ne ℕ_discrete s.in_dirty i j true other) ∙ loud)))
    ];
    inside = All-append (λ j. j < s.n) s.dirty (i ∷ []) c.inside (below, tt);
  })
  | inr off ↦ rw off (record {
    clean = λ j lower quiet. elim (ℕ_discrete i j) [
      | yes e ↦
          let still : s.in_dirty i ≡ false = subst (λ k. s.in_dirty k ≡ false) (sym e) quiet in
          let sent : f i ≡ s.last_fl i = ground arith in
          if_pos (ℕ_discrete i j) e (f i) (s.flags j) ∙ sent ∙ ap s.last_fl e
      | no other ↦ assign_ne ℕ_discrete s.flags i j (f i) other ∙ c.clean j (omega arith) quiet
    ];
    listed = c.listed;
    inside = c.inside;
  })
]

repack_one-tick : (s : Stream) (f : ℕ → ℕ) (i : ℕ) → (repack_one s f i).tick ≡ s.tick
unfolding repack_one
repack_one-tick s f i = elim (Bool-cases (changed s f i)) [
  | inl on ↦ rw on refl
  | inr off ↦ rw off refl
]

repack_from-tick : (left i : ℕ) (s : Stream) (f : ℕ → ℕ) → (repack_from left i s f).tick ≡ s.tick
unfolding repack_from
repack_from-tick zero i s f = refl
repack_from-tick (suc left) i s f =
    repack_from-tick left (i + 1) (repack_one s f i) f ∙ repack_one-tick s f i

pub repack-tick : (s : Stream) (f : ℕ → ℕ) → (repack s f).tick ≡ s.tick
unfolding repack
repack-tick s f = repack_from-tick s.n 0 s f

pub resync-tick : (s : Stream) (f : ℕ → ℕ) → (resync s f).tick ≡ s.tick
unfolding resync
resync-tick s f = repack-tick (record s { dirty = []; in_dirty = λ i. false }) f

repack_from-IsSynced :
    (left i : ℕ) (s : Stream) (f : ℕ → ℕ)
    → left + i ≡ s.n
    → IsSyncedTo i s
    → ((j : ℕ) → j < i → s.flags j ≡ f j)
    → let t = repack_from left i s f in
      IsSyncedTo s.n t
      × (t.n ≡ s.n)
      × (t.last_fl ≡ s.last_fl)
      × ((j : ℕ) → j < s.n → t.flags j ≡ f j)
unfolding repack_from
repack_from-IsSynced zero i s f sum c done =
    (subst (λ m. IsSyncedTo m s) (omega arith) c, refl, refl, λ j below. done j (omega arith))
repack_from-IsSynced (suc left) i s f sum c done =
    let one = repack_one s f i in
    let (n, last, flags) = repack_one-keeps s f i in
    let (synced, n', last', all) =
      repack_from-IsSynced left (i + 1) one f (omega (arith, n))
        (repack_one-IsSyncedTo s f i (omega arith) c)
        (λ j below. elim (ℕ_discrete i j) [
          | yes e ↦ ap (λ g. g j) flags ∙ if_pos (ℕ_discrete i j) e (f i) (s.flags j) ∙ ap f e
          | no other ↦
              ap (λ g. g j) flags
              ∙ assign_ne ℕ_discrete s.flags i j (f i) other
              ∙ done j (omega arith)
        ]) in
    (
      subst (λ m. IsSyncedTo m (repack_from left (i + 1) one f)) n synced,
      n' ∙ n,
      last' ∙ last,
      λ j below. all j (omega (arith, n)),
    )

repack-IsSyncedTo :
    (s : Stream) (f : ℕ → ℕ)
    → IsSyncedTo 0 s
    → let t = repack s f in
      IsSynced t × (t.n ≡ s.n) × (t.last_fl ≡ s.last_fl) × ((j : ℕ) → j < s.n → t.flags j ≡ f j)
unfolding repack
repack-IsSyncedTo s f c =
    let (synced, n, last, flags) =
      repack_from-IsSynced s.n 0 s f (omega arith) c (λ j below. ground arith) in
    (subst (λ m. IsSyncedTo m (repack_from s.n 0 s f)) (sym n) synced, n, last, flags)

-- `repack` takes over the new flags, leaves what was last sent, and keeps the dirty list in step: whoever is
-- not on it has the flags last sent.
pub repack-IsSynced :
    (s : Stream) (f : ℕ → ℕ)
    → IsSynced s
    → let t = repack s f in
      IsSynced t × (t.n ≡ s.n) × (t.last_fl ≡ s.last_fl) × ((j : ℕ) → j < s.n → t.flags j ≡ f j)
repack-IsSynced s f c =
    repack-IsSyncedTo s f
      (record { clean = λ i below quiet. ground arith; listed = c.listed; inside = c.inside })

-- `resync` is correct at any time: whatever the dirty list and its marks are, it puts the list in step with
-- the flags last sent, which it leaves, and takes over the new flags.
pub resync-IsSynced :
    (s : Stream) (f : ℕ → ℕ)
    → let t = resync s f in
      IsSynced t × (t.n ≡ s.n) × (t.last_fl ≡ s.last_fl) × ((j : ℕ) → j < s.n → t.flags j ≡ f j)
unfolding resync
resync-IsSynced s f =
    repack-IsSyncedTo (record s { dirty = []; in_dirty = λ i. false }) f
      (record {
        clean = λ i below quiet. ground arith;
        listed = λ i below loud. ground arith;
        inside = tt;
      })

-- Dirty personas are acknowledged, the others were sent.
ack_dirty-lem :
    (dirty : List ℕ) (s : Stream)
    → let t = ack_dirty dirty s in
      (t.n ≡ s.n)
      × (t.flags ≡ s.flags)
      × ((i : ℕ) → (Among i dirty ⊎ (s.last_fl i ≡ s.flags i)) → t.last_fl i ≡ s.flags i)
      × ((i : ℕ) → (Among i dirty ⊎ (s.in_dirty i ≡ false)) → t.in_dirty i ≡ false)
unfolding ack_dirty
ack_dirty-lem [] s = (
  refl,
  refl,
  (λ i h. elim h [ inl a ↦ absurd a | inr e ↦ e ]),
  λ i h. elim h [ inl a ↦ absurd a | inr e ↦ e ],
)
ack_dirty-lem (j ∷ dirty) s =
    let one : Stream = record s {
      last_fl = assign ℕ_discrete s.last_fl j (s.flags j);
      in_dirty = assign ℕ_discrete s.in_dirty j false;
    } in
    let (n, flags, last, off) = ack_dirty-lem dirty one in
    (
      n,
      flags,
      (λ i h. last i (elim (ℕ_discrete j i) [
        | yes e ↦ inr (if_pos (ℕ_discrete j i) e (s.flags j) (s.last_fl i) ∙ ap s.flags e)
        | no other ↦ elim h [
          | inl (inl e) ↦ absurd (other e)
          | inl (inr a) ↦ inl a
          | inr sent ↦ inr (assign_ne ℕ_discrete s.last_fl j i (s.flags j) other ∙ sent)
        ]
      ])),
      λ i h. off i (elim (ℕ_discrete j i) [
        | yes e ↦ inr (if_pos (ℕ_discrete j i) e false (s.in_dirty i))
        | no other ↦ elim h [
          | inl (inl e) ↦ absurd (other e)
          | inl (inr a) ↦ inl a
          | inr quiet ↦ inr (assign_ne ℕ_discrete s.in_dirty j i false other ∙ quiet)
        ]
      ]),
    )

-- Who is listed, or as last sent.
pub sent_or_listed :
    (s : Stream) (i : ℕ)
    → IsSynced s
    → i < s.n
    → (Among i s.dirty ⊎ (s.last_fl i ≡ s.flags i)) × (Among i s.dirty ⊎ (s.in_dirty i ≡ false))
sent_or_listed s i c below = elim (Bool-cases (s.in_dirty i)) [
  | inl loud ↦ (inl (c.listed i below loud), inl (c.listed i below loud))
  | inr quiet ↦ (inr (sym (c.clean i below quiet)), inr quiet)
]

pub acknowledge-n : (s : Stream) → (acknowledge s).n ≡ s.n
unfolding acknowledge
acknowledge-n s = elim (Bool-cases (is_full s)) [
  | inl full ↦ rw full refl
  | inr delta ↦ rw delta (ack_dirty-lem s.dirty s).0
]

pub acknowledge-IsSynced :
    (s : Stream)
    → IsSynced s
    → let t = acknowledge s in
      IsSynced t
      × ((i : ℕ) → i < s.n → (t.flags i ≡ s.flags i) × (t.last_fl i ≡ s.flags i))
      × (t.dirty ≡ [])
unfolding acknowledge
acknowledge-IsSynced s c = elim (Bool-cases (is_full s)) [
  | inl full ↦ rw full (
    record { clean = λ i below quiet. refl; listed = λ i below loud. ground arith; inside = tt },
    (λ i below. (refl, refl)),
    refl,
  )
  | inr delta ↦
      let (n, flags, last, off) = ack_dirty-lem s.dirty s in
      let below' : (i : ℕ) → i < (ack_dirty s.dirty s).n → i < s.n = λ i h. omega (arith, n, h) in
      rw delta (
        record {
          clean = λ i below quiet.
              ap (λ g. g i) flags ∙ sym (last i (sent_or_listed s i c (below' i below)).0);
          listed = λ i below loud.
              let bad = sym (off i (sent_or_listed s i c (below' i below)).1) ∙ loud in
              ground arith;
          inside = tt;
        },
        (λ i below. (ap (λ g. g i) flags, last i (sent_or_listed s i c below).0)),
        refl,
      )
]
