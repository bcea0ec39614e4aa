-- ===== src/Sim/Frames/RoundTrip.antt =====
-- `Encode` of internal/sim/sim.go against a client that reads its frames.
use populace.Prelude.{
  ℕ, zero, suc, ◌+◌, ◌*◌, ◌≤◌, ◌<◌, ◌≡◌, inl, inr, refl, ◌∙◌, true, some, List, [], ◌∷◌, length,
  All-mono, Bool-cases, min, arith,
}
use populace.Sim.Frames.{Stream, full_body, delta_body, is_full, frame, encode}
use populace.Sim.Frames.Wire.{
  read_frame, patch, patch_lem, word32, read_delta-delta_body, read_full-full_body,
}
use populace.Sim.Frames.Sync.{IsSynced, acknowledge-IsSynced, sent_or_listed}

length-full_body : (left i : ℕ) (flags : ℕ → ℕ) → length (full_body left i flags) ≡ 2 * left
unfolding full_body
length-full_body zero i flags = omega arith
length-full_body (suc left) i flags = omega (arith, length-full_body left (i + 1) flags)

length-delta_body :
    (dirty : List ℕ) (flags : ℕ → ℕ) → length (delta_body dirty flags) ≡ 6 * length dirty
unfolding delta_body
length-delta_body [] flags = omega arith
length-delta_body (i ∷ dirty) flags = omega (arith, length-delta_body dirty flags)

-- A frame is as long as the shorter of its two forms: a header of 12 bytes, and 2 bytes for each persona or 6
-- for each that is dirty.
pub length-frame : (s : Stream) → length (frame s) ≡ 12 + min (2 * s.n) (6 * length s.dirty)
unfolding frame
length-frame s = elim (Bool-cases (is_full s)) [
  | inl full ↦
      let short : 2 * s.n ≤ 6 * length s.dirty = ground arith in
      rw full omega (arith, length-full_body s.n 0 s.flags, short)
  | inr delta ↦
      let short : 6 * length s.dirty < 2 * s.n = ground arith in
      rw delta omega (arith, length-delta_body s.dirty s.flags, short)
]

read_frame-frame :
    (s : Stream) (view : ℕ → ℕ)
    → IsSynced s
    → s.n < 4294967296
    → s.tick < 4294967296
    → ((i : ℕ) → s.flags i < 65536)
    → ((i : ℕ) → i < s.n → view i ≡ s.last_fl i)
    → (view' : ℕ → ℕ) × (read_frame view (frame s) ≡ some (s.tick, view'))
      × ((i : ℕ) → i < s.n → view' i ≡ s.flags i)
unfolding frame read_frame
read_frame-frame s view c small early words same = elim (Bool-cases (is_full s)) [
  | inl full ↦
      let (view', reads, right) = read_full-full_body s.n 0 s.flags view words in
      (
        view',
        rw (full, word32 s.n small, word32 s.tick early, reads) refl,
        λ i below. right i (omega arith) (inr (omega arith)),
      )
  | inr delta ↦
      let few : length s.dirty < 4294967296 = ground arith in
      let reads =
        read_delta-delta_body s.dirty s.flags view
          (All-mono (λ i. i < s.n) (λ i. i < 4294967296) s.dirty (λ i below. omega arith) c.inside)
          words in
      (
        patch s.dirty s.flags view,
        rw (delta, word32 (length s.dirty) few, word32 s.tick early, reads) refl,
        λ i below. patch_lem s.dirty s.flags view i (elim (sent_or_listed s i c below).0 [
          | inl a ↦ inl a
          | inr sent ↦ inr (same i below ∙ sent)
        ]),
      )
]

-- From a state whose dirty list is in step, with less than 2 ^ 32 personas and ticks and flags of 16 bits, the
-- frame of `Encode` gives the tick and all present flags to a client that has the flags last sent, whichever
-- form it has; and when the writer takes it, the flags last sent are the present ones, nothing is dirty, and
-- the list is in step again.
pub encode-frame :
    (s : Stream) (view : ℕ → ℕ)
    → IsSynced s
    → s.n < 4294967296
    → s.tick < 4294967296
    → ((i : ℕ) → s.flags i < 65536)
    → ((i : ℕ) → i < s.n → view i ≡ s.last_fl i)
    → let t = (encode s true).0 in
      ((view' : ℕ → ℕ) × (read_frame view (frame s) ≡ some (s.tick, view'))
        × ((i : ℕ) → i < s.n → (view' i ≡ s.flags i) × (t.last_fl i ≡ s.flags i)))
      × IsSynced t
      × (t.dirty ≡ [])
unfolding encode
encode-frame s view c small early words same =
    let (view', reads, right) = read_frame-frame s view c small early words same in
    let (synced, sent, none') = acknowledge-IsSynced s c in
    ((view', reads, λ i below. (right i below, (sent i below).1)), synced, none')
