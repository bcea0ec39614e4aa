-- ===== src/Sim/Frames.antt =====
-- internal/sim/sim.go: the flags of the personas, the list of those that changed, and the frames of
-- `Encode`. `f` is what `flagsFor` gives for each persona; flags are below 2 ^ 16, indices below 2 ^ 32.
pub mod Wire
pub mod Sync
pub mod RoundTrip
use populace.Prelude.{
  ℕ, zero, suc, ◌+◌, ◌*◌, ◌/◌, ◌%◌, ◌^◌, Bool, true, false, not, ◌&&◌, Option, none, some, List, [],
  ◌∷◌, ◌++◌, length, leb, ◌==◌, if◌then◌else◌, assign, ℕ_discrete,
}

-- The fields of `Sim` and `World` that the frames are made from.
pub record Stream : Type 0 where
  pub n : ℕ
  pub tick : ℕ
  pub flags : ℕ → ℕ
  pub last_fl : ℕ → ℕ
  pub dirty : List ℕ
  pub in_dirty : ℕ → Bool

-- `binary.LittleEndian.AppendUint16` and `PutUint32`.
abbrev pub le16 : ℕ → List ℕ
le16 x = x % 256 ∷ x / 256 % 256 ∷ []

abbrev pub le32 : ℕ → List ℕ
le32 x = x % 256 ∷ x / 256 % 256 ∷ x / 65536 % 256 ∷ x / 16777216 % 256 ∷ []

-- "PDL1" and "PFL1".
abbrev pub magic_delta : List ℕ
magic_delta = 80 ∷ 68 ∷ 76 ∷ 49 ∷ []

abbrev pub magic_full : List ℕ
magic_full = 80 ∷ 70 ∷ 76 ∷ 49 ∷ []

-- One round of the loop of `repack`.
unfoldable pub repack_one : Stream → (ℕ → ℕ) → ℕ → Stream
repack_one s f i =
    let t : Stream = record s { flags = assign ℕ_discrete s.flags i (f i) } in
    if not (f i == s.last_fl i) && not (s.in_dirty i)
    then record t { in_dirty = assign ℕ_discrete s.in_dirty i true; dirty = s.dirty ++ i ∷ [] }
    else t

unfoldable pub repack_from : ℕ → ℕ → Stream → (ℕ → ℕ) → Stream
repack_from zero i s f = s
repack_from (suc left) i s f = repack_from left (i + 1) (repack_one s f i) f

unfoldable pub repack : Stream → (ℕ → ℕ) → Stream
unfolding repack_from repack_one
repack s f = repack_from s.n 0 s f

unfoldable pub resync : Stream → (ℕ → ℕ) → Stream
unfolding repack
resync s f = repack (record s { dirty = []; in_dirty = λ i. false }) f

unfoldable pub full_body : ℕ → ℕ → (ℕ → ℕ) → List ℕ
full_body zero i flags = []
full_body (suc left) i flags = le16 (flags i) ++ full_body left (i + 1) flags

unfoldable pub delta_body : List ℕ → (ℕ → ℕ) → List ℕ
delta_body [] flags = []
delta_body (i ∷ dirty) flags = le32 i ++ le16 (flags i) ++ delta_body dirty flags

-- Whether a full frame is no larger.
abbrev pub is_full : Stream → Bool
is_full s = leb (2 * s.n) (6 * length s.dirty)

-- What `Encode` writes.
unfoldable pub frame : Stream → List ℕ
unfolding full_body delta_body
frame s =
    if is_full s
    then magic_full ++ le32 s.n ++ le32 s.tick ++ full_body s.n 0 s.flags
    else magic_delta ++ le32 (length s.dirty) ++ le32 s.tick ++ delta_body s.dirty s.flags

-- The end of `Encode`: the loop over `dirty`, and the whole.
unfoldable pub ack_dirty : List ℕ → Stream → Stream
ack_dirty [] s = s
ack_dirty (i ∷ dirty) s = ack_dirty dirty (record s {
  last_fl = assign ℕ_discrete s.last_fl i (s.flags i);
  in_dirty = assign ℕ_discrete s.in_dirty i false;
})

unfoldable pub acknowledge : Stream → Stream
unfolding ack_dirty
acknowledge s =
    let acked =
      if is_full s
      then record s { last_fl = s.flags; in_dirty = λ i. false }
      else ack_dirty s.dirty s in
    record acked { dirty = [] }

-- `Encode` with a writer that takes everything, or fails at some write: the records, and whether the frame is
-- full, or the error.
unfoldable pub encode : Stream → Bool → Stream × Option (ℕ × Bool)
unfolding frame acknowledge
encode s writes =
    if writes
    then (acknowledge s, some ((if is_full s then s.n else length s.dirty), is_full s))
    else (s, none)
