-- ===== src/World/Encode.antt =====
-- `EncodeInstances` of internal/world/world.go, into a writer that may fail. Bytes are numbers below 256, and the bits
-- of a float32 a parameter.
use populace.Prelude.{
  ℕ, zero, suc, ◌+◌, ◌*◌, ◌<◌, ◌≡◌, refl, sym, ap, ◌∙◌, Bool, true, false, Option, none, some, List,
  [], ◌∷◌, ◌++◌, length, length-append, All, ltb, leb, if◌then◌else◌, Bool-cases, inl, inr, ◌⊎◌,
  arith,
}
use mathlib.Core.List.{append-nil, append_assoc}
use populace.Sim.History.{take, drop}
use populace.Sim.History.Latest.{take-drop}
use populace.Sim.Frames.{le16, le32}
use populace.Sim.Frames.Wire.{read16, read32, word16, word32, ◌>>=◌}

-- What the encoder reads of a persona, the floats as their bits.
pub record Instance : Type 0 where
  pub lon : ℕ
  pub lat : ℕ
  pub palette : ℕ
  pub shape : ℕ
  pub arch : ℕ
  pub flags : ℕ

abbrev pub instance_bytes : ℕ
instance_bytes = 16

abbrev pub batch : ℕ
batch = 8192

unfoldable pub encode_instance : Instance → List ℕ
encode_instance x =
    le32 x.lon
    ++ (le32 x.lat ++ (le16 x.palette ++ (le16 x.shape ++ (le16 x.arch ++ le16 x.flags))))

-- "PPL1" and the count.
unfoldable pub header : ℕ → List ℕ
header n = 80 ∷ 80 ∷ 76 ∷ 49 ∷ le32 n

-- The bytes that the writer has taken, in how many writes, and whether the last one failed.
pub record Output : Type 0 where
  pub bytes : List ℕ
  pub writes : ℕ
  pub failed : Bool

-- `out.Write`, which takes all of a chunk, or so many bytes of it and reports an error.
unfoldable pub took : Output → List ℕ → Option ℕ → Output
unfolding take
took out chunk none = record { bytes = out.bytes ++ chunk; writes = out.writes + 1; failed = false }
took out chunk (some k) = record {
  bytes = out.bytes ++ take k chunk;
  writes = out.writes + 1;
  failed = true;
}

took-cases :
    (out : Output) (chunk : List ℕ) (stop : Option ℕ)
    → let next = took out chunk stop in
      ((next.bytes ≡ out.bytes ++ chunk) × (next.failed ≡ false))
      ⊎ ((k : ℕ) × (next.bytes ≡ out.bytes ++ take k chunk) × (next.failed ≡ true))
unfolding took
took-cases out chunk none = inl (refl, refl)
took-cases out chunk (some k) = inr (k, refl, refl)

-- The writer: `none` for a write that takes all of its chunk, and of one that fails the number of bytes that it takes.
module _ (stops : ℕ → Option ℕ) where
  unfoldable pub write : Output → List ℕ → Output
  unfolding took
  write out chunk = took out chunk (stops out.writes)

  -- The loop over the personas, and the last write.
  unfoldable pub encode_loop : Output → List ℕ → List Instance → Output
  unfolding write encode_instance
  encode_loop out buf [] = if ltb 0 (length buf) then write out buf else out
  encode_loop out buf (x ∷ xs) =
      let buf' = buf ++ encode_instance x in
      let flushed = write out buf' in
      let after = encode_loop flushed [] xs in
      let rest = encode_loop out buf' xs in
      if leb (batch * instance_bytes) (length buf')
      then if flushed.failed then flushed else after
      else rest

  unfoldable pub encode_instances : List Instance → Output
  unfolding write header encode_loop
  encode_instances xs =
      let first = write (record { bytes = []; writes = 0; failed = false }) (header (length xs)) in
      let all = encode_loop first [] xs in if first.failed then first else all

-- The whole encoding.
unfoldable pub body : List Instance → List ℕ
body [] = []
body (x ∷ xs) = encode_instance x ++ body xs

body-length : (xs : List Instance) → length (body xs) ≡ instance_bytes * length xs
unfolding body encode_instance
body-length [] = omega arith
body-length (x ∷ xs) = omega (arith, body-length xs)

-- What has been taken is the start of the encoding, and all of it if nothing failed.
abbrev pub IsStart : Output → List ℕ → Type 0
IsStart out whole = (rest : List ℕ) × (out.bytes ++ rest ≡ whole) × (out.failed ≡ false → rest ≡ [])

module _ (stops : ℕ → Option ℕ) where
  write-cases :
      (out : Output) (chunk : List ℕ)
      → let next = write stops out chunk in
        ((next.bytes ≡ out.bytes ++ chunk) × (next.failed ≡ false))
        ⊎ ((k : ℕ) × (next.bytes ≡ out.bytes ++ take k chunk) × (next.failed ≡ true))
  unfolding write
  write-cases out chunk = took-cases out chunk (stops out.writes)

  -- What a failed write leaves of a chunk and of what comes after.
  left_over :
      (out : List ℕ) (k : ℕ) (chunk rest : List ℕ)
      → out ++ take k chunk ++ (drop k chunk ++ rest) ≡ out ++ (chunk ++ rest)
  left_over out k chunk rest =
      append_assoc out (take k chunk) (drop k chunk ++ rest)
      ∙ ap (λ q. out ++ q)
          (sym (append_assoc (take k chunk) (drop k chunk) rest)
            ∙ ap (λ q. q ++ rest) (take-drop k chunk))

  write-IsStart :
      (out : Output) (chunk rest : List ℕ)
      → rest ≡ []
      → IsStart (write stops out chunk) (out.bytes ++ (chunk ++ rest))
  write-IsStart out chunk rest last = elim (write-cases out chunk) [
    | inl (bytes, fine) ↦ ([], rw (bytes, last) (append_assoc out.bytes chunk []), λ h. refl)
    | inr (k, bytes, bad) ↦ (
      drop k chunk ++ rest,
      ap (λ q. q ++ (drop k chunk ++ rest)) bytes ∙ left_over out.bytes k chunk rest,
      λ h. absurd (cc),
    )
  ]

  empty-of_length : (buf : List ℕ) → ltb 0 (length buf) ≡ false → buf ≡ []
  empty-of_length [] h = refl
  empty-of_length (b ∷ buf) h = absurd (ground arith)

  encode_loop-IsStart :
      (out : Output) (buf : List ℕ) (xs : List Instance)
      → out.failed ≡ false
      → IsStart (encode_loop stops out buf xs) (out.bytes ++ (buf ++ body xs))
  unfolding encode_loop body
  encode_loop-IsStart out buf [] fine = elim (Bool-cases (ltb 0 (length buf))) [
    | inl some_left ↦ rw some_left (write-IsStart out buf [] refl)
    | inr none_left ↦ rw (none_left, empty-of_length buf none_left) ([], refl, λ h. refl)
  ]
  encode_loop-IsStart out buf (x ∷ xs) fine =
      let buf' = buf ++ encode_instance x in
      let flushed = write stops out buf' in
      let regroup = append_assoc buf (encode_instance x) (body xs) in
      elim (Bool-cases (leb (batch * instance_bytes) (length buf'))) [
        | inr short ↦
            let (rest, whole, all) = encode_loop-IsStart out buf' xs fine in
            rw short (rest, whole ∙ ap (λ q. out.bytes ++ q) regroup, all)
        | inl full ↦ elim (write-cases out buf') [
          | inl (bytes, ok) ↦
              let (rest, whole, all) = encode_loop-IsStart flushed [] xs ok in
              rw (full, ok)
                (
                  rest,
                  whole
                      ∙ ap (λ q. q ++ body xs) bytes
                      ∙ append_assoc out.bytes buf' (body xs)
                      ∙ ap (λ q. out.bytes ++ q) regroup,
                  all,
                )
          | inr (k, bytes, bad) ↦
              rw (full, bad)
                (
                  drop k buf' ++ body xs,
                  ap (λ q. q ++ (drop k buf' ++ body xs)) bytes
                      ∙ left_over out.bytes k buf' (body xs)
                      ∙ ap (λ q. out.bytes ++ q) regroup,
                  λ h. absurd (cc),
                )
        ]
      ]

  encode_instances-IsStart :
      (xs : List Instance) → IsStart (encode_instances stops xs) (header (length xs) ++ body xs)
  unfolding encode_instances header
  encode_instances-IsStart xs =
      let empty : Output = record { bytes = []; writes = 0; failed = false } in
      let first = write stops empty (header (length xs)) in
      elim (write-cases empty (header (length xs))) [
        | inl (bytes, ok) ↦
            let (rest, whole, all) = encode_loop-IsStart first [] xs ok in
            rw ok (rest, whole ∙ ap (λ q. q ++ body xs) bytes, all)
        | inr (k, bytes, bad) ↦ rw bad (
          drop k (header (length xs)) ++ body xs,
          ap (λ q. q ++ (drop k (header (length xs)) ++ body xs)) bytes
              ∙ left_over [] k (header (length xs)) (body xs),
          λ h. absurd (cc),
        )
      ]

  -- Whichever write fails, and whatever start of its chunk it has taken then: if `EncodeInstances` reports no error, then
  -- the writer has taken the whole encoding, a header of 8 bytes and 16 bytes for each persona; if it reports one, then
  -- a start of it.
  pub encode_instances_lem :
      (xs : List Instance)
      → let out = encode_instances stops xs in
        let whole = header (length xs) ++ body xs in
        (((out.failed ≡ false) × (out.bytes ≡ whole))
          ⊎ ((out.failed ≡ true) × ((rest : List ℕ) × (out.bytes ++ rest ≡ whole))))
        × (length whole ≡ 8 + instance_bytes * length xs)
  unfolding header
  encode_instances_lem xs =
      let out = encode_instances stops xs in
      let (rest, whole, all) = encode_instances-IsStart xs in
      (
        elim (Bool-cases out.failed) [
          | inl bad ↦ inr (bad, (rest, whole))
          | inr fine ↦
              inl (
                fine,
                sym (append-nil out.bytes) ∙ ap (λ q. out.bytes ++ q) (sym (all fine)) ∙ whole,
              )
        ],
        omega (arith, body-length xs, length-append (header (length xs)) (body xs)),
      )

-- The record read back, as the vertex layout has it.
unfoldable pub read_instance : List ℕ → Option (Instance × List ℕ)
read_instance bytes = do
  (lon, b1) ← read32 bytes
  (lat, b2) ← read32 b1
  (palette, b3) ← read16 b2
  (shape, b4) ← read16 b3
  (arch, b5) ← read16 b4
  (flags, b6) ← read16 b5
  some (
    record { lon = lon; lat = lat; palette = palette; shape = shape; arch = arch; flags = flags },
    b6,
  )

unfoldable pub read_instances : ℕ → List ℕ → Option (List Instance)
read_instances zero bytes = some []
read_instances (suc n) bytes = do
  (x, rest) ← read_instance bytes
  xs ← read_instances n rest
  some (x ∷ xs)

-- The fields are in the range of their types.
pub record IsSmall (x : Instance) : Type 0 where
  pub lon : x.lon < 4294967296
  pub lat : x.lat < 4294967296
  pub palette : x.palette < 65536
  pub shape : x.shape < 65536
  pub arch : x.arch < 65536
  pub flags : x.flags < 65536

read_instance-encode_instance :
    (x : Instance) (rest : List ℕ)
    → IsSmall x
    → read_instance (encode_instance x ++ rest) ≡ some (x, rest)
unfolding read_instance encode_instance
read_instance-encode_instance x rest s =
    rw
      (
        word32 x.lon s.lon,
        word32 x.lat s.lat,
        word16 x.palette s.palette,
        word16 x.shape s.shape,
        word16 x.arch s.arch,
        word16 x.flags s.flags,
      )
      refl

-- A client that reads the records by the layout gets back every persona that was encoded.
pub read_instances-body :
    (xs : List Instance) → All IsSmall xs → read_instances (length xs) (body xs) ≡ some xs
unfolding read_instances body
read_instances-body [] small = refl
read_instances-body (x ∷ xs) small =
    rw (read_instance-encode_instance x (body xs) small.0, read_instances-body xs small.1) refl
