-- ===== src/Sim/Tests/Frames.antt =====
-- The theorems on frames at concrete inputs.
use populace.Prelude.{
  ℕ, ◌<◌, ◌≡◌, refl, true, some, [], ◌∷◌, inl, ◌==◌, if◌then◌else◌, ℕ_discrete, arith,
}
use populace.Sim.Frames.{
  Stream, repack, repack_from, repack_one, full_body, delta_body, frame, encode,
}
use populace.Sim.Frames.Wire.{read_frame}
use populace.Sim.Frames.Sync.{IsSynced}
use populace.Sim.Frames.RoundTrip.{encode-frame}

-- Four personas, of whom 2 has changed.
abbrev stream : Stream
stream = record {
  n = 4;
  tick = 300;
  flags = λ i. if i == 2 then 261 else 5;
  last_fl = λ i. 5;
  dirty = 2 ∷ [];
  in_dirty = λ i. i == 2;
}

delta_frame :
    frame stream ≡ 80 ∷ 68 ∷ 76 ∷ 49 ∷ 1 ∷ 0 ∷ 0 ∷ 0 ∷ 44 ∷ 1 ∷ 0 ∷ 0 ∷ 2 ∷ 0 ∷ 0 ∷ 0 ∷ 5 ∷ 1 ∷ []
unfolding frame full_body delta_body
delta_frame = refl

abbrev next : ℕ → ℕ
next i = if i == 1 then 6 else 5

repacked : (repack stream next).dirty ≡ 2 ∷ 1 ∷ []
unfolding repack repack_from repack_one ℕ_discrete
repacked = refl

stream-IsSynced : IsSynced stream
stream-IsSynced = record {
  clean = λ i below quiet. ground arith;
  listed = λ i below loud. inl (ground arith);
  inside = (omega arith, tt);
}

encode-frame_example :
    let t = (encode stream true).0 in
    ((view' : ℕ → ℕ) × (read_frame (λ i. 5) (frame stream) ≡ some (300, view'))
      × ((i : ℕ) → i < 4 → (view' i ≡ stream.flags i) × (t.last_fl i ≡ stream.flags i)))
    × IsSynced t
    × (t.dirty ≡ [])
encode-frame_example =
    encode-frame stream (λ i. 5) stream-IsSynced (omega arith) (omega arith) (λ i. ground arith)
      (λ i below. refl)
