-- ===== src/VideoProto/Resize.antt =====
-- Videos that are not of the configured frame size (elefant/data/video_proto_dataset.py): the code
-- means to resize their frames.
use p2p_rdt.Common.{
  inl, inr, Bool-cases, ℕ, zero, suc, ◌+◌, ◌-◌, ◌≤◌, ◌<◌, ◌≡◌, refl, true, false, ◌&&◌, List, [],
  ◌∷◌, some, min, length, slice, leb, ltb, ◌==◌, arith, length-slice,
}
use p2p_rdt.Common.Results.{ok, raise, name_error}
use p2p_rdt.VideoProto.Chunks.{
  Config, Video, Annotate, Rng, loads_original, resize_all, decode_chunk, full_chunk, full_chunks,
  tail_chunk, finish, chunks_from, start_frame0, preprocess_example,
}

module _ {F X : Type 0} (c : Config) (video : Video F) (annotate : Annotate F X)
    (other : (video.height == c.frame_height && video.width == c.frame_width) ≡ false)
    (colour : video.channels ≡ 3) (original : loads_original c ≡ true) where
  resize_all_raises :
      (fs : List F)
      → 0 < length fs
      → resize_all video c.frame_height c.frame_width fs ≡ raise name_error
  unfolding resize_all
  resize_all_raises [] h = elim h [ ]
  resize_all_raises (f ∷ fs) h =
      let three : (video.channels == 3) ≡ true = ground arith in rw (three, other) refl

  decode_chunk_raises :
      (start end : ℕ)
      → start < end
      → start < length video.frames
      → decode_chunk c video start end ≡ raise name_error
  unfolding decode_chunk
  decode_chunk_raises start end lt inside =
      rw (other, original)
        (resize_all_raises (slice start end video.frames)
          (omega (arith, length-slice start end video.frames)))

  full_chunk_raises :
      (start : ℕ)
      → start < length video.frames
      → full_chunk c video annotate start ≡ raise name_error
  unfolding full_chunk
  full_chunk_raises start inside =
      rw (decode_chunk_raises start (start + (c.T + 1)) (omega arith) inside) refl

  tail_chunk_raises :
      (start : ℕ)
      → start < length video.frames
      → tail_chunk c video annotate start ≡ raise name_error
  unfolding tail_chunk
  tail_chunk_raises start inside =
      rw (decode_chunk_raises start (length video.frames) inside inside) refl

  full_chunks_raises :
      (fuel start : ℕ)
      → 0 < fuel
      → start < length video.frames
      → leb (start + (c.T + 1)) (length video.frames) ≡ true
      → full_chunks c video annotate fuel start [] ≡ some ([], raise name_error)
  unfolding full_chunks
  full_chunks_raises zero start pos lt full = elim pos [ ]
  full_chunks_raises (suc fuel) start pos lt full =
      rw (full, full_chunk_raises start lt, full_chunks) refl

  full_chunks_none :
      (fuel start : ℕ)
      → 0 < fuel
      → leb (start + (c.T + 1)) (length video.frames) ≡ false
      → full_chunks c video annotate fuel start [] ≡ some ([], ok start)
  unfolding full_chunks
  full_chunks_none zero start pos short = elim pos [ ]
  full_chunks_none (suc fuel) start pos short = rw (short, full_chunks) refl

  finish_raises :
      (start : ℕ)
      → start < length video.frames - 1
      → finish c video annotate ([], ok start) ≡ ([], raise name_error)
  unfolding finish
  finish_raises start lt =
      let more : ltb start (length video.frames - 1) ≡ true = ground arith in
      rw (more, tail_chunk_raises start (omega arith)) refl

  chunks_from_raises :
      (start : ℕ)
      → start < length video.frames - 1
      → chunks_from c video annotate start ≡ some ([], raise name_error)
  unfolding chunks_from finish
  chunks_from_raises start lt = elim (Bool-cases (leb (start + (c.T + 1)) (length video.frames))) [
    | inl full ↦
        rw
          (
            full_chunks_raises (length video.frames + 1) start (omega arith) (omega arith) full,
            chunks_from,
          )
          refl
    | inr tail ↦
        rw
          (
            full_chunks_none (length video.frames + 1) start (omega arith) tail,
            finish_raises start lt,
            chunks_from,
          )
          refl
  ]

  start_frame0-lt_last :
      (rng : Rng)
      → 0 < c.T
      → 2 ≤ length video.frames
      → (start : ℕ) × (start_frame0 c rng (length video.frames) ≡ ok start)
        × (start < length video.frames - 1)
  unfolding start_frame0
  start_frame0-lt_last rng pos two = elim (Bool-cases c.shuffle) [
    | inr fixed ↦ (0, rw fixed refl, omega arith)
    | inl drawn ↦
        let cap = min (length video.frames - (c.T + 1)) (c.T - 1) in
        let z : (c.T == 0) ≡ false = ground arith in
        let lt = rng.randint-lt (cap + 1) (omega arith) in
        (rng.randint (cap + 1), rw (drawn, z) refl, omega arith)
  ]

  -- For a video named "video.mp4" with RGB frames of another size than the configured one, with two frames
  -- or more, and `T` positive, the preprocessing raises a NameError and hands on no example.
  pub preprocess_example-resize :
      (rng : Rng)
      → 0 < c.T
      → 2 ≤ length video.frames
      → preprocess_example c rng video (λ n. ok annotate) ≡ some ([], raise name_error)
  unfolding preprocess_example
  preprocess_example-resize rng pos two =
      let (start, e, lt) = start_frame0-lt_last rng pos two in
      let long : ltb (length video.frames) 2 ≡ false = ground arith in
      rw (long, e) (chunks_from_raises start lt)
