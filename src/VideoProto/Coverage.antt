-- ===== src/VideoProto/Coverage.antt =====
-- What `_preprocess_example` hands to the parser, for a video of the configured frame size
-- (elefant/data/video_proto_dataset.py).
use p2p_rdt.Common.{
  inl, inr, Bool-cases, ℕ, zero, suc, ◌+◌, ◌-◌, ◌≤◌, ◌<◌, ◌≡◌, refl, sym, ap, ◌∙◌, true, false,
  List, [], ◌∷◌, ◌++◌, Option, none, some, min, length, All, All-append, slice, replicate,
  get_elem?, leb, ltb, ◌==◌, arith, length-slice,
}
use p2p_rdt.Common.Results.{ok, raise}
use p2p_rdt.VideoProto.Chunks.{
  Config, Video, Outcome, Rng, decode_chunk, but_last, pad_last, full_chunk, put, full_chunks,
  tail_chunk, finish, chunks_from, start_frame0, preprocess_example,
}
use p2p_rdt.VideoProto.Calls.{
  Call, recorder, Tiles, IsChunk, IsSized, Tiles-append, length-pad_last, get_elem?-pad_last,
  length-but_last, get_elem?-but_last, get_elem?-slice, full_mask, tail_mask,
}

module _ {F : Type 0} (c : Config) (video : Video F) where
  -- The queue holds well-formed calls for the annotations from `lo` up to `hi`.
  abbrev pub Covers : ℕ → List (Call F) → ℕ → Type 0
  Covers lo queue hi = Tiles lo queue hi × All (IsChunk c.T video.frames) queue

  -- What holds when the loop over full chunks ends.
  abbrev Ends : ℕ → Option (Outcome (Call F) ℕ) → Type 0
  Ends lo none = ⊥
  Ends lo (some (queue, raise e)) = ⊥
  Ends lo (some (queue, ok start)) =
      Covers lo queue (start + 1)
      × (start < length video.frames)
      × (length video.frames < start + (c.T + 1))

  -- What holds at the end, when no call raises.
  abbrev pub IsCovered : ℕ → Option (Outcome (Call F) (Unit {0})) → Type 0
  IsCovered lo none = ⊥
  IsCovered lo (some (queue, raise e)) = ⊥
  IsCovered lo (some (queue, ok u)) = Covers lo queue (length video.frames)

module _ {F : Type 0} (c : Config) (video : Video F) (sized : IsSized c video) where
  decode_chunk_sized :
      (start end : ℕ) → decode_chunk c video start end ≡ ok (slice start end video.frames)
  unfolding decode_chunk
  decode_chunk_sized start end = ground arith

  -- The call that a full chunk makes.
  abbrev full_call : ℕ → Call F
  full_call start = record {
    frames = but_last (slice start (start + (c.T + 1)) video.frames);
    start = start + 1;
    end = start + (c.T + 1);
    mask = replicate c.T true;
  }

  full_chunk_sized : (start : ℕ) → full_chunk c video recorder start ≡ ok (some (full_call start))
  unfolding full_chunk
  full_chunk_sized start = rw (decode_chunk_sized start (start + (c.T + 1)))

  full_call-IsChunk :
      (start : ℕ)
      → start + (c.T + 1) ≤ length video.frames
      → 0 < c.T
      → IsChunk c.T video.frames (full_call start)
  full_call-IsChunk start h pos =
      let len = length-slice start (start + (c.T + 1)) video.frames in
      (
        omega arith,
        omega arith,
        omega (arith, length-but_last (slice start (start + (c.T + 1)) video.frames)),
        full_mask c.T (start + (c.T + 1) - (start + 1)) (omega arith),
        λ k lt.
            let i : start + 1 - 1 + k ≡ start + k = omega arith in
            get_elem?-but_last k (slice start (start + (c.T + 1)) video.frames) (omega arith)
            ∙ get_elem?-slice start (start + (c.T + 1)) k video.frames (omega arith)
            ∙ sym (ap (get_elem? video.frames) i),
      )

  -- The call that the tail makes.
  abbrev tail_call : ℕ → Call F
  tail_call start = record {
    frames = but_last (
        pad_last (c.T - (length video.frames - 1 - start))
          (slice start (length video.frames) video.frames));
    start = start + 1;
    end = length video.frames;
    mask =
        replicate (min (length video.frames - 1 - start) c.T) true
        ++ replicate (c.T - (length video.frames - 1 - start)) false;
  }

  tail_chunk_sized :
      (start : ℕ)
      → length video.frames < start + (c.T + 1)
      → 0 < c.T
      → tail_chunk c video recorder start ≡ ok (some (tail_call start))
  unfolding tail_chunk
  tail_chunk_sized start h pos =
      let short : ltb (length video.frames - 1 - start) c.T ≡ true = ground arith in
      rw (decode_chunk_sized start (length video.frames)) (rw short)

  tail_call-IsChunk :
      (start : ℕ)
      → start < length video.frames - 1
      → length video.frames < start + (c.T + 1)
      → IsChunk c.T video.frames (tail_call start)
  tail_call-IsChunk start lt h =
      let n = length video.frames in
      let pad = c.T - (n - 1 - start) in
      let len = length-slice start n video.frames in
      let len_pad = length-pad_last pad (slice start n video.frames) (omega arith) in
      let v : n - 1 - start ≡ n - (start + 1) = omega arith in
      (
        omega arith,
        omega arith,
        omega (arith, length-but_last (pad_last pad (slice start n video.frames))),
        rw (sym v) (tail_mask c.T (n - 1 - start) (omega arith)),
        λ k lt.
            let i : start + 1 - 1 + k ≡ start + k = omega arith in
            get_elem?-but_last k (pad_last pad (slice start n video.frames)) (omega arith)
            ∙ get_elem?-pad_last pad k (slice start n video.frames) (omega arith)
            ∙ get_elem?-slice start n k video.frames (omega arith)
            ∙ sym (ap (get_elem? video.frames) i),
      )

  Covers-append :
      (lo mid : ℕ) (queue : List (Call F)) (call : Call F)
      → Covers c video lo queue mid
      → call.start ≡ mid
      → IsChunk c.T video.frames call
      → Covers c video lo (queue ++ (call ∷ [])) call.end
  Covers-append lo mid queue call h e good = (
    Tiles-append lo mid queue call h.0 e,
    All-append (IsChunk c.T video.frames) queue (call ∷ []) h.1 (good, tt),
  )

  full_chunks-Ends :
      (lo fuel start : ℕ) (queue : List (Call F))
      → Covers c video lo queue (start + 1)
      → start < length video.frames
      → length video.frames < fuel + start
      → 0 < c.T
      → Ends c video lo (full_chunks c video recorder fuel start queue)
  unfolding full_chunks put
  full_chunks-Ends lo zero start queue h lt enough pos = absurd (omega arith)
  full_chunks-Ends lo (suc fuel) start queue h lt enough pos =
      elim (Bool-cases (leb (start + (c.T + 1)) (length video.frames))) [
        | inr stop ↦ rw (stop, Ends) (h, lt, ground arith)
        | inl go ↦
            let le : start + (c.T + 1) ≤ length video.frames = ground arith in
            let next : start + (c.T + 1) ≡ start + c.T + 1 = omega arith in
            let queue' = queue ++ (full_call start ∷ []) in
            let more : Covers c video lo queue' (start + c.T + 1) = rw (sym next) (
              Covers-append lo (start + 1) queue (full_call start) h refl
                (full_call-IsChunk start le pos)) in
            rw (go, full_chunk_sized start, Ends)
              (full_chunks-Ends lo fuel (start + c.T) queue' more (omega arith) (omega arith) pos)
      ]

  finish-IsCovered :
      (lo : ℕ) (outcome : Outcome (Call F) ℕ)
      → Ends c video lo (some outcome)
      → 0 < c.T
      → IsCovered c video lo (some (finish c video recorder outcome))
  unfolding finish put
  finish-IsCovered lo (queue, raise e) h pos = absurd h
  finish-IsCovered lo (queue, ok start) h pos =
      elim (Bool-cases (ltb start (length video.frames - 1))) [
        | inr stop ↦
            let e : start + 1 ≡ length video.frames = ground (arith, h.1) in rw (stop, sym e) h.0
        | inl go ↦
            let lt : start < length video.frames - 1 = ground arith in
            rw go (
              rw (tail_chunk_sized start h.2 pos) (
                Covers-append lo (start + 1) queue (tail_call start) h.0 refl
                  (tail_call-IsChunk start lt h.2)))
      ]

  chunks_from-IsCovered :
      (start : ℕ)
      → start < length video.frames
      → 0 < c.T
      → IsCovered c video (start + 1) (chunks_from c video recorder start)
  unfolding chunks_from
  chunks_from-IsCovered start lt pos =
      go (full_chunks c video recorder (length video.frames + 1) start []) (
        full_chunks-Ends (start + 1) (length video.frames + 1) start [] (refl, tt) lt (omega arith)
          pos)
    where
      go :
          (ended : Option (Outcome (Call F) ℕ))
          → Ends c video (start + 1) ended
          → IsCovered c video
              (start + 1)
              (elim ended [ none ↦ none | some outcome ↦ some (finish c video recorder outcome) ])
      go none h = absurd h
      go (some outcome) h = finish-IsCovered (start + 1) outcome h pos

  module _ (rng : Rng) where
    start_frame0-lt :
        0 < c.T
        → 2 ≤ length video.frames
        → (start : ℕ) × (start_frame0 c rng (length video.frames) ≡ ok start)
          × (start < c.T)
          × (start < length video.frames)
    unfolding start_frame0
    start_frame0-lt pos two = elim (Bool-cases c.shuffle) [
      | inr fixed ↦ (0, rw fixed refl, pos, omega arith)
      | inl drawn ↦
          let cap = min (length video.frames - (c.T + 1)) (c.T - 1) in
          let z : (c.T == 0) ≡ false = ground arith in
          let lt = rng.randint-lt (cap + 1) (omega arith) in
          (rng.randint (cap + 1), rw (drawn, z) refl, omega arith, omega arith)
    ]

    -- For a video of the configured frame size with two frames or more, and `T` positive, the code
    -- ends without an error, with enough fuel, and calls the parser on full and well-masked chunks that take
    -- every annotation once, in order, from the first frame it starts at (before `T`) to the end.
    pub preprocess_example_covers :
        0 < c.T
        → 2 ≤ length video.frames
        → (start : ℕ) × (start_frame0 c rng (length video.frames) ≡ ok start)
          × (start < c.T)
          × IsCovered c video (start + 1) (preprocess_example c rng video (λ n. ok recorder))
    unfolding preprocess_example chunks_from
    preprocess_example_covers pos two =
        let (start, e, lt, inside) = start_frame0-lt pos two in
        let long : ltb (length video.frames) 2 ≡ false = ground arith in
        (start, e, lt, rw (long, e, IsCovered) (chunks_from-IsCovered start inside pos))
