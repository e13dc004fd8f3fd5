-- ===== src/VideoProto/Chunks.antt =====
-- `_preprocess_example` and `resize_image_for_model` (elefant/data/video_proto_dataset.py). The
-- decoder, the annotation parser and the random numbers are parameters.
use p2p_rdt.Common.{
  ℕ, zero, suc, ◌+◌, ◌-◌, ◌<◌, ◌&&◌, Bool, true, false, String, List, [], ◌∷◌, ◌++◌, Option, none,
  some, min, length, take, slice, replicate, ltb, leb, ◌==◌, str_eq, if◌then◌else◌,
}
use p2p_rdt.Common.Results.{
  Result, ok, raise, ◌>>=◌, ◌>>◌, ensure, assertion_error, name_error, value_error,
}

-- The fields of `VideoProtoDatasetConfig` that the preprocessing reads.
pub record Config : Type 0 where
  pub T : ℕ
  pub shuffle : Bool
  pub frame_height : ℕ
  pub frame_width : ℕ
  pub load_video_name : Option String

-- What the decoder gives: frames of one shape, channels first.
pub record Video (F : Type 0) : Type 0 where
  pub frames : List F
  pub channels : ℕ
  pub height : ℕ
  pub width : ℕ

-- `annotate_frames` of a parser: frames, first and last annotation, and the mask of valid frames.
abbrev pub Annotate : Type 0 → Type 0 → Type 0
Annotate F X = List F → ℕ → ℕ → List Bool → Result (Option X)

-- `config.load_video_name == "video.mp4"`
unfoldable pub loads_original : Config → Bool
loads_original c = elim c.load_video_name [ none ↦ false | some name ↦ str_eq name "video.mp4" ]

module _ {F : Type 0} where
  -- The module does not define or import `_canonical_resize`: a call of it raises a NameError.
  unfoldable pub resize_image_for_model : Video F → ℕ → ℕ → F → Result F
  resize_image_for_model video height width im = do
    ensure (video.channels == 3) assertion_error
    if video.height == height && video.width == width then ok im else raise name_error

  unfoldable pub resize_all : Video F → ℕ → ℕ → List F → Result (List F)
  unfolding resize_image_for_model
  resize_all video height width [] = ok []
  resize_all video height width (f ∷ fs) = do
    f' ← resize_image_for_model video height width f
    fs' ← resize_all video height width fs
    ok (f' ∷ fs')

  -- `decoder[start:end]`, resized if the frames are not of the configured size.
  unfoldable pub decode_chunk : Config → Video F → ℕ → ℕ → Result (List F)
  unfolding resize_all loads_original
  decode_chunk c video start end =
      if video.height == c.frame_height && video.width == c.frame_width
      then ok (slice start end video.frames)
      else (do
        ensure (loads_original c) assertion_error
        resize_all video c.frame_height c.frame_width (slice start end video.frames))

  -- `frames[:-1]`
  unfoldable pub but_last : List F → List F
  but_last fs = take (length fs - 1) fs

  -- The frames, with the last one repeated at the end.
  unfoldable pub pad_last : ℕ → List F → List F
  pad_last n [] = []
  pad_last n (f ∷ []) = f ∷ replicate n f
  pad_last n (f ∷ g ∷ fs) = f ∷ pad_last n (g ∷ fs)

-- Examples that are in the queue, and how the code ended.
abbrev pub Outcome : Type 0 → Type 0 → Type 0
Outcome X A = List X × Result A

module _ {F X : Type 0} (c : Config) (video : Video F) (annotate : Annotate F X) where
  -- One round of the loop over full chunks.
  unfoldable pub full_chunk : ℕ → Result (Option X)
  unfolding decode_chunk but_last
  full_chunk start = do
    frame_chunk ← decode_chunk c video start (start + (c.T + 1))
    annotate (but_last frame_chunk) (start + 1) (start + (c.T + 1)) (replicate c.T true)

  -- `if example is not None: queue.put(example)`
  unfoldable pub put : Option X → List X → List X
  put none queue = queue
  put (some x) queue = queue ++ (x ∷ [])

  -- The loop over full chunks, with fuel; `none` means that the fuel ran out.
  unfoldable pub full_chunks : ℕ → ℕ → List X → Option (Outcome X ℕ)
  unfolding full_chunk put
  full_chunks zero start queue = none
  full_chunks (suc fuel) start queue = elim (leb (start + (c.T + 1)) (length video.frames)) [
    | false ↦ some (queue, ok start)
    | true ↦ elim (full_chunk start) [
      | raise e ↦ some (queue, raise e)
      | ok example ↦ full_chunks fuel (start + c.T) (put example queue)
    ]
  ]

  -- The shorter chunk at the end.
  unfoldable pub tail_chunk : ℕ → Result (Option X)
  unfolding decode_chunk but_last pad_last
  tail_chunk start = do
    let valid_len = length video.frames - 1 - start
    frame_chunk ← decode_chunk c video start (length video.frames)
    annotate
        (but_last
          (if ltb valid_len c.T then pad_last (c.T - valid_len) frame_chunk else frame_chunk))
        (start + 1) (length video.frames)
        (replicate (min valid_len c.T) true ++ replicate (c.T - valid_len) false)

  unfoldable pub finish : Outcome X ℕ → Outcome X (Unit {0})
  unfolding tail_chunk put
  finish (queue, raise e) = (queue, raise e)
  finish (queue, ok start) =
      if ltb start (length video.frames - 1)
      then elim (tail_chunk start) [
        | raise e ↦ (queue, raise e)
        | ok example ↦ (put example queue, ok tt)
      ]
      else (queue, ok tt)

  -- Both parts, from the first frame on.
  unfoldable pub chunks_from : ℕ → Option (Outcome X (Unit {0}))
  unfolding full_chunks finish
  chunks_from start = elim (full_chunks (length video.frames + 1) start []) [
    | none ↦ none
    | some outcome ↦ some (finish outcome)
  ]

-- `rng.randint(0, k)`: a number below `k`.
pub record Rng : Type 0 where
  pub randint : ℕ → ℕ
  pub randint-lt : (k : ℕ) → 0 < k → randint k < k

-- The first frame: a random one of the first chunk when shuffling. (With `T` of 0 the draw is
-- from an empty range, which raises.)
unfoldable pub start_frame0 : Config → Rng → ℕ → Result ℕ
start_frame0 c rng n_frames =
    if c.shuffle
    then (if c.T == 0
        then raise value_error
        else ok (rng.randint (min (n_frames - (c.T + 1)) (c.T - 1) + 1)))
    else ok 0

-- `_preprocess_example`, from an empty queue; the factory makes a parser for the number of frames.
unfoldable pub preprocess_example :
    {F X : Type 0}
    → Config
    → Rng
    → Video F
    → (ℕ → Result (Annotate F X))
    → Option (Outcome X (Unit {0}))
unfolding start_frame0 chunks_from
preprocess_example c rng video factory = elim (factory (length video.frames)) [
  | raise e ↦ some ([], raise e)
  | ok annotate ↦
      if ltb (length video.frames) 2
      then some ([], ok tt)
      else elim (start_frame0 c rng (length video.frames)) [
        | raise e ↦ some ([], raise e)
        | ok start ↦ chunks_from c video annotate start
      ]
]
