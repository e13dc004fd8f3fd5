-- ===== src/VideoProto/Calls.antt =====
-- The calls of the parser that the chunks of a video make, and their frames and masks
-- (elefant/data/video_proto_dataset.py).
use p2p_rdt.Common.{
  ℕ, zero, suc, ◌+◌, ◌-◌, ◌≤◌, ◌<◌, ◌≡◌, refl, sym, ap, ◌∙◌, Bool, true, false, List, [], ◌∷◌, ◌++◌,
  some, min, length, drop, slice, replicate, get_elem?, arith, length-take, length-replicate,
  get_elem?-take, get_elem?-drop,
}
use p2p_rdt.Common.Results.{ok}
use p2p_rdt.VideoProto.Chunks.{Config, Video, Annotate, but_last, pad_last}

-- The arguments of one call of `annotate_frames`.
pub record Call (F : Type 0) : Type 0 where
  pub frames : List F
  pub start : ℕ
  pub end : ℕ
  pub mask : List Bool

-- The parser that keeps its arguments.
abbrev pub recorder : {F : Type 0} → Annotate F (Call F)
recorder fs s e m = ok (some (record { frames = fs; start = s; end = e; mask = m }))

-- The calls take consecutive ranges of annotations, from `lo` to `hi`.
abbrev pub Tiles : {F : Type 0} → ℕ → List (Call F) → ℕ → Type 0
Tiles lo [] hi = lo ≡ hi
Tiles lo (c ∷ cs) hi = (c.start ≡ lo) × Tiles c.end cs hi

-- The call has `T` frames and a mask of the valid ones; valid frame `k` is the frame before
-- annotation `start + k`.
abbrev pub IsChunk : {F : Type 0} → ℕ → List F → Call F → Type 0
IsChunk T fs c =
    (c.start < c.end)
    × (c.end ≤ c.start + T)
    × (length c.frames ≡ T)
    × (c.mask ≡ replicate (c.end - c.start) true ++ replicate (T - (c.end - c.start)) false)
    × ((k : ℕ) → k < c.end - c.start → get_elem? c.frames k ≡ get_elem? fs (c.start - 1 + k))

pub Tiles-append :
    {F : Type 0} (lo mid : ℕ) (cs : List (Call F)) (c : Call F)
    → Tiles lo cs mid
    → c.start ≡ mid
    → Tiles lo (cs ++ (c ∷ [])) c.end
Tiles-append lo mid [] c h e = (e ∙ sym h, refl)
Tiles-append lo mid (b ∷ cs) c h e = (h.0, Tiles-append b.end mid cs c h.1 e)

module _ {F : Type 0} where
  pub length-pad_last :
      (n : ℕ) (xs : List F) → 0 < length xs → length (pad_last n xs) ≡ length xs + n
  unfolding pad_last
  length-pad_last n [] h = elim h [ ]
  length-pad_last n (x ∷ []) h = omega (arith, length-replicate n x)
  length-pad_last n (x ∷ y ∷ xs) h = omega (arith, length-pad_last n (y ∷ xs) (omega arith))

  pub get_elem?-pad_last :
      (n k : ℕ) (xs : List F) → k < length xs → get_elem? (pad_last n xs) k ≡ get_elem? xs k
  unfolding pad_last
  get_elem?-pad_last n k [] h = elim h [ ]
  get_elem?-pad_last n zero (x ∷ []) h = refl
  get_elem?-pad_last n (suc k) (x ∷ []) h = absurd (omega arith)
  get_elem?-pad_last n zero (x ∷ y ∷ xs) h = refl
  get_elem?-pad_last n (suc k) (x ∷ y ∷ xs) h = get_elem?-pad_last n k (y ∷ xs) (omega arith)

  pub length-but_last : (xs : List F) → length (but_last xs) ≡ length xs - 1
  unfolding but_last
  length-but_last xs = omega (arith, length-take (length xs - 1) xs)

  pub get_elem?-but_last :
      (k : ℕ) (xs : List F) → k < length xs - 1 → get_elem? (but_last xs) k ≡ get_elem? xs k
  unfolding but_last
  get_elem?-but_last k xs h = get_elem?-take (length xs - 1) k xs h

  pub get_elem?-slice :
      (i j k : ℕ) (xs : List F) → k < j - i → get_elem? (slice i j xs) k ≡ get_elem? xs (i + k)
  get_elem?-slice i j k xs h = rw (get_elem?-take (j - i) k (drop i xs) h) (get_elem?-drop i k xs)

-- The frames have the configured size.
abbrev pub IsSized : {F : Type 0} → Config → Video F → Type 0
IsSized c video = (video.height ≡ c.frame_height) × (video.width ≡ c.frame_width)

append_nil : {A : Type 0} (xs : List A) → xs ++ [] ≡ xs
append_nil [] = refl
append_nil (x ∷ xs) = ap (◌∷◌ x) (append_nil xs)

pub full_mask : (T v : ℕ) → T ≡ v → replicate T true ≡ replicate v true ++ replicate (T - v) false
full_mask T v e =
    let z : T - v ≡ 0 = omega arith in rw z (rw e (sym (append_nil (replicate v true))))

pub tail_mask :
    (T v : ℕ)
    → v ≤ T
    → replicate (min v T) true ++ replicate (T - v) false
      ≡ replicate v true ++ replicate (T - v) false
tail_mask T v h = let z : min v T ≡ v = omega arith in rw z
