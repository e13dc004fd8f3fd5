-- ===== src/Lerobot/Alignment.antt =====
-- How actions are aligned with the frames of a segment: `_action_post_process` after the poses and
-- before the channels, and the rows of `_cat_video_images` that a stride keeps
-- (elefant/data/lerobot_latent_dataset.py). The stride is positive.
use p2p_rdt.Common.{
  ℕ, zero, suc, ◌+◌, ◌-◌, ◌*◌, ◌/◌, Bool, true, false, List, [], ◌∷◌, ◌++◌, length, get_elem?, take,
  drop, replicate, ◌==◌,
}
use p2p_rdt.Common.Results.{Result, ok, ◌>>=◌, ◌>>◌, ensure, or_raise, assertion_error, index_error}

-- `torch.arange(start_frame, end_frame)`, by the number of frames.
unfoldable pub arange : ℕ → ℕ → List ℕ
arange start zero = []
arange start (suc n) = start ∷ arange (start + 1) n

-- `image[::stride]`, with `skip` rows to pass over first.
unfoldable pub strided : {A : Type 0} → ℕ → ℕ → List A → List A
strided skip stride [] = []
strided zero stride (x ∷ xs) = x ∷ strided (stride - 1) stride xs
strided (suc skip) stride (x ∷ xs) = strided skip stride xs

-- `(f n) c -> f n c`: `f` groups of `n` rows.
unfoldable pub group : {A : Type 0} → ℕ → ℕ → List A → List (List A)
group zero n xs = []
group (suc f) n xs = take n xs ∷ group f n (drop n xs)

module _ {R : Type 0} (zero_row : R) where
  -- The groups of actions and of their mask, one group for a frame.
  unfoldable pub align_actions : ℕ → List ℕ → List R → Result (List (List R) × List (List Bool))
  unfolding group
  align_actions stride image_frame_ids action = do
    first ← or_raise (get_elem? image_frame_ids 0) index_error
    second ← or_raise (get_elem? image_frame_ids 1) index_error
    let frame_stride = second - first
    let pad_steps = frame_stride * stride
    let padded = replicate pad_steps zero_row ++ action
    let padded_mask = replicate pad_steps false ++ replicate (length action) true
    let image_frame_num = (length image_frame_ids - 1) / stride + 1
    let required_action_num = image_frame_num * frame_stride * stride
    let cut = take required_action_num padded
    let cut_mask = take required_action_num padded_mask
    ensure (length cut == required_action_num) assertion_error
    ensure (length cut_mask == length cut) assertion_error
    ok (group image_frame_num pad_steps cut, group image_frame_num pad_steps cut_mask)
