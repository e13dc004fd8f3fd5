-- ===== src/Lerobot/Sample.antt =====
-- Samples of a fixed length: `_get_target_seq_len`, `_select_time_slice`, `_pad_time_dim` and
-- `_ensure_fixed_sequence_length` (elefant/data/lerobot_latent_dataset.py).
-- A tensor is the list of its rows; the draw of a start and the rows of zeros are parameters.
use p2p_rdt.Common.{
  ℕ, ◌+◌, ◌-◌, ◌<◌, Bool, true, false, ◌&&◌, String, List, ◌++◌, Option, none, some, length, slice,
  get_elem?, replicate, ltb, leb, str_eq, if◌then◌else◌,
}
use p2p_rdt.Common.Results.{Result, ok, raise, ◌>>=◌, value_error}
use p2p_rdt.Lerobot.Rebase.{ActionStats, rebase_to_slice_start}
use p2p_rdt.RobotTwin.Floats.{Floats}

pub record Config : Type 0 where
  pub n_seq_timesteps : Option ℕ
  pub shuffle : Bool

-- `torch.randint(0, high, ())`: a number below `high`.
pub record Draw : Type 0 where
  pub randint : ℕ → ℕ
  pub randint-lt : (high : ℕ) → 0 < high → randint high < high

-- `ActionLabelVideoDatasetItem`, over the rows of its tensors.
pub record Item (F A E X M : Type 0) : Type 0 where
  pub frames : List F
  pub action_annotations : List A
  pub env_subenv_encoding : List E
  pub user_action_mask : List Bool
  pub text_embeddings : List X
  pub system_action_mask : List Bool
  pub valid_frame_mask : Option (List Bool)
  pub action_mask : List M

-- `int(n_seq_timesteps)`, of a number that is not negative.
unfoldable pub get_target_seq_len : Config → Result (Option ℕ)
get_target_seq_len c = elim c.n_seq_timesteps [
  | none ↦ ok none
  | some n ↦ if leb n 0 then raise value_error else ok (some n)
]

-- The ends of the slice.
unfoldable pub select_time_slice : Config → Draw → ℕ → ℕ → ℕ × ℕ
select_time_slice c draw num_frames target =
    if leb num_frames target
    then (0, num_frames)
    else (let max_start = num_frames - target in
        let start = if c.shuffle && ltb 0 max_start then draw.randint (max_start + 1) else 0 in
        (start, start + target))

-- `tensor[-1:]`, if there is a row.
unfoldable pub last_row : {A : Type 0} → List A → Option A
last_row xs = get_elem? xs (length xs - 1)

-- `zero` is the row that `torch.zeros` gives.
unfoldable pub pad_time_dim : {A : Type 0} → List A → ℕ → String → A → Result (List A)
unfolding last_row
pad_time_dim tensor target pad_mode zero =
    if leb target (length tensor)
    then ok tensor
    else (let pad_len = target - length tensor in
        if str_eq pad_mode "repeat_last" && ltb 0 (length tensor)
        then elim (last_row tensor) [
          | none ↦ raise value_error
          | some x ↦ ok (tensor ++ replicate pad_len x)
        ]
        else (if str_eq pad_mode "zeros"
            then ok (tensor ++ replicate pad_len zero)
            else raise value_error))

-- The rows of zeros of the tensors that have another type than the masks.
pub record Zeros (F A E X M : Type 0) : Type 0 where
  pub frame : F
  pub action : A
  pub env : E
  pub text : X
  pub mask : M

module _ {F A E X M : Type 0} where
  -- `sliced_item`
  unfoldable pub slice_item : ℕ → ℕ → Item F A E X M → Item F A E X M
  slice_item start end item = record {
    frames = slice start end item.frames;
    action_annotations = slice start end item.action_annotations;
    env_subenv_encoding = slice start end item.env_subenv_encoding;
    user_action_mask = slice start end item.user_action_mask;
    text_embeddings = slice start end item.text_embeddings;
    system_action_mask = slice start end item.system_action_mask;
    valid_frame_mask = some (
        slice start end (elim item.valid_frame_mask [
          | none ↦ replicate (length item.frames) true
          | some mask ↦ mask
        ]));
    action_mask = slice start end item.action_mask;
  }

  -- `fixed_item`
  unfoldable pub pad_item : ℕ → Zeros F A E X M → Item F A E X M → Result (Item F A E X M)
  unfolding pad_time_dim
  pad_item target zeros item = do
    frames ← pad_time_dim item.frames target "repeat_last" zeros.frame
    action_annotations ← pad_time_dim item.action_annotations target "zeros" zeros.action
    env_subenv_encoding ← pad_time_dim item.env_subenv_encoding target "repeat_last" zeros.env
    user_action_mask ← pad_time_dim item.user_action_mask target "zeros" false
    text_embeddings ← pad_time_dim item.text_embeddings target "repeat_last" zeros.text
    system_action_mask ← pad_time_dim item.system_action_mask target "zeros" false
    valid_frame_mask ← elim item.valid_frame_mask [
      | none ↦ raise value_error
      | some mask ↦ pad_time_dim mask target "zeros" false
    ]
    action_mask ← pad_time_dim item.action_mask target "zeros" zeros.mask
    ok (record {
      frames = frames;
      action_annotations = action_annotations;
      env_subenv_encoding = env_subenv_encoding;
      user_action_mask = user_action_mask;
      text_embeddings = text_embeddings;
      system_action_mask = system_action_mask;
      valid_frame_mask = some valid_frame_mask;
      action_mask = action_mask;
    })

module _ {N F E X M : Type 0} (fl : Floats N) where
  -- `_rebase_item_actions_to_slice_start`
  unfoldable pub rebase_item_actions_to_slice_start :
      ActionStats N → Item F (List N) E X M → Result (Item F (List N) E X M)
  unfolding rebase_to_slice_start
  rebase_item_actions_to_slice_start st item = do
    action_annotations ←
        rebase_to_slice_start fl st item.user_action_mask item.valid_frame_mask
          item.action_annotations
    ok (record item { action_annotations = action_annotations })

  unfoldable pub ensure_fixed_sequence_length :
      Config
      → ActionStats N
      → Draw
      → Zeros F (List N) E X M
      → Item F (List N) E X M
      → Result (Item F (List N) E X M)
  unfolding get_target_seq_len select_time_slice slice_item pad_item
      rebase_item_actions_to_slice_start
  ensure_fixed_sequence_length c st draw zeros item = do
    target_seq_len ← get_target_seq_len c
    elim target_seq_len [
      | none ↦ ok item
      | some target ↦ (do
        let (start, end) = select_time_slice c draw (length item.frames) target
        fixed_item ← pad_item target zeros (slice_item start end item)
        rebase_item_actions_to_slice_start st fixed_item)
    ]
