-- ===== src/Lerobot/Rebase.antt =====
-- `_rebase_item_actions_to_slice_start` (elefant/data/lerobot_latent_dataset.py): actions become
-- relative to the first valid one. A row of actions is the list of its channels.
use p2p_rdt.Common.{
  ℕ, ◌+◌, Bool, true, false, ◌&&◌, ◌==◌, List, [], ◌∷◌, ◌++◌, Option, none, some, length, map,
  slice, get_elem?, leb, if◌then◌else◌,
}
use p2p_rdt.Common.Results.{Result, ok, ◌>>=◌, ◌>>◌, ensure, or_raise, index_error, runtime_error}
use p2p_rdt.Lerobot.Channels.{select}
use p2p_rdt.RobotTwin.Adapter.{scatter}
use p2p_rdt.RobotTwin.Floats.{Floats, reshape, zip_with, one_float}
use p2p_rdt.RobotTwin.Pose.{identity_quaternion}

-- The channels of the dataset, and its statistics for every channel.
pub record ActionStats (F : Type 0) : Type 0 where
  pub used_action_channel_ids : List ℕ
  pub q01 : List F
  pub q99 : List F

abbrev pub and_rows : List Bool → List Bool → List Bool
and_rows [] ys = []
and_rows (x ∷ xs) [] = []
and_rows (x ∷ xs) (y ∷ ys) = (x && y) ∷ and_rows xs ys

-- `valid_mask`, of masks of the same length.
unfoldable pub valid_mask : List Bool → Option (List Bool) → Result (List Bool)
valid_mask user_action_mask none = ok user_action_mask
valid_mask user_action_mask (some valid_frame_mask) = do
  ensure (length user_action_mask == length valid_frame_mask) runtime_error
  ok (and_rows user_action_mask valid_frame_mask)

-- `first_valid_idx`, if there is one; `i` rows stand before.
unfoldable pub first_valid : ℕ → List Bool → Option ℕ
first_valid i [] = none
first_valid i (true ∷ mask) = some i
first_valid i (false ∷ mask) = first_valid (i + 1) mask

module _ {F : Type 0} (fl : Floats F) where
  unfoldable pub normalize_quaternion_np : List F → Result (List F)
  unfolding reshape identity_quaternion
  normalize_quaternion_np quat = do
    four ← reshape 4 quat
    ok (
        if fl.less (fl.norm four) (fl.float 1 100000000)
        then identity_quaternion fl
        else map (λ x. fl.over x (fl.norm four)) four)

  -- One row of `_rebase_compact_action_sequence`, of 16 numbers.
  unfoldable pub rebase_compact_action : List F → List F → Result (List F)
  unfolding normalize_quaternion_np
  rebase_compact_action compact reference = do
    left_reference ← normalize_quaternion_np (slice 3 7 reference)
    right_reference ← normalize_quaternion_np (slice 11 15 reference)
    left ← normalize_quaternion_np (slice 3 7 compact)
    right ← normalize_quaternion_np (slice 11 15 compact)
    ok (
        (zip_with fl.minus (slice 0 3 compact) (slice 0 3 reference)
          ++ (fl.rotate_back left_reference left ++ slice 7 8 compact))
        ++ (zip_with fl.minus (slice 8 11 compact) (slice 8 11 reference)
            ++ (fl.rotate_back right_reference right ++ slice 15 16 compact)))

  -- `q01` and `scale` of the used channels.
  unfoldable pub used_stats : ActionStats F → Result (List F × List F)
  unfolding select
  used_stats st = do
    q01 ← select st.used_action_channel_ids st.q01
    q99 ← select st.used_action_channel_ids st.q99
    ok (q01, map (λ x. fl.plus x (fl.float 1 1000000)) (zip_with fl.minus q99 q01))

  -- `(row + 1.0) * 0.5 * scale + q01`
  unfoldable pub to_compact : List F → List F → List F → List F
  to_compact q01 scale row =
      zip_with fl.plus
        (zip_with fl.times (map (λ x. fl.times (fl.plus x (one_float fl)) (fl.float 1 2)) row)
          scale)
        q01

  -- `(row - q01) / scale * 2.0 - 1.0`
  unfoldable pub from_compact : List F → List F → List F → List F
  from_compact q01 scale row =
      map (λ x. fl.minus (fl.times x (fl.float 2 1)) (one_float fl))
        (zip_with fl.over (zip_with fl.minus row q01) scale)

  -- A row from the first valid one on is rebased; every row is normalized again.
  unfoldable pub rebase_row :
      ActionStats F → List F → List F → List F → Bool → List F → Result (List F)
  unfolding select to_compact rebase_compact_action from_compact scatter
  rebase_row st q01 scale reference later row = do
    picked ← select st.used_action_channel_ids row
    let compact = to_compact q01 scale picked
    rebased ← if later then rebase_compact_action compact reference else ok compact
    scatter st.used_action_channel_ids (from_compact q01 scale rebased) row

  -- The rows from row `i` on.
  unfoldable pub rebase_rows :
      ActionStats F → List F → List F → List F → ℕ → ℕ → List (List F) → Result (List (List F))
  unfolding rebase_row
  rebase_rows st q01 scale reference first i [] = ok []
  rebase_rows st q01 scale reference first i (row ∷ rows) = do
    row' ← rebase_row st q01 scale reference (leb first i) row
    rows' ← rebase_rows st q01 scale reference first (i + 1) rows
    ok (row' ∷ rows')

  -- `action_annotations` with the first valid row given.
  unfoldable pub rebase_actions : ActionStats F → ℕ → List (List F) → Result (List (List F))
  unfolding used_stats select to_compact reshape rebase_rows
  rebase_actions st first rows = do
    (q01, scale) ← used_stats st
    row ← or_raise (get_elem? rows first) index_error
    picked ← select st.used_action_channel_ids row
    reference ← reshape 16 (to_compact q01 scale picked)
    rebase_rows st q01 scale reference first 0 rows

  -- The actions of an item, with its masks.
  unfoldable pub rebase_to_slice_start :
      ActionStats F → List Bool → Option (List Bool) → List (List F) → Result (List (List F))
  unfolding valid_mask first_valid rebase_actions
  rebase_to_slice_start st user_action_mask valid_frame_mask rows =
      if length st.used_action_channel_ids == 0 then ok rows else (do
        mask ← valid_mask user_action_mask valid_frame_mask
        elim (first_valid 0 mask) [ none ↦ ok rows | some first ↦ rebase_actions st first rows ])
