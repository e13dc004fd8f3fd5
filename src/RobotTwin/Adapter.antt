-- ===== src/RobotTwin/Adapter.antt =====
-- `RobotActionAdapter` (elefant/evaluation/robotwin/common.py): between the numbers that the policy
-- predicts for every channel, and the 16 numbers that the robot executes.
use p2p_rdt.Common.{
  ℕ, not, ◌&&◌, List, [], ◌∷◌, ◌==◌, Option, none, some, length, replicate, set, all, ltb, map,
  if◌then◌else◌,
}
use p2p_rdt.Common.Results.{Result, ok, raise, ◌>>=◌, ◌>>◌, ensure, value_error, index_error}
use p2p_rdt.Lerobot.Channels.{select}
use p2p_rdt.RobotTwin.Floats.{Floats, zip_with, zero_float, one_float}
use p2p_rdt.RobotTwin.Pose.{rebase_compact_relative_action, absolute_to_relative_compact_action}

module _ {A : Type 0} where
  -- `row[ids] = values`, id by id.
  unfoldable pub scatter : List ℕ → List A → List A → Result (List A)
  scatter [] values row = ok row
  scatter (i ∷ ids) [] row = raise value_error
  scatter (i ∷ ids) (v ∷ values) row = do
    ensure (ltb i (length row)) index_error
    scatter ids values (set row i v)

  unfoldable pub expand_norm_stat : List A → ℕ → List ℕ → A → Result (List A)
  unfolding scatter
  expand_norm_stat values robot_action_dim used_action_channel_ids default_value =
      if length values == robot_action_dim
      then ok values
      else if not (length used_action_channel_ids == 0)
          && (length values == length used_action_channel_ids)
      then scatter used_action_channel_ids values (replicate robot_action_dim default_value)
      else raise value_error

-- What the adapter reads of the configuration of a dataset.
pub record DatasetConfig (F : Type 0) : Type 0 where
  pub get_robot_action_dim : ℕ
  pub used_action_channel_ids : List ℕ
  pub q01 : Option (List F)
  pub q99 : Option (List F)

-- The fields of a `RobotActionAdapter`.
pub record Adapter (F : Type 0) : Type 0 where
  pub robot_action_dim : ℕ
  pub used_action_channel_ids : List ℕ
  pub q01 : List F
  pub q99 : List F

module _ {F : Type 0} where
  abbrev pub get : Option (List F) → List F → List F
  get none default = default
  get (some values) default = values

module _ {F : Type 0} (fl : Floats F) where
  -- `RobotActionAdapter.__init__`.
  unfoldable pub adapter : DatasetConfig F → Result (Adapter F)
  unfolding expand_norm_stat
  adapter c =
      let dim = c.get_robot_action_dim in
      let used = c.used_action_channel_ids in
      do
        ensure (not (length used == 0)) value_error
        q01 ← expand_norm_stat (get c.q01 (replicate dim (zero_float fl))) dim used (zero_float fl)
        q99 ← expand_norm_stat (get c.q99 (replicate dim (one_float fl))) dim used (one_float fl)
        ok (record { robot_action_dim = dim; used_action_channel_ids = used; q01 = q01; q99 = q99 })

  -- `self.q99 - self.q01 + 1e-6`
  unfoldable pub norm_scale : Adapter F → List F
  norm_scale ad = map (λ x. fl.plus x (fl.float 1 1000000)) (zip_with fl.minus ad.q99 ad.q01)

  -- `RobotActionAdapter.normalize`, of an action with as many numbers as the statistics.
  unfoldable pub normalize_action : Adapter F → List F → Result (List F)
  unfolding norm_scale
  normalize_action ad action = do
    ensure (length action == length ad.q01) value_error
    ok (
        map (λ x. fl.minus (fl.times x (fl.float 2 1)) (one_float fl))
          (zip_with fl.over (zip_with fl.minus action ad.q01) (norm_scale ad)))

  unfoldable pub denormalize : Adapter F → List F → Result (List F)
  unfolding norm_scale
  denormalize ad action = do
    ensure (length action == ad.robot_action_dim) value_error
    ok (
        zip_with fl.plus
          (zip_with fl.times (map (λ x. fl.times (fl.plus x (one_float fl)) (fl.float 1 2)) action)
            (norm_scale ad))
          ad.q01)

  -- The template of `compact_to_full_action`, or zeros.
  unfoldable pub template_or_zeros : Adapter F → Option (List F) → Result (List F)
  template_or_zeros ad none = ok (replicate ad.robot_action_dim (zero_float fl))
  template_or_zeros ad (some template) = do
    ensure (length template == ad.robot_action_dim) value_error
    ok template

  unfoldable pub compact_to_full_action : Adapter F → List F → Option (List F) → Result (List F)
  unfolding template_or_zeros scatter
  compact_to_full_action ad compact_action template_action = do
    ensure (length compact_action == length ad.used_action_channel_ids) value_error
    full_action ← template_or_zeros ad template_action
    scatter ad.used_action_channel_ids compact_action full_action

  unfoldable pub to_compact_execution_action : Adapter F → List F → Result (List F)
  unfolding select
  to_compact_execution_action ad action = do
    compact ← select ad.used_action_channel_ids action
    ensure (length compact == length ad.used_action_channel_ids) value_error
    ok compact

  -- One action of `rebase_normalized_actions`.
  unfoldable pub rebase_one : Adapter F → List F → List F → Result (List F)
  unfolding denormalize to_compact_execution_action rebase_compact_relative_action
      compact_to_full_action normalize_action
  rebase_one ad new_anchor_compact normalized_action = do
    full_action ← denormalize ad normalized_action
    compact_action ← to_compact_execution_action ad full_action
    rebased_compact ← rebase_compact_relative_action fl compact_action new_anchor_compact
    rebased_full ← compact_to_full_action ad rebased_compact (some full_action)
    normalize_action ad rebased_full

  unfoldable pub rebase_each : Adapter F → List F → List (List F) → Result (List (List F))
  unfolding rebase_one
  rebase_each ad new_anchor_compact [] = ok []
  rebase_each ad new_anchor_compact (action ∷ actions) = do
    rebased ← rebase_one ad new_anchor_compact action
    rest ← rebase_each ad new_anchor_compact actions
    ok (rebased ∷ rest)

  -- `rebase_normalized_actions` of a list of actions; `np.stack` refuses the empty list.
  unfoldable pub rebase_normalized_actions :
      Adapter F → List (List F) → List F → Result (List (List F))
  unfolding denormalize to_compact_execution_action rebase_each
  rebase_normalized_actions ad normalized_actions new_anchor_action = do
    ensure (all (λ action. length action == ad.robot_action_dim) normalized_actions) value_error
    ensure (length new_anchor_action == ad.robot_action_dim) value_error
    new_anchor_full ← denormalize ad new_anchor_action
    new_anchor_compact ← to_compact_execution_action ad new_anchor_full
    rebased_actions ← rebase_each ad new_anchor_compact normalized_actions
    ensure (not (length rebased_actions == 0)) value_error
    ok rebased_actions

  unfoldable pub rebase_normalized_actions_to_observed_anchor :
      Adapter F → List (List F) → List F → List F → Result (List (List F))
  unfolding absolute_to_relative_compact_action compact_to_full_action normalize_action
      rebase_normalized_actions
  rebase_normalized_actions_to_observed_anchor ad actions previous_anchor_pose new_anchor_pose = do
    new_anchor_compact ← absolute_to_relative_compact_action fl new_anchor_pose previous_anchor_pose
    new_anchor_full ← compact_to_full_action ad new_anchor_compact none
    new_anchor_normalized ← normalize_action ad new_anchor_full
    rebase_normalized_actions ad actions new_anchor_normalized
