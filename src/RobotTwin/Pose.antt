-- ===== src/RobotTwin/Pose.antt =====
-- The poses of two arms (elefant/evaluation/robotwin/common.py): for each a translation of three
-- numbers, a quaternion of four, and the gripper.
use p2p_rdt.Common.{
  Bool, true, false, not, ◌||◌, List, [], ◌∷◌, ◌++◌, map, Option, none, some, replicate, slice,
  take, drop, if◌then◌else◌,
}
use p2p_rdt.Common.Results.{Result, ok, ◌>>=◌}
use p2p_rdt.RobotTwin.Floats.{Floats, reshape, zip_with, zero_float, one_float, all_finite, scale}

module _ {F : Type 0} (fl : Floats F) where
  unfoldable pub identity_quaternion : List F
  identity_quaternion = zero_float fl ∷ zero_float fl ∷ zero_float fl ∷ one_float fl ∷ []

  -- `_normalize_quaternion`, of a quaternion that was reshaped.
  unfoldable pub normalize : List F → List F
  unfolding identity_quaternion
  normalize quat =
      let norm = fl.norm quat in
      if not (all_finite fl quat)
      then identity_quaternion
      else if not (fl.isfinite norm) || fl.less norm (fl.float 1 100000000)
      then identity_quaternion
      else map (λ x. fl.over x norm) quat

  unfoldable pub normalize_quaternion : List F → Result (List F)
  unfolding normalize reshape
  normalize_quaternion quat = do four ← reshape 4 quat; ok (normalize four)

  unfoldable pub quat_is_invalid : List F → Bool
  quat_is_invalid quat =
      not (all_finite fl quat) || fl.less (fl.norm (map fl.nan_to_num quat)) (fl.float 1 100000000)

  -- A part of the pose that has to be finite, or that of the fallback; with whether it changed.
  unfoldable pub finite_or : List F → List F → List F × Bool
  finite_or part fallback = if not (all_finite fl part) then (fallback, true) else (part, false)

  unfoldable pub sanitize_quaternion : List F → List F → Result (List F × Bool)
  unfolding normalize_quaternion quat_is_invalid
  sanitize_quaternion quat fallback =
      if quat_is_invalid quat
      then (do normalized ← normalize_quaternion fallback; ok (normalized, true))
      else (do
        normalized_quat ← normalize_quaternion quat
        ok (
            if not (fl.allclose normalized_quat quat)
            then (normalized_quat, true)
            else (quat, false)))

  -- The fallback of `sanitize_pose_8d` that is not given.
  unfoldable pub rest_pose : List F
  unfolding identity_quaternion
  rest_pose = replicate 3 (zero_float fl) ++ (identity_quaternion ++ (zero_float fl ∷ []))

  unfoldable pub sanitize_pose_8d : List F → Option (List F) → Result (List F × Bool)
  unfolding rest_pose sanitize_quaternion finite_or reshape
  sanitize_pose_8d pose fallback_pose = do
    pose_8d ← reshape 8 pose
    fallback ← elim fallback_pose [ none ↦ ok rest_pose | some given ↦ reshape 8 given ]
    let (translation, moved) = finite_or (slice 0 3 pose_8d) (slice 0 3 fallback)
    (rotation, turned) ← sanitize_quaternion (slice 3 7 pose_8d) (slice 3 7 fallback)
    let (gripper, gripped) = finite_or (slice 7 8 pose_8d) (slice 7 8 fallback)
    ok (translation ++ (rotation ++ gripper), moved || (turned || gripped))

  unfoldable pub sanitize_compact_pose_16d : List F → Option (List F) → Result (List F × Bool)
  unfolding rest_pose sanitize_pose_8d reshape
  sanitize_compact_pose_16d pose fallback_pose = do
    pose_16d ← reshape 16 pose
    fallback ← elim fallback_pose [
      | none ↦ ok (rest_pose ++ rest_pose)
      | some given ↦ reshape 16 given
    ]
    (left, left_changed) ← sanitize_pose_8d (take 8 pose_16d) (some (take 8 fallback))
    (right, right_changed) ← sanitize_pose_8d (drop 8 pose_16d) (some (drop 8 fallback))
    ok (left ++ right, left_changed || right_changed)

  unfoldable pub compose_relative_pose : List F → List F → Result (List F)
  unfolding normalize_quaternion reshape
  compose_relative_pose relative anchor = do
    relative_pose ← reshape 8 relative
    anchor_pose ← reshape 8 anchor
    relative_rotation ← normalize_quaternion (slice 3 7 relative_pose)
    anchor_rotation ← normalize_quaternion (slice 3 7 anchor_pose)
    absolute_rotation ← normalize_quaternion (fl.rotate anchor_rotation relative_rotation)
    let absolute_translation = zip_with fl.plus (slice 0 3 relative_pose) (slice 0 3 anchor_pose)
    ok (absolute_translation ++ (absolute_rotation ++ slice 7 8 relative_pose))

  unfoldable pub absolute_to_relative_pose : List F → List F → Result (List F)
  unfolding normalize_quaternion reshape
  absolute_to_relative_pose absolute anchor = do
    absolute_pose ← reshape 8 absolute
    anchor_pose ← reshape 8 anchor
    absolute_rotation ← normalize_quaternion (slice 3 7 absolute_pose)
    anchor_rotation ← normalize_quaternion (slice 3 7 anchor_pose)
    relative_rotation ← normalize_quaternion (fl.rotate_back anchor_rotation absolute_rotation)
    let relative_translation = zip_with fl.minus (slice 0 3 absolute_pose) (slice 0 3 anchor_pose)
    ok (relative_translation ++ (relative_rotation ++ slice 7 8 absolute_pose))

  unfoldable pub rebase_relative_pose : List F → List F → Result (List F)
  unfolding normalize_quaternion reshape
  rebase_relative_pose relative new_anchor = do
    relative_pose ← reshape 8 relative
    new_anchor_pose ← reshape 8 new_anchor
    relative_rotation ← normalize_quaternion (slice 3 7 relative_pose)
    anchor_rotation ← normalize_quaternion (slice 3 7 new_anchor_pose)
    rebased_rotation ← normalize_quaternion (fl.rotate_back anchor_rotation relative_rotation)
    let rebased_translation =
        zip_with fl.minus (slice 0 3 relative_pose) (slice 0 3 new_anchor_pose)
    ok (rebased_translation ++ (rebased_rotation ++ slice 7 8 relative_pose))

module _ {F : Type 0} where
  -- How the functions on the 16 numbers of both arms go on with one for an arm.
  unfoldable pub both_arms : (List F → List F → Result (List F)) → List F → List F → Result (List F)
  unfolding reshape
  both_arms arm action anchor = do
    action_16d ← reshape 16 action
    anchor_16d ← reshape 16 anchor
    left ← arm (take 8 action_16d) (take 8 anchor_16d)
    right ← arm (drop 8 action_16d) (drop 8 anchor_16d)
    ok (left ++ right)

module _ {F : Type 0} (fl : Floats F) where
  unfoldable pub compose_compact_relative_action : List F → List F → Result (List F)
  unfolding both_arms compose_relative_pose
  compose_compact_relative_action = both_arms (compose_relative_pose fl)

  unfoldable pub absolute_to_relative_compact_action : List F → List F → Result (List F)
  unfolding both_arms absolute_to_relative_pose
  absolute_to_relative_compact_action = both_arms (absolute_to_relative_pose fl)

  unfoldable pub rebase_compact_relative_action : List F → List F → Result (List F)
  unfolding both_arms rebase_relative_pose
  rebase_compact_relative_action = both_arms (rebase_relative_pose fl)

  -- `_slerp_quaternion` on normalized quaternions, from the sign of their product on.
  unfoldable pub slerp : List F → List F → F → F → Result (List F)
  unfolding normalize_quaternion
  slerp start_quat end_quat product alpha =
      let dot = fl.clip product (fl.negated (one_float fl)) (one_float fl) in
      let theta_0 = fl.arccos dot in
      let sin_theta_0 = fl.sin theta_0 in
      let theta = fl.times theta_0 alpha in
      let sin_theta = fl.sin theta in
      let s0 = fl.over (fl.sin (fl.minus theta_0 theta)) sin_theta_0 in
      let s1 = fl.over sin_theta sin_theta_0 in
      if fl.less (fl.float 9995 10000) dot
      then normalize_quaternion fl (
          zip_with fl.plus (scale fl (fl.minus (one_float fl) alpha) start_quat)
            (scale fl alpha end_quat))
      else normalize_quaternion fl
          (zip_with fl.plus (scale fl s0 start_quat) (scale fl s1 end_quat))

  unfoldable pub slerp_quaternion : List F → List F → F → Result (List F)
  unfolding slerp normalize_quaternion
  slerp_quaternion start end alpha = do
    start_quat ← normalize_quaternion fl start
    end_quat ← normalize_quaternion fl end
    let product = fl.dot start_quat end_quat
    (if fl.less product (zero_float fl)
        then slerp start_quat (map fl.negated end_quat) (fl.negated product) alpha
        else slerp start_quat end_quat product alpha)

  unfoldable pub blend_absolute_pose : F → List F → List F → Result (List F)
  unfolding slerp_quaternion reshape
  blend_absolute_pose alpha previous current = do
    previous_pose ← reshape 8 previous
    current_pose ← reshape 8 current
    let rest = fl.minus (one_float fl) alpha
    let translation =
        zip_with fl.plus (scale fl rest (slice 0 3 previous_pose))
          (scale fl alpha (slice 0 3 current_pose))
    rotation ← slerp_quaternion (slice 3 7 previous_pose) (slice 3 7 current_pose) alpha
    let gripper =
        zip_with fl.plus (scale fl rest (slice 7 8 previous_pose))
          (scale fl alpha (slice 7 8 current_pose))
    ok (translation ++ (rotation ++ gripper))

  unfoldable pub smooth_absolute_compact_action : List F → List F → F → Result (List F)
  unfolding both_arms blend_absolute_pose reshape
  smooth_absolute_compact_action previous current factor = do
    let alpha = fl.clip factor (zero_float fl) (one_float fl)
    previous_action ← reshape 16 previous
    current_action ← reshape 16 current
    (if fl.less_equal alpha (zero_float fl)
        then ok previous_action
        else if fl.less_equal (one_float fl) alpha
        then ok current_action
        else both_arms (blend_absolute_pose alpha) previous_action current_action)
