-- ===== src/RobotTwin/Step.antt =====
-- `RobotTwinSequenceInferenceState.step` and the requests of `OpenP2PRobotTwinPolicy`
-- (elefant/evaluation/robotwin/server.py).
use p2p_rdt.Common.{
  ℕ, ◌+◌, ◌-◌, ◌==◌, ◌||◌, not, Bool, true, false, String, List, [], Option, none, some, get_elem?,
  all, ltb, map, if◌then◌else◌,
}
use p2p_rdt.Common.Results.{Result, ok, raise, ◌>>=◌, or_raise, index_error, out_of_memory_error}
use p2p_rdt.RobotTwin.Adapter.{
  compact_to_full_action, normalize_action, denormalize, to_compact_execution_action,
}
use p2p_rdt.RobotTwin.Floats.{Floats, reshape, zero_float, all_finite}
use p2p_rdt.RobotTwin.Pose.{
  sanitize_compact_pose_16d, absolute_to_relative_compact_action, compose_compact_relative_action,
  smooth_absolute_compact_action,
}
use p2p_rdt.RobotTwin.Sequence.{
  Config, State, Frames, Model, roll, assign, assign_last, update_text, zero_last,
  ensure_frame_history, make_identity_relative_action, rebase_action_history_after_roll_legacy,
  rebase_action_history_after_roll, roll_warm_start_predictions, build_warm_start_sample,
}

-- What `step` hands from one correction of an action to the next.
pub record Candidate (F : Type 0) : Type 0 where
  pub normalized : List F
  pub full : List F
  pub absolute : List F

module _ {F Frame Text : Type 0} (fl : Floats F) (c : Config F Frame Text) where
  -- The action of every channel and the one that is predicted, of a compact action.
  unfoldable pub encode_compact : List F → List F → Result (List F × List F)
  unfolding compact_to_full_action normalize_action
  encode_compact compact_action template_action = do
    full_action ← compact_to_full_action fl c.action_adapter compact_action (some template_action)
    normalized ← normalize_action fl c.action_adapter full_action
    ok (full_action, normalized)

  -- The candidate whose absolute action is replaced.
  unfoldable pub with_absolute : Candidate F → List F → List F → Result (Candidate F)
  unfolding encode_compact absolute_to_relative_compact_action
  with_absolute k absolute anchor_pose_16d = do
    compact_action ← absolute_to_relative_compact_action fl absolute anchor_pose_16d
    (full_action, normalized) ← encode_compact compact_action k.full
    ok (record { normalized = normalized; full = full_action; absolute = absolute })

  -- The predicted action, sanitized before and after it is made absolute.
  unfoldable pub sanitize_action : List F → List F → List F → Result (Candidate F)
  unfolding denormalize to_compact_execution_action absolute_to_relative_compact_action
      sanitize_compact_pose_16d encode_compact compose_compact_relative_action with_absolute
  sanitize_action predicted anchor_pose_16d current_pose_16d = do
    let normalized_action =
        if not (all_finite fl predicted) then map fl.nan_to_num predicted else predicted
    full_action ← denormalize fl c.action_adapter normalized_action
    compact ← to_compact_execution_action fl c.action_adapter full_action
    fallback ← absolute_to_relative_compact_action fl current_pose_16d anchor_pose_16d
    (compact_action, action_was_sanitized) ← sanitize_compact_pose_16d fl compact (some fallback)
    (full, normalized) ←
        if action_was_sanitized
        then encode_compact compact_action full_action
        else ok (full_action, normalized_action)
    composed ← compose_compact_relative_action fl compact_action anchor_pose_16d
    (absolute, absolute_was_sanitized) ←
        sanitize_compact_pose_16d fl composed (some current_pose_16d)
    let k : Candidate F = record { normalized = normalized; full = full; absolute = absolute }
    if absolute_was_sanitized then with_absolute k absolute anchor_pose_16d else ok k

  -- The smoothing towards the action that was executed before.
  unfoldable pub smooth_action : Option (List F) → Candidate F → List F → Result (Candidate F)
  unfolding with_absolute smooth_absolute_compact_action
  smooth_action none k anchor_pose_16d = ok k
  smooth_action (some previous) k anchor_pose_16d =
      if fl.less (zero_float fl) c.action_smoothing_alpha
      then (do
        smoothed ← smooth_absolute_compact_action fl previous k.absolute c.action_smoothing_alpha
        with_absolute k smoothed anchor_pose_16d)
      else ok k

  -- `_stabilize_normalized_action`: the action, and the absolute one that is remembered.
  unfoldable pub stabilize_normalized_action :
      Option (List F) → List F → List F → List F → Result (List F × List F)
  unfolding sanitize_action smooth_action
  stabilize_normalized_action previous predicted anchor_pose_16d current_pose_16d = do
    k ← sanitize_action predicted anchor_pose_16d current_pose_16d
    smoothed ← smooth_action previous k anchor_pose_16d
    ok (smoothed.normalized, smoothed.absolute)

  -- A step before the history is full: the frame and the pose go into the next row.
  unfoldable pub append_frame :
      State F Frame Text → Frames Frame → Frame → List F → Result (State F Frame Text × ℕ)
  unfolding assign
  append_frame s history frame pose = do
    rows ← assign history.rows s.n_prior_frames frame
    pose_history ← assign s.pose_history s.n_prior_frames pose
    ok (
      record s {
        frame_history = some (record history { rows = rows });
        pose_history = pose_history;
        n_prior_frames = s.n_prior_frames + 1;
      },
      s.n_prior_frames,
    )

  -- What `step` does with the actions after the rows moved on, by `legacy_inference`.
  unfoldable pub rebase_after_roll :
      Bool → State F Frame Text → List F → Result (State F Frame Text × ℕ)
  unfolding rebase_action_history_after_roll_legacy rebase_action_history_after_roll
      roll_warm_start_predictions
  rebase_after_roll true s previous_anchor_pose_16d = do
    rebased ← rebase_action_history_after_roll_legacy fl c s.action_history
    ok (record s { action_history = rebased }, c.seq_len - 1)
  rebase_after_roll false s previous_anchor_pose_16d = do
    new_anchor_pose_16d ← or_raise (get_elem? s.pose_history 0) index_error
    rebased ←
        rebase_action_history_after_roll fl c s.action_history previous_anchor_pose_16d
          new_anchor_pose_16d
    preds ←
        roll_warm_start_predictions fl c s.prev_action_preds previous_anchor_pose_16d
          new_anchor_pose_16d
    ok (record s { action_history = rebased; prev_action_preds = preds }, c.seq_len - 1)

  -- A step with a full history: every row moves on by one.
  unfoldable pub roll_frame :
      State F Frame Text → Frames Frame → Frame → List F → Result (State F Frame Text × ℕ)
  unfolding roll assign_last rebase_after_roll
  roll_frame s history frame pose = do
    previous_anchor_pose_16d ← or_raise (get_elem? s.pose_history 0) index_error
    rows ← assign_last (roll history.rows) frame
    pose_history ← assign_last (roll s.pose_history) pose
    action_history ← zero_last fl c (roll s.action_history)
    let rolled = record s {
      frame_history = some (record history { rows = rows });
      pose_history = pose_history;
      action_history = action_history;
    }
    rebase_after_roll c.legacy_inference rolled previous_anchor_pose_16d

  -- The part of `step` up to the anchor: the text, the frame and the pose are taken in.
  unfoldable pub observe :
      State F Frame Text
      → Frame
      → List F
      → Option String
      → Option Text
      → Result (State F Frame Text × ℕ)
  unfolding update_text ensure_frame_history append_frame roll_frame
  observe s frame pose prompt text_tokens_embed = do
    let told = update_text fl c s prompt text_tokens_embed
    let history = ensure_frame_history fl c told.frame_history frame
    (seen, frame_index) ←
        if ltb told.n_prior_frames c.seq_len
        then append_frame told history frame pose
        else roll_frame told history frame pose
    anchor_pose_16d ← or_raise (get_elem? seen.pose_history 0) index_error
    ok (record seen { anchor_pose_16d = anchor_pose_16d }, frame_index)

  -- `frame_history` after it is ensured.
  abbrev pub frames_of : Option (Frames Frame) → List Frame
  frames_of none = []
  frames_of (some history) = history.rows

  -- The predictions of a network that is asked with or without compilation, with one more try
  -- when memory runs out; and whether the network is still compiled.
  unfoldable pub ask_network :
      Bool → Bool → (Bool → Result (List (List F))) → Result (List (List F) × Bool)
  ask_network is_cuda compile ask = elim (ask compile) [
    | ok action_preds ↦ ok (action_preds, compile)
    | raise out_of_memory_error ↦
        if not compile || not is_cuda
        then raise out_of_memory_error
        else (do action_preds ← ask false; ok (action_preds, false))
    | raise e ↦ raise e
  ]

  unfoldable pub predict : Model F Frame Text → State F Frame Text → Result (List (List F) × Bool)
  unfolding build_warm_start_sample ask_network
  predict m s =
      let initial_sample =
        if c.legacy_inference then none else build_warm_start_sample fl c m s.prev_action_preds in
      ask_network c.device_is_cuda s.compile (
        m.online_full_predict (frames_of s.frame_history) s.action_history s.text_tokens_embed
          initial_sample)

  -- The first step of an episode holds the pose.
  unfoldable pub first_step : State F Frame Text → List F → ℕ → Result (State F Frame Text × List F)
  unfolding make_identity_relative_action assign
  first_step s pose frame_index = do
    normalized_action ← make_identity_relative_action fl c pose
    action_history ← assign s.action_history frame_index normalized_action
    ok (
      record s {
        action_history = action_history;
        prev_executed_absolute_action_16d =
            if not c.legacy_inference then some pose else s.prev_executed_absolute_action_16d;
      },
      normalized_action,
    )

  -- What `step` does with the predictions, by `legacy_inference`.
  unfoldable pub act :
      Bool → State F Frame Text → List F → ℕ → List (List F) → Result (State F Frame Text × List F)
  unfolding stabilize_normalized_action assign
  act true s pose frame_index action_preds = do
    action ← or_raise (get_elem? action_preds frame_index) index_error
    action_history ← assign s.action_history frame_index action
    ok (record s { action_history = action_history }, action)
  act false s pose frame_index action_preds = do
    let finite_preds =
        if not (all (all_finite fl) action_preds)
        then map (map fl.nan_to_num) action_preds
        else action_preds
    action ← or_raise (get_elem? finite_preds frame_index) index_error
    (stabilized, absolute) ←
        stabilize_normalized_action s.prev_executed_absolute_action_16d action s.anchor_pose_16d
          pose
    action_history ← assign s.action_history frame_index stabilized
    preds ← assign finite_preds frame_index stabilized
    ok (
      record s {
        action_history = action_history;
        prev_action_preds = some preds;
        prev_executed_absolute_action_16d = some absolute;
      },
      stabilized,
    )

  -- A later step asks the network.
  unfoldable pub later_step :
      Model F Frame Text → State F Frame Text → List F → ℕ → Result (State F Frame Text × List F)
  unfolding predict act
  later_step m s pose frame_index = do
    (action_preds, compile) ← predict m s
    act c.legacy_inference (record s { compile = compile }) pose frame_index action_preds

  unfoldable pub step :
      Model F Frame Text
      → State F Frame Text
      → Frame
      → List F
      → Option String
      → Option Text
      → Result (State F Frame Text × List F × List F)
  unfolding observe first_step later_step reshape
  step m s frame current_pose prompt text_tokens_embed = do
    pose ← reshape 16 current_pose
    (seen, frame_index) ← observe s frame pose prompt text_tokens_embed
    (acted, action) ←
        if seen.n_prior_frames == 1
        then first_step seen pose frame_index
        else later_step m seen pose frame_index
    ok (acted, action, acted.anchor_pose_16d)
