-- ===== src/RobotTwin/Sequence.antt =====
-- `RobotTwinSequenceInferenceState` (elefant/evaluation/robotwin/server.py): the last frames, poses
-- and actions of an episode, and the step that turns a frame into an action. An exception ends the
-- run: what it leaves of the state is not kept.
use p2p_rdt.Common.{
  ℕ, ◌+◌, ◌-◌, ◌==◌, ◌&&◌, not, Bool, true, false, String, List, [], ◌∷◌, ◌++◌, Option, none, some,
  length, replicate, set, get_elem?, take, drop, ltb, leb, map, str_eq, if◌then◌else◌, slice,
}
use p2p_rdt.Common.Results.{
  Result, ok, raise, ◌>>=◌, ◌>>◌, ensure, or_raise, index_error, value_error,
}
use p2p_rdt.RobotTwin.Adapter.{
  Adapter, compact_to_full_action, normalize_action, rebase_normalized_actions,
  rebase_normalized_actions_to_observed_anchor,
}
use p2p_rdt.RobotTwin.Floats.{Floats, reshape, zip_with, zero_float, one_float, scale}

module _ {A : Type 0} where
  -- `torch.roll(rows, -1)`
  unfoldable pub roll : List A → List A
  roll [] = []
  roll (x ∷ xs) = xs ++ (x ∷ [])

  -- `rows[i] = x`, of a number in range.
  unfoldable pub assign : List A → ℕ → A → Result (List A)
  assign rows i x = if ltb i (length rows) then ok (set rows i x) else raise index_error

  -- `rows[-1] = x`
  unfoldable pub assign_last : List A → A → Result (List A)
  unfolding assign
  assign_last rows x = assign rows (length rows - 1) x

module _ {A : Type 0} where
  -- The predictions without the first, and the last one again.
  unfoldable pub shifted : List A → List A
  shifted preds = drop 1 preds ++ drop (length preds - 1) preds

-- The settings, and what the other packages give: the tokenizer if there is one, tensors made of a
-- text embedding, and the shapes of frames.
pub record Config (F Frame Text : Type 0) : Type 0 where
  pub seq_len : ℕ
  pub action_dim : ℕ
  pub device_is_cuda : Bool
  pub legacy_inference : Bool
  pub warm_start_blend : F
  pub warm_start_noise_std : F
  pub action_smoothing_alpha : F
  pub action_adapter : Adapter F
  pub text_tokenizer : Option (String → Text)
  pub ndim : Text → ℕ
  pub unsqueeze : Text → Text
  pub shape : Frame → List ℕ
  pub zeros : List ℕ → Frame

-- The tensor of the frames: its shape, and its rows along the sequence.
pub record Frames (Frame : Type 0) : Type 0 where
  pub shape : List ℕ
  pub rows : List Frame

pub record State (F Frame Text : Type 0) : Type 0 where
  pub compile : Bool
  pub text_tokens_embed : Option Text
  pub current_prompt : String
  pub frame_history : Option (Frames Frame)
  pub pose_history : List (List F)
  pub anchor_pose_16d : List F
  pub action_history : List (List F)
  pub prev_action_preds : Option (List (List F))
  pub prev_executed_absolute_action_16d : Option (List F)
  pub n_prior_frames : ℕ

-- The network, which may raise, and the two draws of `torch.randn_like` of a step.
pub record Model (F Frame Text : Type 0) : Type 0 where
  pub online_full_predict :
      List Frame
      → List (List F)
      → Option Text
      → Option (List (List F))
      → Bool
      → Result (List (List F))
  pub randn_first : List (List F) → List (List F)
  pub randn_second : List (List F) → List (List F)

module _ {F Frame Text : Type 0} (fl : Floats F) (c : Config F Frame Text) where
  -- `__post_init__`.
  unfoldable pub new : Bool → State F Frame Text
  new compile = record {
    compile = compile;
    text_tokens_embed = none;
    current_prompt = "";
    frame_history = none;
    pose_history = replicate c.seq_len (replicate 16 (zero_float fl));
    anchor_pose_16d = replicate 16 (zero_float fl);
    action_history = replicate c.seq_len (replicate c.action_dim (zero_float fl));
    prev_action_preds = none;
    prev_executed_absolute_action_16d = none;
    n_prior_frames = 0;
  }

  unfoldable pub encode_prompt : String → Option Text
  encode_prompt prompt = elim c.text_tokenizer [ none ↦ none | some tokens ↦ some (tokens prompt) ]

  unfoldable pub coerce_text_tokens_embed : Text → Text
  coerce_text_tokens_embed text = if c.ndim text == 1 then c.unsqueeze text else text

  unfoldable pub resolve_text_tokens_embed : String → Option Text → Option Text
  unfolding encode_prompt coerce_text_tokens_embed
  resolve_text_tokens_embed prompt none = encode_prompt prompt
  resolve_text_tokens_embed prompt (some text) = some (coerce_text_tokens_embed text)

  -- `prompt or default`
  unfoldable pub prompt_or : Option String → String → String
  prompt_or none default = default
  prompt_or (some prompt) default = if str_eq prompt "" then default else prompt

  -- `x.fill(0.0)` and `x.zero_()` of the rows of a tensor.
  abbrev pub zero_rows : List (List F) → List (List F)
  zero_rows rows = map (map (λ x. zero_float fl)) rows

  unfoldable pub reset : State F Frame Text → Option String → Option Text → State F Frame Text
  unfolding resolve_text_tokens_embed prompt_or
  reset s prompt text_tokens_embed =
      let current_prompt = prompt_or prompt "" in
      record {
        compile = s.compile;
        text_tokens_embed = resolve_text_tokens_embed current_prompt text_tokens_embed;
        current_prompt = current_prompt;
        frame_history = none;
        pose_history = zero_rows s.pose_history;
        anchor_pose_16d = map (λ x. zero_float fl) s.anchor_pose_16d;
        action_history = zero_rows s.action_history;
        prev_action_preds = none;
        prev_executed_absolute_action_16d = none;
        n_prior_frames = 0;
      }

  -- The text of a step: the first branches of `step`.
  unfoldable pub update_text : State F Frame Text → Option String → Option Text → State F Frame Text
  unfolding prompt_or encode_prompt coerce_text_tokens_embed
  update_text s prompt (some text) = record s {
    current_prompt = prompt_or prompt s.current_prompt;
    text_tokens_embed = some (coerce_text_tokens_embed text);
  }
  update_text s none none = s
  update_text s (some prompt) none =
      if str_eq prompt s.current_prompt
      then s
      else record s { current_prompt = prompt; text_tokens_embed = encode_prompt prompt }

  abbrev pub shape_eq : List ℕ → List ℕ → Bool
  shape_eq [] [] = true
  shape_eq [] (n ∷ ns) = false
  shape_eq (m ∷ ms) [] = false
  shape_eq (m ∷ ms) (n ∷ ns) = (m == n) && shape_eq ms ns

  abbrev pub blank_frames : Frame → Frames Frame
  blank_frames frame = record {
    shape = 1 ∷ c.seq_len ∷ c.shape frame;
    rows = replicate c.seq_len (c.zeros (c.shape frame));
  }

  unfoldable pub ensure_frame_history : Option (Frames Frame) → Frame → Frames Frame
  ensure_frame_history none frame = blank_frames frame
  ensure_frame_history (some history) frame =
      if not (shape_eq history.shape (1 ∷ c.seq_len ∷ c.shape frame))
      then blank_frames frame
      else history

  -- No motion of both arms, with the grippers of the pose.
  abbrev pub identity_arm : List F
  identity_arm = replicate 3 (zero_float fl) ++ (replicate 3 (zero_float fl) ++ (one_float fl ∷ []))

  abbrev pub identity_action : List F → List F
  identity_action pose = (identity_arm ++ slice 7 8 pose) ++ (identity_arm ++ slice 15 16 pose)

  unfoldable pub make_identity_relative_action : List F → Result (List F)
  unfolding compact_to_full_action normalize_action reshape
  make_identity_relative_action pose = do
    current_pose_16d ← reshape 16 pose
    full_action ← compact_to_full_action fl c.action_adapter (identity_action current_pose_16d) none
    normalize_action fl c.action_adapter full_action

  -- `history[-1].zero_()` after the rows before it are written.
  abbrev pub zero_last : List (List F) → Result (List (List F))
  zero_last rows = do
    last ← or_raise (get_elem? rows (length rows - 1)) index_error
    assign_last rows (map (λ x. zero_float fl) last)

  -- `history[:n] = rebased`, of a history of one row more; another number of rows does not fit.
  abbrev pub write_front : List (List F) → List (List F) → Result (List (List F))
  write_front history rebased = do
    ensure (length rebased + 1 == length history) value_error
    last ← or_raise (get_elem? history (length history - 1)) index_error
    zero_last (rebased ++ (last ∷ []))

  unfoldable pub rebase_action_history_after_roll_legacy : List (List F) → Result (List (List F))
  unfolding rebase_normalized_actions assign_last
  rebase_action_history_after_roll_legacy history = if leb c.seq_len 1 then ok history else (do
    reference_action ← or_raise (get_elem? history 0) index_error
    rebased_history ←
        rebase_normalized_actions fl c.action_adapter (take (c.seq_len - 1) history)
          reference_action
    write_front history rebased_history)

  unfoldable pub rebase_action_history_after_roll :
      List (List F) → List F → List F → Result (List (List F))
  unfolding rebase_normalized_actions_to_observed_anchor assign_last
  rebase_action_history_after_roll history previous_anchor_pose_16d new_anchor_pose_16d =
      if leb c.seq_len 1 then ok history else (do
        rebased_history ←
            rebase_normalized_actions_to_observed_anchor fl c.action_adapter
              (take (c.seq_len - 1) history) previous_anchor_pose_16d new_anchor_pose_16d
        write_front history rebased_history)

  unfoldable pub roll_warm_start_predictions :
      Option (List (List F)) → List F → List F → Result (Option (List (List F)))
  unfolding rebase_normalized_actions_to_observed_anchor shifted
  roll_warm_start_predictions none previous_anchor_pose_16d new_anchor_pose_16d = ok none
  roll_warm_start_predictions (some preds) previous_anchor_pose_16d new_anchor_pose_16d = do
    rebased_preds ←
        rebase_normalized_actions_to_observed_anchor fl c.action_adapter (shifted preds)
          previous_anchor_pose_16d new_anchor_pose_16d
    ok (some rebased_preds)

  abbrev pub scale_rows : F → List (List F) → List (List F)
  scale_rows s rows = map (scale fl s) rows

  abbrev pub add_rows : List (List F) → List (List F) → List (List F)
  add_rows [] ys = []
  add_rows (x ∷ xs) [] = []
  add_rows (x ∷ xs) (y ∷ ys) = zip_with fl.plus x y ∷ add_rows xs ys

  unfoldable pub build_warm_start_sample :
      Model F Frame Text → Option (List (List F)) → Option (List (List F))
  build_warm_start_sample m none = none
  build_warm_start_sample m (some preds) =
      let blend = c.warm_start_blend in
      let std = c.warm_start_noise_std in
      let warm_start =
        if fl.less blend (one_float fl)
        then add_rows (scale_rows blend preds)
            (scale_rows (fl.minus (one_float fl) blend) (m.randn_first preds))
        else preds in
      if fl.less_equal blend (zero_float fl)
      then none
      else if fl.less (zero_float fl) std
      then some (add_rows warm_start (scale_rows std (m.randn_second warm_start)))
      else some warm_start
