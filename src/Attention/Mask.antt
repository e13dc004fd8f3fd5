-- ===== src/Attention/Mask.antt =====
-- `_img_policy_causal_mask`, and the lengths and indices that `PolicyCausalTransformer.__init__`
-- computes (elefant/policy_model/policy_transformer.py).
use p2p_rdt.Common.{
  ℕ, zero, suc, ◌+◌, ◌-◌, ◌*◌, ◌/◌, ◌%◌, Bool, true, ◌&&◌, ◌||◌, not, List, [], ◌∷◌, Option, none,
  some, ltb, leb, ◌==◌,
}

-- The arguments of the mask; `n_action_tokens` counts the action-out token too.
pub record Layout : Type 0 where
  pub n_img_tokens : ℕ
  pub n_thinking_tokens : ℕ
  pub n_action_tokens : ℕ
  pub history_len : Option ℕ
  pub n_text_tokens : ℕ
  pub n_kv_sink_tokens : ℕ

module _ (l : Layout) where
  unfoldable pub one_step_len : ℕ
  one_step_len = l.n_img_tokens + l.n_text_tokens + l.n_thinking_tokens + l.n_action_tokens

  unfoldable pub token_to_action_out : ℕ
  token_to_action_out = l.n_img_tokens + l.n_thinking_tokens + l.n_text_tokens

  -- The tests of a token; the index of its step is `idx / one_step_len`.
  unfoldable pub is_img_or_text_or_thinking_token : ℕ → Bool
  is_img_or_text_or_thinking_token idx = ltb (idx % one_step_len) token_to_action_out

  unfoldable pub is_action_token : ℕ → Bool
  is_action_token idx = ltb token_to_action_out (idx % one_step_len)

  unfoldable pub is_action_out_token : ℕ → Bool
  is_action_out_token idx = idx % one_step_len == token_to_action_out

  -- `full_mask`, before the history.
  unfoldable pub full_mask : ℕ → ℕ → Bool
  unfolding is_img_or_text_or_thinking_token is_action_token is_action_out_token
  full_mask q kv =
      let q_img = is_img_or_text_or_thinking_token q in
      let kv_img = is_img_or_text_or_thinking_token kv in
      let q_action = is_action_token q in
      let q_out = is_action_out_token q in
      let kv_out = is_action_out_token kv in
      let before = ltb (kv / one_step_len) (q / one_step_len) in
      let same = kv / one_step_len == q / one_step_len in
      (q_img && not kv_out && before)
      || (q_out && not kv_out && before)
      || (q_action && not kv_out && before)
      || (q_img && kv_img && same)
      || (q_out && (kv_img || kv_out) && same)
      || (q_action && not kv_out && same)

  -- A difference of steps that is negative is below every history, as 0 is.
  unfoldable pub history_mask : ℕ → ℕ → Bool
  history_mask q kv = elim l.history_len [
    | none ↦ true
    | some history_len ↦ leb (q / one_step_len - kv / one_step_len) history_len
  ]

  -- `_mask`, for any batch and head. For a sink the index below zero is not looked at.
  unfoldable pub mask : ℕ → ℕ → Bool
  unfolding full_mask history_mask
  mask q_idx kv_idx =
      ltb kv_idx l.n_kv_sink_tokens
      || (full_mask q_idx (kv_idx - l.n_kv_sink_tokens)
          && history_mask q_idx (kv_idx - l.n_kv_sink_tokens))

-- What the transformer reads of its configuration and its tokenizer; here `n_action_tokens` does
-- not count the action-out token.
pub record Sizes : Type 0 where
  pub n_img_tokens : ℕ
  pub text_token_size : ℕ
  pub n_thinking_tokens : ℕ
  pub n_action_tokens : ℕ
  pub n_steps : ℕ
  pub n_kv_sink_tokens : ℕ

module _ (z : Sizes) where
  unfoldable pub max_seq_len : ℕ
  max_seq_len =
      (z.n_img_tokens + z.text_token_size + z.n_thinking_tokens + 1 + z.n_action_tokens) * z.n_steps

  unfoldable pub step_size : ℕ
  unfolding max_seq_len
  step_size = max_seq_len / z.n_steps

  -- The loop from step `i` on, with `k` steps left.
  unfoldable pub output_indices : ℕ → ℕ → List ℕ
  output_indices i zero = []
  output_indices i (suc k) =
      let step_start_idx =
        i * (z.n_img_tokens + z.text_token_size + z.n_thinking_tokens + 1 + z.n_action_tokens) in
      let action_idx = step_start_idx + z.n_img_tokens + z.text_token_size + z.n_thinking_tokens in
      action_idx ∷ output_indices (i + 1) k

  unfoldable pub output_action_token_idx : List ℕ
  unfolding output_indices
  output_action_token_idx = output_indices 0 z.n_steps

  -- The layout that `_assign_layer_masks` gives to the mask of a layer.
  unfoldable pub layer_layout : ℕ → Layout
  layer_layout allowed_frames = record {
    n_img_tokens = z.n_img_tokens;
    n_thinking_tokens = z.n_thinking_tokens;
    n_action_tokens = 1 + z.n_action_tokens;
    history_len = some allowed_frames;
    n_text_tokens = z.text_token_size;
    n_kv_sink_tokens = z.n_kv_sink_tokens;
  }
