-- ===== src/Attention/Outputs.antt =====
-- The outputs that the policy reads are those at the action-out tokens
-- (elefant/policy_model/policy_transformer.py).
use native.Mathlib.Nat.{mul-div_left, mul-le-mul_right, mul_comm}
use p2p_rdt.Attention.Mask.{
  Sizes, one_step_len, token_to_action_out, max_seq_len, step_size, output_indices,
  output_action_token_idx, layer_layout,
}
use p2p_rdt.Common.{
  ℕ, zero, suc, ◌+◌, ◌*◌, ◌≤◌, ◌<◌, ◌≡◌, refl, ap, ◌∙◌, some, arith, length, get_elem?,
}

module _ (z : Sizes) where
  length-output_indices : (i k : ℕ) → length (output_indices z i k) ≡ k
  unfolding output_indices
  length-output_indices i zero = refl
  length-output_indices i (suc k) = ap suc (length-output_indices (i + 1) k)

  abbrev step_len : ℕ
  step_len = z.n_img_tokens + z.text_token_size + z.n_thinking_tokens + 1 + z.n_action_tokens

  abbrev inputs : ℕ
  inputs = z.n_img_tokens + z.text_token_size + z.n_thinking_tokens

  get_elem?-output_indices :
      (i k j : ℕ) → j < k → get_elem? (output_indices z i k) j ≡ some (inputs + (i + j) * step_len)
  unfolding output_indices
  get_elem?-output_indices i zero j h = elim h [ ]
  get_elem?-output_indices i (suc k) zero h =
      let e : i * step_len + z.n_img_tokens + z.text_token_size + z.n_thinking_tokens
          ≡ inputs + (i + 0) * step_len =
        omega arith in
      ap some e
  get_elem?-output_indices i (suc k) (suc j) h =
      let e : i + 1 + j ≡ i + suc j = omega arith in
      get_elem?-output_indices (i + 1) k j (omega arith) ∙ ap (λ n. some (inputs + n * step_len)) e

  -- For each of the `n_steps` steps there is one output, at the action-out token of the step in the
  -- layout of every layer's mask and inside the sequence; and the steps of the layout are as long
  -- as `step_size`.
  pub output_action_token_idx_lem :
      (allowed_frames i : ℕ)
      → i < z.n_steps
      → let l = layer_layout z allowed_frames in
        (length (output_action_token_idx z) ≡ z.n_steps)
        × (get_elem? (output_action_token_idx z) i
            ≡ some (token_to_action_out l + i * one_step_len l))
        × (token_to_action_out l < one_step_len l)
        × (step_size z ≡ one_step_len l)
        × (token_to_action_out l + i * one_step_len l < max_seq_len z)
  unfolding output_action_token_idx step_size layer_layout one_step_len token_to_action_out
      max_seq_len
  output_action_token_idx_lem allowed_frames i h =
      let len =
        z.n_img_tokens + z.text_token_size + z.n_thinking_tokens + (1 + z.n_action_tokens) in
      let same : step_len ≡ len = omega arith in
      let place : inputs + (0 + i) * step_len
          ≡ z.n_img_tokens + z.n_thinking_tokens + z.text_token_size + i * len =
        omega arith in
      let whole : suc i * len ≤ z.n_steps * len = mul-le-mul_right len h in
      (
        length-output_indices 0 z.n_steps,
        get_elem?-output_indices 0 z.n_steps i h ∙ ap some place,
        omega arith,
        mul-div_left step_len (omega arith) ∙ same,
        rw (same, mul_comm len z.n_steps) (omega arith),
      )
