-- ===== src/Examples/Attention.antt =====
-- Runs of the attention mask (elefant/policy_model/policy_transformer.py).
use p2p_rdt.Attention.Kinds.{kind, sees, within}
use p2p_rdt.Attention.Mask.{
  Layout, Sizes, one_step_len, token_to_action_out, mask, full_mask, history_mask,
  is_img_or_text_or_thinking_token, is_action_token, is_action_out_token, max_seq_len, step_size,
  output_action_token_idx, layer_layout,
}
use p2p_rdt.Attention.Outputs.{output_action_token_idx_lem}
use p2p_rdt.Attention.Causality.{Depends, look, itself, Looks, step_len, out_offset, action_out_lem}
use p2p_rdt.Attention.Visible.{mask_lem}
use p2p_rdt.Common.{
  ℕ, ◌+◌, ◌*◌, ◌≤◌, ◌<◌, ◌≡◌, ◌&&◌, some, arith, length, get_elem?, [], ◌∷◌, ◌⊎◌, refl,
}

-- Steps of two image tokens, one thinking token, the action-out token and two actions.
abbrev six_tokens : Layout
six_tokens = record {
  n_img_tokens = 2;
  n_thinking_tokens = 1;
  n_action_tokens = 3;
  history_len = some 4;
  n_text_tokens = 0;
  n_kv_sink_tokens = 1;
}

inside : (3 < one_step_len six_tokens) × (5 < one_step_len six_tokens)
unfolding one_step_len
inside = omega arith

own_action : (3 ≤ token_to_action_out six_tokens) × (token_to_action_out six_tokens < 5) × (2 ≤ 2)
unfolding token_to_action_out
own_action = omega arith

mask_lem_example :
    mask six_tokens (3 + 2 * one_step_len six_tokens) (1 + (5 + 1 * one_step_len six_tokens))
    ≡ sees (kind (token_to_action_out six_tokens) 3) (kind (token_to_action_out six_tokens) 5) 2 1
      && within (some 4) 2 1
mask_lem_example = mask_lem six_tokens 2 3 1 5 inside.0 inside.1

abbrev four_steps : Sizes
four_steps = record {
  n_img_tokens = 2;
  text_token_size = 0;
  n_thinking_tokens = 1;
  n_action_tokens = 2;
  n_steps = 4;
  n_kv_sink_tokens = 1;
}

offsets : (1 < step_len four_steps) × (4 < step_len four_steps)
unfolding one_step_len layer_layout
offsets = (omega arith, omega arith)

first_look : Looks four_steps 2 2 (out_offset four_steps) 1 4
unfolding layer_layout one_step_len token_to_action_out mask full_mask history_mask
    is_img_or_text_or_thinking_token is_action_token is_action_out_token
first_look = refl

second_look : Looks four_steps 1 1 4 0 1
unfolding layer_layout one_step_len token_to_action_out mask full_mask history_mask
    is_img_or_text_or_thinking_token is_action_token is_action_out_token
second_look = refl

-- The output of step 2 through two layers: it looks at an action of step 1, and that at an input of step 0.
through_two : Depends four_steps (2 ∷ 1 ∷ []) 2 (out_offset four_steps) 0 1
through_two = look 1 4 offsets.1 first_look (look 0 1 offsets.0 second_look itself)

action_out_lem_example : (0 < 2) ⊎ (◌≡◌ {A = ℕ} 0 2 × (1 ≤ out_offset four_steps))
action_out_lem_example = action_out_lem four_steps 2 0 1 (2 ∷ 1 ∷ []) through_two

output_action_token_idx_lem_example :
    (length (output_action_token_idx four_steps) ≡ 4)
    × (get_elem? (output_action_token_idx four_steps) 3
        ≡ some (
            token_to_action_out (layer_layout four_steps 2)
            + 3 * one_step_len (layer_layout four_steps 2)))
    × (token_to_action_out (layer_layout four_steps 2) < one_step_len (layer_layout four_steps 2))
    × (step_size four_steps ≡ one_step_len (layer_layout four_steps 2))
    × (token_to_action_out (layer_layout four_steps 2)
          + 3 * one_step_len (layer_layout four_steps 2)
        < max_seq_len four_steps)
output_action_token_idx_lem_example = output_action_token_idx_lem four_steps 2 3 (omega arith)
