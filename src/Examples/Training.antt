-- ===== src/Examples/Training.antt =====
-- Runs of the choice of GPUs (elefant/policy_model/stage3_finetune.py), of the check of a checkpoint and
-- of the configuration of a dataset.
use p2p_rdt.Common.{
  ℕ, ◌<◌, ◌≤◌, ◌+◌, ◌≡◌, ◌⊎◌, Bool, true, false, String, List, [], ◌∷◌, Option, none, some, length,
  map, ltb, All, get_elem?, ◌%◌, ◌↔◌, refl, arith,
}
use p2p_rdt.Common.Results.{ok, raise, runtime_error, Error}
use p2p_rdt.Lerobot.Channels.{Config, resolve_action_dim, resolve_inverse_used_action_channel_ids}
use p2p_rdt.Training.Agreement.{model_post_init_lem}
use p2p_rdt.Training.Config.{or_dim, model_post_init, get_robot_action_dim}
use p2p_rdt.Training.Repeat.{numel, reshape_tensor_with_repeat, reshape_tensor_with_repeat_lem}
use p2p_rdt.Training.Resume.{StateDict, Expected, validate_resume_checkpoint_compatibility}
use p2p_rdt.Training.Compatible.{Compatible, validate_resume_iff}
use p2p_rdt.Training.Origin.{Weight, Ops, State, initialize_from_origin_checkpoint, offered}
use p2p_rdt.Training.Initialized.{Fits, AnyMisfit, initialize_cases}
use p2p_rdt.Training.Gpus.{
  Gpu, auto, gpu, usable_indices, is_free, free_gpus, index_of, select_training_gpus,
}
use p2p_rdt.Training.Selected.{visible, select_requested_cases, select_free_cases}

-- Devices 1 and 2 pass.
abbrev below_three : ℕ → Bool
below_three i = ltb i 3

select_requested_cases_example :
    ((n : ℕ) × (exported : Option (List ℕ)) × (select_training_gpus below_three
          (some (some 1 ∷ some 4 ∷ some 2 ∷ []))
          none
        ≡ ok (gpu n exported))
      × (0 < n)
      × (n ≡ length (visible (1 ∷ 4 ∷ 2 ∷ []) exported))
      × (visible (1 ∷ 4 ∷ 2 ∷ []) exported ≡ usable_indices below_three (1 ∷ 4 ∷ 2 ∷ []))
      × All (λ i. below_three i ≡ true) (visible (1 ∷ 4 ∷ 2 ∷ []) exported))
    ⊎ ((select_training_gpus below_three (some (some 1 ∷ some 4 ∷ some 2 ∷ [])) none
          ≡ raise runtime_error)
        × All (λ i. below_three i ≡ false) (1 ∷ 4 ∷ 2 ∷ []))
select_requested_cases_example = select_requested_cases below_three (1 ∷ 4 ∷ 2 ∷ []) none

abbrev busy_gpu : Gpu
busy_gpu = record { index = 0; uuid = "a"; free_mb = 20000; total_mb = 24000 }

abbrev idle_gpu : Gpu
idle_gpu = record { index = 1; uuid = "b"; free_mb = 20000; total_mb = 24000 }

abbrev machine : List Gpu
machine = busy_gpu ∷ idle_gpu ∷ []

abbrev busy : List String
busy = "a" ∷ []

select_free_cases_example :
    ((n : ℕ) × (exported : Option (List ℕ)) × (chosen : List Gpu) × (select_training_gpus
          below_three none
          (some (machine, busy))
        ≡ ok (gpu n exported))
      × (0 < n)
      × (n ≡ length (visible (0 ∷ 1 ∷ []) exported))
      × (visible (0 ∷ 1 ∷ []) exported ≡ map index_of chosen)
      × (chosen ≡ free_gpus busy machine)
      × All (λ g. is_free busy g ≡ true) chosen)
    ⊎ ((select_training_gpus below_three none (some (machine, busy)) ≡ ok auto)
        × All (λ g. is_free busy g ≡ false) machine)
select_free_cases_example = select_free_cases below_three machine busy

abbrev arm_channels : Config
arm_channels = record {
  action_dim = none;
  robot_action_dim = some 20;
  inverse_used_action_channel_ids = [];
  used_action_channel_ids = 3 ∷ 0 ∷ 5 ∷ [];
}

model_post_init_lem_example :
    (full : Config) × (model_post_init arm_channels ≡ ok full)
    × (resolve_inverse_used_action_channel_ids full ≡ ok full.inverse_used_action_channel_ids)
    × (resolve_action_dim full ≡ ok (length full.inverse_used_action_channel_ids))
    × (get_robot_action_dim full 4
        ≡ ok (or_dim (some 20) (length full.inverse_used_action_channel_ids)))
model_post_init_lem_example = model_post_init_lem arm_channels 3 (0 ∷ 5 ∷ []) 4 refl tt

abbrev three_numbers : List ℕ
three_numbers = 7 ∷ 8 ∷ 9 ∷ []

abbrev two_by_four : List ℕ
two_by_four = 2 ∷ 4 ∷ []

reshape_tensor_with_repeat_lem_example :
    (out : List ℕ) × (reshape_tensor_with_repeat three_numbers two_by_four ≡ ok out)
    × (length out ≡ numel 1 two_by_four)
    × ((i : ℕ)
        → i < numel 1 two_by_four
        → get_elem? out i ≡ get_elem? three_numbers (i % length three_numbers))
reshape_tensor_with_repeat_lem_example =
    reshape_tensor_with_repeat_lem three_numbers two_by_four (omega arith)

abbrev saved : StateDict
saved =
    ("rdt_policy_head.act_pos_emb", 1 ∷ 8 ∷ []) ∷ ("rdt_policy_head.x_pos_emb", 1 ∷ 12 ∷ []) ∷ []

abbrev configured : Expected
configured = record {
  n_actions = 20;
  n_seq_timesteps = 8;
  num_register_tokens = 4;
  use_image_condition = false;
}

validate_resume_iff_example :
    (validate_resume_checkpoint_compatibility saved configured ≡ ok tt)
    ↔ Compatible saved configured
validate_resume_iff_example = validate_resume_iff saved configured

-- The rest of a tensor is how often it was repeated.
abbrev torch_ops : Ops ℕ
torch_ops = record {
  repeat_tokens = λ n content. content + n;
  to_dtype_of = λ source target. source;
}

abbrev tensor : List ℕ → Weight ℕ
tensor shape = record { shape = shape; content = 0 }

abbrev fresh_model : List (String × Weight ℕ)
fresh_model =
    ("image_tokenizer.base_tokenizer.weight", tensor (4 ∷ 4 ∷ []))
    ∷ ("bc_transformer.img_pos_tokens", tensor (1 ∷ 6 ∷ 8 ∷ []))
    ∷ []

abbrev origin : List (String × Weight ℕ)
origin =
    ("image_tokenizer.weight", tensor (4 ∷ 4 ∷ []))
    ∷ ("bc_transformer.img_pos_tokens", tensor (1 ∷ 2 ∷ 8 ∷ []))
    ∷ ("key_action_embedding.weight", tensor (5 ∷ []))
    ∷ ("other", tensor (3 ∷ []))
    ∷ []

initialize_cases_example :
    ((s : State ℕ) × (initialize_from_origin_checkpoint torch_ops true fresh_model origin
        ≡ ok (offered torch_ops s))
      × All (Fits fresh_model) s.loadable
      × (s.counts.loaded + s.counts.filtered + s.counts.missing ≡ length origin)
      × (s.counts.adapted ≤ s.counts.loaded)
      × (s.counts.remapped ≤ s.counts.loaded + s.counts.missing))
    ⊎ ((e : Error) × (initialize_from_origin_checkpoint torch_ops true fresh_model origin ≡ raise e)
        × AnyMisfit true fresh_model origin)
initialize_cases_example = initialize_cases torch_ops true fresh_model origin
