-- ===== src/Training/Resume.antt =====
-- `_validate_resume_checkpoint_compatibility` (elefant/policy_model/stage3_finetune.py). A state dict
-- is the list of its keys with the shapes of their tensors.
use text.Mathlib.Text.{starts_with}
use p2p_rdt.Common.{
  ℕ, ◌+◌, ◌==◌, Bool, true, false, not, ◌||◌, String, List, [], ◌∷◌, Option, none, some, get_elem?,
  str_eq, if◌then◌else◌,
}
use p2p_rdt.Common.Results.{
  Result, ok, raise, ◌>>=◌, ◌>>◌, ensure, or_raise, value_error, index_error,
}

abbrev pub StateDict : Type 0
StateDict = List (String × List ℕ)

-- `state_dict.get(key)`
unfoldable pub get : {V : Type 0} → List (String × V) → String → Option V
get [] key = none
get ((k, value) ∷ rest) key = let later = get rest key in if str_eq k key then some value else later

-- What the check reads of the configuration; `n_actions` is what `get_robot_action_dim` returned.
pub record Expected : Type 0 where
  pub n_actions : ℕ
  pub n_seq_timesteps : ℕ
  pub num_register_tokens : ℕ
  pub use_image_condition : Bool

abbrev pub legacy_rdt_keys : List String
legacy_rdt_keys =
    "policy_summary_to_rdt_action_tokens_proj." ∷ "policy_summary_to_rdt_state_proj."
    ∷ "text_condition_to_rdt_proj." ∷ []

unfoldable pub any_prefix : String → List String → Bool
any_prefix key [] = false
any_prefix key (prefix ∷ prefixes) = starts_with key prefix || any_prefix key prefixes

unfoldable pub any_legacy : StateDict → Bool
unfolding any_prefix
any_legacy [] = false
any_legacy ((key, shape) ∷ rest) = any_prefix key legacy_rdt_keys || any_legacy rest

abbrev pub is_given : Option (List ℕ) → Bool
is_given none = false
is_given (some shape) = true

-- `int(tensor.shape[1])` of a tensor, which has to be the expected one.
unfoldable pub check_dim : List ℕ → ℕ → Result (Unit {0})
check_dim shape expected = do
  dim ← or_raise (get_elem? shape 1) index_error
  ensure (dim == expected) value_error

-- The same of a tensor that may be missing.
unfoldable pub check_optional : Option (List ℕ) → ℕ → Result (Unit {0})
unfolding check_dim
check_optional none expected = ok tt
check_optional (some shape) expected = check_dim shape expected

-- The same of a tensor that has to be there.
unfoldable pub check_required : Option (List ℕ) → ℕ → Result (Unit {0})
unfolding check_dim
check_required none expected = raise value_error
check_required (some shape) expected = check_dim shape expected

abbrev pub bool_eq : Bool → Bool → Bool
bool_eq true b = b
bool_eq false b = not b

unfoldable pub check_state_dict : StateDict → Expected → Result (Unit {0})
unfolding any_legacy get check_optional check_required
check_state_dict state_dict e = do
  ensure (not (any_legacy state_dict)) value_error
  ensure (not (is_given (get state_dict "rdt_action_queries"))) value_error
  check_optional (get state_dict "bc_transformer.action_pos_tokens") 1
  check_optional (get state_dict "rdt_policy_head.x_pos_emb")
      (e.n_seq_timesteps + e.num_register_tokens)
  check_required (get state_dict "rdt_policy_head.act_pos_emb") e.n_seq_timesteps
  check_optional (get state_dict "rdt_policy_head.action_embedder.weight") e.n_actions
  ensure (bool_eq (is_given (get state_dict "rdt_policy_head.img_pos_emb")) e.use_image_condition)
      value_error

unfoldable pub validate_resume_checkpoint_compatibility : StateDict → Expected → Result (Unit {0})
unfolding check_state_dict
validate_resume_checkpoint_compatibility [] e = ok tt
validate_resume_checkpoint_compatibility (entry ∷ rest) e = check_state_dict (entry ∷ rest) e
