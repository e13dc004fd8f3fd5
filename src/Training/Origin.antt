-- ===== src/Training/Origin.antt =====
-- `_maybe_initialize_from_origin_checkpoint` (elefant/policy_model/stage3_finetune.py), which takes
-- weights of another policy for the ones of the model that they fit.
use Prim.Native.String.{◌++◌ as text_append, len, slice as text_slice}
use text.Mathlib.Text.{starts_with}
use p2p_rdt.Common.{
  ℕ, ◌+◌, ◌-◌, ◌*◌, ◌/◌, ◌%◌, Bool, true, false, ◌&&◌, ◌||◌, ◌==◌, String, List, [], ◌∷◌, Option,
  none, some, length, get_or, str_eq, if◌then◌else◌,
}
use p2p_rdt.Common.Results.{Result, ok, raise, ◌>>=◌, value_error, zero_division_error}
use p2p_rdt.Training.Gpus.{mem_str}
use p2p_rdt.Training.Resume.{get, any_prefix}

abbrev pub origin_init_skip_prefixes : List String
origin_init_skip_prefixes =
    "bc_transformer.action_decoder." ∷ "key_action_embedding." ∷ "mouse_button_embedding."
    ∷ "mouse_delta_x_embedding." ∷ "mouse_delta_y_embedding." ∷ "keyboard_out_logits."
    ∷ "mouse_button_out_logits." ∷ "mouse_delta_x_out_logits." ∷ "mouse_delta_y_out_logits." ∷ []

abbrev pub origin_init_skip_keys : List String
origin_init_skip_keys = "bc_transformer.action_pos_tokens" ∷ []

abbrev pub origin_tokenizer_prefix_remaps : List (String × String)
origin_tokenizer_prefix_remaps =
    ("bc_transformer.image_tokenizer.", "bc_transformer.image_tokenizer.base_tokenizer.")
    ∷ ("image_tokenizer.", "image_tokenizer.base_tokenizer.")
    ∷ []

unfoldable pub should_skip_origin_init_key : String → Bool
unfolding any_prefix
should_skip_origin_init_key key =
    mem_str key origin_init_skip_keys || any_prefix key origin_init_skip_prefixes

unfoldable pub remap_prefix : List (String × String) → String → String
remap_prefix [] key = key
remap_prefix ((source_prefix, target_prefix) ∷ remaps) key =
    let later = remap_prefix remaps key in
    if starts_with key source_prefix
    then text_append target_prefix (text_slice key (len source_prefix) (len key))
    else later

-- `_remap_origin_init_key`; the mode of images is "token_concat" or another.
unfoldable pub remap_origin_init_key : Bool → String → String
unfolding remap_prefix
remap_origin_init_key token_concat key =
    if token_concat then remap_prefix origin_tokenizer_prefix_remaps key else key

-- `key.endswith(suffix)`
unfoldable pub ends_with : String → String → Bool
ends_with key suffix = str_eq (text_slice key (len key - len suffix) (len key)) suffix

-- The shape of a tensor, and the rest of it.
pub record Weight (A : Type 0) : Type 0 where
  pub shape : List ℕ
  pub content : A

-- `source.repeat(1, n, 1)`, and `source.to(dtype=target.dtype)` of source and target.
pub record Ops (A : Type 0) : Type 0 where
  pub repeat_tokens : ℕ → A → A
  pub to_dtype_of : A → A → A

pub data AdaptMode : Type 0 where
  direct : AdaptMode
  repeat_img_tokens : ℕ → AdaptMode

pub record Counts : Type 0 where
  pub loaded : ℕ
  pub adapted : ℕ
  pub filtered : ℕ
  pub missing : ℕ
  pub remapped : ℕ

-- `loadable_state_dict` and `counts`.
pub record State (A : Type 0) : Type 0 where
  pub loadable : List (String × Weight A)
  pub counts : Counts

unfoldable pub have_same_shape : List ℕ → List ℕ → Bool
have_same_shape [] [] = true
have_same_shape [] (n ∷ ns) = false
have_same_shape (m ∷ ms) [] = false
have_same_shape (m ∷ ms) (n ∷ ns) = m == n && have_same_shape ms ns

-- Both are position tokens of images with three dimensions, of which the first and the last agree.
unfoldable pub are_img_tokens : String → List ℕ → String → List ℕ → Bool
unfolding ends_with
are_img_tokens source_key source target_key target =
    ends_with source_key "img_pos_tokens"
    && (ends_with target_key "img_pos_tokens"
        && (length source == 3
            && (length target == 3
                && (get_or source 0 0 == get_or target 0 0
                    && get_or source 2 0 == get_or target 2 0))))

module _ {A : Type 0} where
  -- `d[key] = value`
  unfoldable pub put_weight : List (String × A) → String → A → List (String × A)
  put_weight [] key value = (key, value) ∷ []
  put_weight ((k, v) ∷ rest) key value =
      let later = put_weight rest key value in
      if str_eq k key then (key, value) ∷ rest else (k, v) ∷ later

module _ {A : Type 0} (ops : Ops A) where
  -- The tensor with its tokens repeated to the number that the target has.
  unfoldable pub repeat_img : Weight A → Weight A → Result (Weight A × AdaptMode)
  repeat_img source target =
      let n = get_or source.shape 1 0 in
      let factor = get_or target.shape 1 0 / n in
      if n == 0
      then raise zero_division_error
      else if get_or target.shape 1 0 % n == 0
      then ok (
        record {
          shape = get_or source.shape 0 0 ∷ n * factor ∷ get_or source.shape 2 0 ∷ [];
          content = ops.to_dtype_of (ops.repeat_tokens factor source.content) target.content;
        },
        repeat_img_tokens factor,
      )
      else raise value_error

  unfoldable pub adapt_origin_tensor_to_target :
      String → Weight A → String → Weight A → Result (Weight A × AdaptMode)
  unfolding have_same_shape are_img_tokens repeat_img
  adapt_origin_tensor_to_target source_key source target_key target =
      if have_same_shape source.shape target.shape
      then ok (record source { content = ops.to_dtype_of source.content target.content }, direct)
      else if are_img_tokens source_key source.shape target_key target.shape
      then repeat_img source target
      else raise value_error

  -- The state after a tensor that was adapted.
  unfoldable pub load : State A → String → Weight A × AdaptMode → State A
  unfolding put_weight
  load s target_key (adapted, direct) = record s {
    loadable = put_weight s.loadable target_key adapted;
    counts = record s.counts { loaded = s.counts.loaded + 1 };
  }
  load s target_key (adapted, repeat_img_tokens factor) = record s {
    loadable = put_weight s.loadable target_key adapted;
    counts = record s.counts { loaded = s.counts.loaded + 1; adapted = s.counts.adapted + 1 };
  }

  abbrev pub filter_out : State A → State A
  filter_out s = record s { counts = record s.counts { filtered = s.counts.filtered + 1 } }

  abbrev pub count_missing : State A → State A
  count_missing s = record s { counts = record s.counts { missing = s.counts.missing + 1 } }

  abbrev pub count_remapped : State A → State A
  count_remapped s = record s { counts = record s.counts { remapped = s.counts.remapped + 1 } }

  -- What becomes of one tensor of the origin.
  unfoldable pub take_tensor :
      Bool → List (String × Weight A) → State A → String → Weight A → Result (State A)
  unfolding should_skip_origin_init_key remap_origin_init_key get adapt_origin_tensor_to_target load
  take_tensor token_concat target_state_dict s source_key source =
      let target_key = remap_origin_init_key token_concat source_key in
      let s' = if str_eq target_key source_key then s else count_remapped s in
      if should_skip_origin_init_key source_key
      then ok (filter_out s)
      else elim (get target_state_dict target_key) [
        | none ↦ ok (count_missing s')
        | some target ↦ (do
          adapted ← adapt_origin_tensor_to_target source_key source target_key target
          ok (load s' target_key adapted))
      ]

  -- The loop over the tensors of the origin.
  unfoldable pub take_tensors :
      Bool → List (String × Weight A) → State A → List (String × Weight A) → Result (State A)
  unfolding take_tensor
  take_tensors token_concat target_state_dict s [] = ok s
  take_tensors token_concat target_state_dict s ((key, source) ∷ rest) = do
    s' ← take_tensor token_concat target_state_dict s key source
    take_tensors token_concat target_state_dict s' rest

  abbrev pub start : State A
  start = record {
    loadable = [];
    counts = record { loaded = 0; adapted = 0; filtered = 0; missing = 0; remapped = 0 };
  }

  -- `load_state_dict` is not called with nothing.
  abbrev pub offered : State A → Option (State A)
  offered s = elim s.loadable [ [] ↦ none | entry ∷ rest ↦ some s ]

  -- What `load_state_dict` is called with, and the counts.
  unfoldable pub initialize_from_origin_checkpoint :
      Bool → List (String × Weight A) → List (String × Weight A) → Result (Option (State A))
  unfolding take_tensors
  initialize_from_origin_checkpoint token_concat target_state_dict origin_state_dict = do
    s ← take_tensors token_concat target_state_dict start origin_state_dict
    ok (offered s)
