-- ===== src/ActionMapping/Encode.antt =====
-- `action_to_tensor` and the shapes of `UniversalAutoregressiveActionMapping`
-- (elefant/data/action_mapping.py). `torch.bucketize` is a parameter, with what its documentation
-- says of ascending boundaries.
use p2p_rdt.ActionMapping.Keymap.{
  keyboard_encoding_map, mouse_key_action_mapping, lookup, get_number_of_keyboard_choices,
  get_number_of_mouse_button_choices,
}
use p2p_rdt.ActionMapping.Mouse.{
  mouse_x_bin_edges, mouse_y_bin_edges, get_n_mouse_x_bins, get_n_mouse_y_bins,
}
use p2p_rdt.Common.{
  ℕ, ◌+◌, ◌-◌, ◌≤◌, ◌<◌, ◌≡◌, String, List, [], ◌∷◌, ◌++◌, Option, none, some, get_elem?, length,
  take, replicate, ltb, if◌then◌else◌,
}
use p2p_rdt.Common.Ascending
use p2p_rdt.Common.Int.{ℤ, pos, ◌*ℤ◌, ◌≤ℤ◌, ◌<ℤ◌}

-- `UniversalAutoregressiveActionMappingConfig`.
pub record Config : Type 0 where
  pub max_keys : ℕ
  pub max_mouse_keys : ℕ

-- The class `StructuredAction`, over the types of its fields: lists of codes and bins for a tensor
-- of one step, names and pixels for a real action.
pub record StructuredAction (K : Type 0) (M : Type 0) (D : Type 0) : Type 0 where
  pub keys : K
  pub mouse_buttons : M
  pub mouse_delta_x : D
  pub mouse_delta_y : D

abbrev pub Tensor : Type 0
Tensor = StructuredAction (List ℕ) (List ℕ) ℕ

abbrev pub Action : Type 0
Action = StructuredAction (List String) (List String) ℤ

-- Each element is below the next.
abbrev pub IsAscending : List ℤ → Type 0
IsAscending [] = Unit
IsAscending (a ∷ []) = Unit
IsAscending (a ∷ b ∷ l) = (a <ℤ b) × IsAscending (b ∷ l)

-- `torch.bucketize` with `right=False`: the edges before the bin lie below the value, and no later
-- one does.
pub record Bucketize : Type 0 where
  pub bucketize : ℤ → List ℤ → ℕ
  pub bucketize-le : (v : ℤ) (edges : List ℤ) → bucketize v edges ≤ length edges
  pub edge_below :
      (v : ℤ) (edges : List ℤ) (i : ℕ) {e : ℤ}
      → IsAscending edges
      → i < bucketize v edges
      → get_elem? edges i ≡ some e
      → e <ℤ v
  pub edge_above :
      (v : ℤ) (edges : List ℤ) (i : ℕ) {e : ℤ}
      → IsAscending edges
      → bucketize v edges ≤ i
      → get_elem? edges i ≡ some e
      → v ≤ℤ e

-- One round of the loops over names: an unknown name is passed over with a warning, an ignored one
-- without.
unfoldable pub add_code : Option (Option ℕ) → List ℕ → List ℕ
add_code none codes = codes
add_code (some none) codes = codes
add_code (some (some v)) codes = Ascending.insert v codes

-- The codes of the names, as `sorted(list(set))` gives them.
unfoldable pub codes_down : List (String × Option ℕ) → List String → List ℕ
unfolding add_code
codes_down d [] = []
codes_down d (k ∷ ks) = add_code (lookup k d) (codes_down d ks)

-- Cut to `n` codes, or filled with zeros up to `n`.
unfoldable pub fit : ℕ → List ℕ → List ℕ
fit n codes = if ltb n (length codes) then take n codes else codes ++ replicate (n - length codes) 0

module _ (c : Config) where
  unfoldable pub get_number_of_keyboard_actions : ℕ
  get_number_of_keyboard_actions = c.max_keys

  unfoldable pub get_number_of_mouse_button_actions : ℕ
  get_number_of_mouse_button_actions = c.max_mouse_keys

  unfoldable pub get_number_of_actions : StructuredAction ℕ ℕ ℕ
  unfolding get_number_of_keyboard_actions get_number_of_mouse_button_actions
  get_number_of_actions = record {
    keys = get_number_of_keyboard_actions;
    mouse_buttons = get_number_of_mouse_button_actions;
    mouse_delta_x = 1;
    mouse_delta_y = 1;
  }

  unfoldable pub get_seq_len : ℕ
  get_seq_len = c.max_keys + c.max_mouse_keys + 2

  unfoldable pub action_to_tensor : Bucketize → List String → List String → ℤ → ℤ → Tensor
  unfolding get_number_of_keyboard_actions get_number_of_mouse_button_actions
  action_to_tensor torch keys mouse_buttons dx dy = record {
    keys = fit get_number_of_keyboard_actions (codes_down keyboard_encoding_map keys);
    mouse_buttons =
        fit get_number_of_mouse_button_actions (codes_down mouse_key_action_mapping mouse_buttons);
    mouse_delta_x = torch.bucketize (dx *ℤ pos 10) mouse_x_bin_edges;
    mouse_delta_y = torch.bucketize (dy *ℤ pos 10) mouse_y_bin_edges;
  }

unfoldable pub get_number_of_action_choices : StructuredAction ℕ ℕ ℕ
unfolding get_number_of_keyboard_choices get_number_of_mouse_button_choices get_n_mouse_x_bins
    get_n_mouse_y_bins
get_number_of_action_choices = record {
  keys = get_number_of_keyboard_choices;
  mouse_buttons = get_number_of_mouse_button_choices;
  mouse_delta_x = get_n_mouse_x_bins;
  mouse_delta_y = get_n_mouse_y_bins;
}
