-- ===== src/ActionMapping/RoundTrip.antt =====
-- `action_to_tensor` undoes `tensor_to_action` on the tensors that it writes.
use p2p_rdt.ActionMapping.Bins.{bucketize_of_in_bin}
use p2p_rdt.ActionMapping.Decode.{TruncNormal, names_down, mouse_delta, tensor_to_action}
use p2p_rdt.ActionMapping.Encode.{Config, Tensor, Action, Bucketize, IsAscending, action_to_tensor}
use p2p_rdt.ActionMapping.Keymap.{
  keyboard_encoding_map, mouse_key_action_mapping, lookup, name_of, keyboard_reverse_map,
  mouse_button_reverse_map, get_number_of_keyboard_choices, get_number_of_mouse_button_choices,
}
use p2p_rdt.ActionMapping.Motion.{IsApproach, mouse_delta-in_bin, mouse_delta_total, lengths}
use p2p_rdt.Common.Table.{all_below, all_below_sound}
use p2p_rdt.ActionMapping.Mouse.{
  mouse_x_bin_edges, mouse_y_bin_edges, get_n_mouse_x_bins, get_n_mouse_y_bins,
}
use p2p_rdt.ActionMapping.Names.{IsRow, fit-names_down, names_down_total, row-below, length-row}
use p2p_rdt.Common.{
  ℕ, ◌<◌, ◌≡◌, refl, Bool, true, false, ◌&&◌, String, List, [], ◌∷◌, Option, none, some, arith,
  ◌==◌, str_eq, if◌then◌else◌,
}
use p2p_rdt.Common.Int.{pos, ◌*ℤ◌}
use p2p_rdt.Common.Results.{ok, IsOk}

-- Code `v` has a name, and the name has code `v`.
abbrev Coded : List (String × Option ℕ) → List (ℕ × String) → String → ℕ → Type 0
Coded d r nothing v =
    (k : String) × (name_of v r ≡ some k)
    × (lookup k d ≡ some (some v))
    × (str_eq k nothing ≡ (v == 0))

coded : List (String × Option ℕ) → List (ℕ × String) → String → ℕ → Bool
coded d r nothing v = elim (name_of v r) [
  | none ↦ false
  | some k ↦ elim (lookup k d) [
    | none ↦ false
    | some o ↦ elim o [
      | none ↦ false
      | some w ↦ (w == v) && (if str_eq k nothing then v == 0 else (if v == 0 then false else true))
    ]
  ]
]

coded_sound :
    (d : List (String × Option ℕ)) (r : List (ℕ × String)) (nothing : String) (v : ℕ)
    → coded d r nothing v ≡ true
    → Coded d r nothing v
unfolding coded
coded_sound d r nothing v h = ground arith

keyboard_table :
    all_below get_number_of_keyboard_choices
      (coded keyboard_encoding_map keyboard_reverse_map "_no_key")
    ≡ true
unfolding all_below coded get_number_of_keyboard_choices keyboard_reverse_map lookup name_of
keyboard_table = refl

abbrev mouse_names : List (ℕ × String)
mouse_names = (0, "_no_button") ∷ (1, "0") ∷ (2, "1") ∷ (3, "2") ∷ []

mouse_names_lem : mouse_button_reverse_map ≡ ok mouse_names
unfolding mouse_button_reverse_map
mouse_names_lem = refl

mouse_table :
    all_below get_number_of_mouse_button_choices
      (coded mouse_key_action_mapping mouse_names "_no_button")
    ≡ true
unfolding all_below coded get_number_of_mouse_button_choices lookup name_of
mouse_table = refl

keyboard-Coded :
    (v : ℕ)
    → v < get_number_of_keyboard_choices
    → Coded keyboard_encoding_map keyboard_reverse_map "_no_key" v
keyboard-Coded v h =
    coded_sound keyboard_encoding_map keyboard_reverse_map "_no_key" v
      (all_below_sound get_number_of_keyboard_choices _ v keyboard_table h)

mouse-Coded :
    (v : ℕ)
    → v < get_number_of_mouse_button_choices
    → Coded mouse_key_action_mapping mouse_names "_no_button" v
mouse-Coded v h =
    coded_sound mouse_key_action_mapping mouse_names "_no_button" v
      (all_below_sound get_number_of_mouse_button_choices _ v mouse_table h)

choices-pos : (0 < get_number_of_keyboard_choices) × (0 < get_number_of_mouse_button_choices)
unfolding get_number_of_keyboard_choices get_number_of_mouse_button_choices
choices-pos = omega arith

edges-IsAscending : IsAscending mouse_x_bin_edges × IsAscending mouse_y_bin_edges
unfolding mouse_x_bin_edges mouse_y_bin_edges
edges-IsAscending = omega arith

-- A tensor that the encoder can write, for a configuration.
pub record IsTensor (c : Config) (t : Tensor) : Type 0 where
  pub keys : IsRow get_number_of_keyboard_choices c.max_keys t.keys
  pub mouse_buttons : IsRow get_number_of_mouse_button_choices c.max_mouse_keys t.mouse_buttons
  pub mouse_delta_x : t.mouse_delta_x < get_n_mouse_x_bins
  pub mouse_delta_y : t.mouse_delta_y < get_n_mouse_y_bins

module _ (c : Config) (sampler : TruncNormal) (approach : String) (t : Tensor) where
  -- The three parts of a decoded action.
  decoded_parts :
      {a : Action}
      → tensor_to_action sampler c t approach ≡ ok a
      → (names_down keyboard_reverse_map "_no_key" t.keys ≡ ok a.keys)
        × (names_down mouse_names "_no_button" t.mouse_buttons ≡ ok a.mouse_buttons)
        × (mouse_delta sampler approach t.mouse_delta_x t.mouse_delta_y
            ≡ ok (a.mouse_delta_x, a.mouse_delta_y))
  unfolding tensor_to_action
  decoded_parts e = ground (arith, mouse_names_lem)

  -- On a tensor that the encoder can write, and by one of the three sampling approaches, decoding
  -- raises nothing.
  pub tensor_to_action_total :
      IsTensor c t → IsApproach approach → IsOk (tensor_to_action sampler c t approach)
  unfolding tensor_to_action
  tensor_to_action_total w known = ground (
    arith,
    mouse_names_lem,
    length-row w.keys,
    length-row w.mouse_buttons,
    names_down_total keyboard_encoding_map keyboard_reverse_map "_no_key"
        get_number_of_keyboard_choices keyboard-Coded t.keys (row-below choices-pos.0 w.keys),
    names_down_total mouse_key_action_mapping mouse_names "_no_button"
        get_number_of_mouse_button_choices mouse-Coded t.mouse_buttons
        (row-below choices-pos.1 w.mouse_buttons),
    mouse_delta_total sampler approach t.mouse_delta_x t.mouse_delta_y known w.mouse_delta_x
        w.mouse_delta_y,
  )

  -- For a tensor that the encoder can write, encoding what was decoded from it gives it back, whatever
  -- the sampling.
  pub action_to_tensor-tensor_to_action :
      (torch : Bucketize) {a : Action}
      → IsTensor c t
      → tensor_to_action sampler c t approach ≡ ok a
      → action_to_tensor c torch a.keys a.mouse_buttons a.mouse_delta_x a.mouse_delta_y ≡ t
  unfolding action_to_tensor
  action_to_tensor-tensor_to_action torch {a} w e =
      let (keys, mouse_buttons, moved) = decoded_parts e in
      let inside =
        mouse_delta-in_bin sampler approach t.mouse_delta_x t.mouse_delta_y moved w.mouse_delta_x
          w.mouse_delta_y in
      ground (
        arith,
        fit-names_down keyboard_encoding_map keyboard_reverse_map "_no_key"
            get_number_of_keyboard_choices keyboard-Coded c.max_keys choices-pos.0 w.keys keys,
        fit-names_down mouse_key_action_mapping mouse_names "_no_button"
            get_number_of_mouse_button_choices mouse-Coded c.max_mouse_keys choices-pos.1
            w.mouse_buttons mouse_buttons,
        bucketize_of_in_bin torch mouse_x_bin_edges edges-IsAscending.0 (a.mouse_delta_x *ℤ pos 10)
            t.mouse_delta_x (omega (arith, w.mouse_delta_x, lengths)) inside.0,
        bucketize_of_in_bin torch mouse_y_bin_edges edges-IsAscending.1 (a.mouse_delta_y *ℤ pos 10)
            t.mouse_delta_y (omega (arith, w.mouse_delta_y, lengths)) inside.1,
      )
