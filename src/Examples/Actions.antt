-- ===== src/Examples/Actions.antt =====
-- Runs of the action mapping (elefant/data/action_mapping.py).
use p2p_rdt.ActionMapping.Encode.{Config, Tensor, Action, action_to_tensor}
use p2p_rdt.ActionMapping.Decode.{tensor_to_action, names_down, mouse_delta, sample_bin}
use p2p_rdt.ActionMapping.Mouse.{
  get_n_mouse_x_bins, get_n_mouse_y_bins, round, obtain_lower_upper_bound,
}
use p2p_rdt.ActionMapping.RoundTrip.{
  IsTensor, tensor_to_action_total, action_to_tensor-tensor_to_action,
}
use p2p_rdt.ActionMapping.Shapes.{action_to_tensor-IsTensor}
use p2p_rdt.ActionMapping.Keymap.{
  get_number_of_keyboard_choices, get_number_of_mouse_button_choices, keyboard_reverse_map,
  mouse_button_reverse_map,
}
use p2p_rdt.Common.{◌≡◌, refl, inl, [], ◌∷◌, arith}
use p2p_rdt.Common.Int.{pos, negsuc, ◌+ℤ◌, ◌-ℤ◌, ◌*ℤ◌}
use p2p_rdt.Common.Results.{ok, IsOk}
use p2p_rdt.Examples.Instances.{first_edge_torch, lowest}

abbrev four_keys : Config
four_keys = record { max_keys = 4; max_mouse_keys = 2 }

abbrev pressed : Tensor
pressed = record {
  keys = 6 ∷ 11 ∷ 0 ∷ 0 ∷ [];
  mouse_buttons = 1 ∷ 0 ∷ [];
  mouse_delta_x = 3;
  mouse_delta_y = 9;
}

pressed_lem : IsTensor four_keys pressed
unfolding get_number_of_keyboard_choices get_number_of_mouse_button_choices get_n_mouse_x_bins
    get_n_mouse_y_bins
pressed_lem = record {
  keys = record {
    pressed = 6 ∷ 11 ∷ [];
    ascending = omega arith;
    below = omega arith;
    within = omega arith;
    padded = refl;
  };
  mouse_buttons = record {
    pressed = 1 ∷ [];
    ascending = omega arith;
    below = omega arith;
    within = omega arith;
    padded = refl;
  };
  mouse_delta_x = omega arith;
  mouse_delta_y = omega arith;
}

abbrev held : Action
held = record {
  keys = "a" ∷ "w" ∷ [];
  mouse_buttons = "0" ∷ [];
  mouse_delta_x = negsuc 75;
  mouse_delta_y = pos 1;
}

decoded : tensor_to_action lowest four_keys pressed "truncated_normal" ≡ ok held
unfolding tensor_to_action names_down mouse_delta sample_bin get_n_mouse_x_bins get_n_mouse_y_bins
    keyboard_reverse_map mouse_button_reverse_map obtain_lower_upper_bound round ◌+ℤ◌ ◌-ℤ◌ ◌*ℤ◌
decoded = refl

action_to_tensor-tensor_to_action_example :
    action_to_tensor four_keys first_edge_torch held.keys held.mouse_buttons held.mouse_delta_x
      held.mouse_delta_y
    ≡ pressed
action_to_tensor-tensor_to_action_example =
    action_to_tensor-tensor_to_action four_keys lowest "truncated_normal" pressed first_edge_torch
      pressed_lem decoded

action_to_tensor-IsTensor_example :
    IsTensor four_keys
      (action_to_tensor four_keys first_edge_torch ("w" ∷ "a" ∷ []) ("0" ∷ []) (pos 3) (negsuc 6))
action_to_tensor-IsTensor_example =
    action_to_tensor-IsTensor four_keys first_edge_torch ("w" ∷ "a" ∷ []) ("0" ∷ []) (pos 3)
      (negsuc 6) (refl, (refl, tt)) (refl, tt)

tensor_to_action_total_example : IsOk (tensor_to_action lowest four_keys pressed "mean")
tensor_to_action_total_example =
    tensor_to_action_total four_keys lowest "mean" pressed pressed_lem (inl refl)
