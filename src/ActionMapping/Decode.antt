-- ===== src/ActionMapping/Decode.antt =====
-- `tensor_to_action` (elefant/data/action_mapping.py). The draw of `torch.nn.init.trunc_normal_` is a
-- parameter, with its documented range.
use Prim.Native.Nat.{Ordering}
use Prim.Native.String.{compare as compare_str}
use p2p_rdt.ActionMapping.Encode.{Config, Tensor, Action}
use p2p_rdt.ActionMapping.Keymap.{keyboard_reverse_map, mouse_button_reverse_map, name_of}
use p2p_rdt.ActionMapping.Mouse.{
  mouse_x_bin_edges, mouse_x_bin_centers, mouse_x_bin_conservative_centers, mouse_y_bin_edges,
  mouse_y_bin_centers, mouse_y_bin_conservative_centers, mouse_x_std, mouse_y_std,
  get_n_mouse_x_bins, get_n_mouse_y_bins, obtain_lower_upper_bound, round,
}
use p2p_rdt.Common.{
  ℕ, ◌-◌, ◌*◌, ◌<◌, String, List, [], ◌∷◌, get_elem?, length, ◌==◌, str_eq, if◌then◌else◌,
}
use p2p_rdt.Common.Int.{ℤ, pos, ◌+ℤ◌, ◌-ℤ◌, ◌*ℤ◌, ◌≤ℤ◌, leb_ℤ}
use p2p_rdt.Common.Results.{
  Result, ok, raise, assertion_error, key_error, index_error, value_error, ◌>>=◌, ◌>>◌, ensure,
  or_raise,
}

-- A draw from a normal distribution with mean 0 and deviation `std`, cut to an interval. Numbers
-- are in units of 1 / (10 * scale) pixels; with `scale` a large enough power of two every edge and
-- every 32-bit float in the interval is such a number.
pub record TruncNormal : Type 0 where
  pub scale : ℕ
  pub scale-pos : 0 < scale
  pub draw : (std : ℕ) → ℤ → ℤ → ℤ
  pub draw-ge : (std : ℕ) (a b : ℤ) → a ≤ℤ b → a ≤ℤ draw std a b
  pub draw-le : (std : ℕ) (a b : ℤ) → a ≤ℤ b → draw std a b ≤ℤ b

-- `s.add` on a set of names whose one use is `sorted(list(s))`.
unfoldable pub insert_name : String → List String → List String
insert_name k [] = k ∷ []
insert_name k (j ∷ names) = elim (compare_str k j) [
  | Ordering.lt ↦ k ∷ j ∷ names
  | Ordering.eq ↦ j ∷ names
  | Ordering.gt ↦ j ∷ insert_name k names
]

-- The loop over codes: the names, without the one for "nothing pressed".
unfoldable pub names_down : List (ℕ × String) → String → List ℕ → Result (List String)
unfolding insert_name
names_down d nothing [] = ok []
names_down d nothing (v ∷ codes) = do
  k ← or_raise (name_of v d) key_error
  names ← names_down d nothing codes
  ok (if str_eq k nothing then names else insert_name k names)

module _ (torch : TruncNormal) where
  -- The inner bins of "truncated_normal": a draw between the bounds, or the one number left.
  unfoldable pub between : ℕ → ℤ × ℤ → ℤ
  between std (lb, ub) =
      if leb_ℤ ub lb
      then lb *ℤ pos torch.scale
      else torch.draw std (lb *ℤ pos torch.scale) (ub *ℤ pos torch.scale)

  -- "truncated_normal" for one axis, given the deviation, the edges, the number of bins and the bin.
  unfoldable pub sample_bin : ℕ → List ℤ → ℕ → ℕ → Result ℤ
  unfolding between
  sample_bin std edges n_bins bin =
      if bin == 0
      then (do
        first ← or_raise (get_elem? edges 0) index_error
        ok ((first -ℤ pos 10) *ℤ pos torch.scale))
      else (if bin == n_bins - 1
          then (do
            last ← or_raise (get_elem? edges (length edges - 1)) index_error
            ok ((last +ℤ pos 10) *ℤ pos torch.scale))
          else (do
            lb ← or_raise (get_elem? edges (bin - 1)) index_error
            ub ← or_raise (get_elem? edges bin) index_error
            ok (between std (obtain_lower_upper_bound lb ub))))

  -- The motion for the two bins, by the sampling approach.
  unfoldable pub mouse_delta : String → ℕ → ℕ → Result (ℤ × ℤ)
  mouse_delta approach x y =
      if str_eq approach "mean"
      then (do
        dx ← or_raise (get_elem? mouse_x_bin_centers x) index_error
        dy ← or_raise (get_elem? mouse_y_bin_centers y) index_error
        ok (dx, dy))
      else (if str_eq approach "conservative"
          then (do
            dx ← or_raise (get_elem? mouse_x_bin_conservative_centers x) index_error
            dy ← or_raise (get_elem? mouse_y_bin_conservative_centers y) index_error
            ok (dx, dy))
          else (if str_eq approach "truncated_normal"
              then (do
                dx ← sample_bin mouse_x_std mouse_x_bin_edges get_n_mouse_x_bins x
                dy ← sample_bin mouse_y_std mouse_y_bin_edges get_n_mouse_y_bins y
                ok (round (10 * torch.scale) dx, round (10 * torch.scale) dy))
              else raise value_error))

  unfoldable pub tensor_to_action : Config → Tensor → String → Result Action
  tensor_to_action c t approach = do
    ensure (length t.keys == c.max_keys) assertion_error
    keys ← names_down keyboard_reverse_map "_no_key" t.keys
    ensure (length t.mouse_buttons == c.max_mouse_keys) assertion_error
    buttons_map ← mouse_button_reverse_map
    mouse_buttons ← names_down buttons_map "_no_button" t.mouse_buttons
    (dx, dy) ← mouse_delta approach t.mouse_delta_x t.mouse_delta_y
    ok (record {
      keys = keys;
      mouse_buttons = mouse_buttons;
      mouse_delta_x = dx;
      mouse_delta_y = dy;
    })
