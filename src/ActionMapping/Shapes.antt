-- ===== src/ActionMapping/Shapes.antt =====
-- What `action_to_tensor` writes: rows of the configured length, ascending codes and bins in range.
use text.Mathlib.TextEquality.{eq_iff}
use mathlib.Core.List.{append-nil}
use p2p_rdt.ActionMapping.Encode.{Config, Bucketize, add_code, codes_down, fit, action_to_tensor}
use p2p_rdt.ActionMapping.Keymap.{
  keyboard_encoding_map, mouse_key_action_mapping, lookup, get_number_of_keyboard_choices,
  get_number_of_mouse_button_choices,
}
use p2p_rdt.ActionMapping.Motion.{lengths}
use p2p_rdt.ActionMapping.Mouse.{mouse_x_bin_edges, mouse_y_bin_edges}
use p2p_rdt.ActionMapping.Names.{IsRow}
use p2p_rdt.ActionMapping.RoundTrip.{IsTensor}
use p2p_rdt.Common.{
  ℕ, zero, suc, ◌-◌, ◌<◌, ◌≡◌, refl, inl, inr, Bool, true, false, ◌&&◌, String, List, [], ◌∷◌, ◌++◌,
  Option, none, some, arith, length, length-take, take, replicate, take_of_length-le, All, ◌==◌,
  ltb, str_eq, if◌then◌else◌, Bool-cases,
}
use p2p_rdt.Common.Ascending.{insert, From, insert-From}
use p2p_rdt.Common.Int.{ℤ, pos, ◌*ℤ◌}

-- Codes are below `n`, and only the name `nothing` has code 0.
entry_check : String → ℕ → String → Option ℕ → Bool
entry_check nothing n k none = true
entry_check nothing n k (some v) = ltb v n && (if v == 0 then str_eq k nothing else true)

entries_check : String → ℕ → List (String × Option ℕ) → Bool
unfolding entry_check
entries_check nothing n [] = true
entries_check nothing n ((k, o) ∷ d) = entry_check nothing n k o && entries_check nothing n d

keyboard_entries :
    entries_check "_no_key" get_number_of_keyboard_choices keyboard_encoding_map ≡ true
unfolding entries_check get_number_of_keyboard_choices
keyboard_entries = refl

mouse_entries :
    entries_check "_no_button" get_number_of_mouse_button_choices mouse_key_action_mapping ≡ true
unfolding entries_check get_number_of_mouse_button_choices
mouse_entries = refl

entry_of_lookup :
    (nothing : String) (n : ℕ) (d : List (String × Option ℕ)) (k : String) {o : Option ℕ}
    → entries_check nothing n d ≡ true
    → lookup k d ≡ some o
    → entry_check nothing n k o ≡ true
unfolding entries_check lookup
entry_of_lookup nothing n [] k h e = absurd (ground arith)
entry_of_lookup nothing n ((j, o') ∷ d) k {o} h e = elim (Bool-cases (str_eq j k)) [
  | inl same ↦ ground (arith, (eq_iff j k).0 same)
  | inr other ↦ ground (arith, entry_of_lookup nothing n d k {o = o})
]

All-insert : (n v : ℕ) (l : List ℕ) → v < n → All (λ w. w < n) l → All (λ w. w < n) (insert v l)
All-insert n v [] h a = (h, tt)
All-insert n v (b ∷ l) h a = ground (arith, All-insert n v l h a.1)

All-take : (n m : ℕ) (l : List ℕ) → All (λ w. w < n) l → All (λ w. w < n) (take m l)
All-take n zero l a = tt
All-take n (suc m) [] a = tt
All-take n (suc m) (x ∷ l) a = (a.0, All-take n m l a.1)

take-From : (lo m : ℕ) (l : List ℕ) → From lo l → From lo (take m l)
take-From lo zero l f = tt
take-From lo (suc m) [] f = tt
take-From lo (suc m) (x ∷ l) f = (f.0, take-From (suc x) m l f.1)

module _ (nothing : String) (n : ℕ) (d : List (String × Option ℕ))
    (checked : entries_check nothing n d ≡ true) where
  below_add :
      (k : String) (o : Option (Option ℕ)) (l : List ℕ)
      → lookup k d ≡ o
      → All (λ v. v < n) l
      → All (λ v. v < n) (add_code o l)
  unfolding add_code entry_check
  below_add k none l e a = a
  below_add k (some none) l e a = a
  below_add k (some (some v)) l e a =
      All-insert n v l (ground (arith, entry_of_lookup nothing n d k {o = some v} checked e)) a

  codes_below : (ks : List String) → All (λ v. v < n) (codes_down d ks)
  unfolding codes_down
  codes_below [] = tt
  codes_below (k ∷ ks) = below_add k (lookup k d) (codes_down d ks) refl (codes_below ks)

  pressed_add :
      (k : String) (o : Option (Option ℕ)) (l : List ℕ)
      → str_eq k nothing ≡ false
      → lookup k d ≡ o
      → From 1 l
      → From 1 (add_code o l)
  unfolding add_code entry_check
  pressed_add k none l h e f = f
  pressed_add k (some none) l h e f = f
  pressed_add k (some (some v)) l h e f =
      insert-From 1 v l (ground (arith, entry_of_lookup nothing n d k {o = some v} checked e)) f

  codes_pressed :
      (ks : List String) → All (λ k. str_eq k nothing ≡ false) ks → From 1 (codes_down d ks)
  unfolding codes_down
  codes_pressed [] h = tt
  codes_pressed (k ∷ ks) h =
      pressed_add k (lookup k d) (codes_down d ks) h.0 refl (codes_pressed ks h.1)

fit-padded :
    (m : ℕ) (codes : List ℕ) → fit m codes ≡ take m codes ++ replicate (m - length (take m codes)) 0
unfolding fit
fit-padded m codes = elim (Bool-cases (ltb m (length codes))) [
  | inl long ↦
      let none_left : m - length (take m codes) ≡ 0 = ground (arith, length-take m codes) in
      rw (long, none_left, append-nil)
  | inr short ↦
      let whole : take m codes ≡ codes = take_of_length-le m codes (ground arith) in
      rw (short, whole)
]

fit-IsRow :
    (n m : ℕ) (codes : List ℕ) → From 1 codes → All (λ v. v < n) codes → IsRow n m (fit m codes)
fit-IsRow n m codes f b = record {
  pressed = take m codes;
  ascending = take-From 1 m codes f;
  below = All-take n m codes b;
  within = omega (arith, length-take m codes);
  padded = fit-padded m codes;
}

-- For names other than those of "nothing pressed", the encoder writes rows of the configured length,
-- ascending codes below their bound and then zeros, and bins that exist.
pub action_to_tensor-IsTensor :
    (c : Config) (torch : Bucketize) (keys mouse_buttons : List String) (dx dy : ℤ)
    → All (λ k. str_eq k "_no_key" ≡ false) keys
    → All (λ b. str_eq b "_no_button" ≡ false) mouse_buttons
    → IsTensor c (action_to_tensor c torch keys mouse_buttons dx dy)
unfolding action_to_tensor
action_to_tensor-IsTensor c torch keys mouse_buttons dx dy hk hm = record {
  keys =
      fit-IsRow get_number_of_keyboard_choices c.max_keys (codes_down keyboard_encoding_map keys)
        (codes_pressed "_no_key" get_number_of_keyboard_choices keyboard_encoding_map
          keyboard_entries keys hk)
        (codes_below "_no_key" get_number_of_keyboard_choices keyboard_encoding_map keyboard_entries
          keys);
  mouse_buttons =
      fit-IsRow get_number_of_mouse_button_choices c.max_mouse_keys
        (codes_down mouse_key_action_mapping mouse_buttons)
        (codes_pressed "_no_button" get_number_of_mouse_button_choices mouse_key_action_mapping
          mouse_entries mouse_buttons hm)
        (codes_below "_no_button" get_number_of_mouse_button_choices mouse_key_action_mapping
          mouse_entries mouse_buttons);
  mouse_delta_x = omega (arith, lengths, torch.bucketize-le (dx *ℤ pos 10) mouse_x_bin_edges);
  mouse_delta_y = omega (arith, lengths, torch.bucketize-le (dy *ℤ pos 10) mouse_y_bin_edges);
}
