-- ===== src/ActionMapping/Keymap.antt =====
-- The key names and their codes, and the reverse maps that `_setup_reverse_map` builds from them
-- (elefant/data/action_mapping.py).
use Prim.Native.String.{count}
use mathlib.Core.List.{foldl}
use p2p_rdt.Common.{
  ℕ, ◌+◌, map, ◌++◌, String, List, [], ◌∷◌, Option, none, some, max, ◌==◌, ltb, str_eq,
  if◌then◌else◌,
}
use p2p_rdt.Common.Results.{Result, ok, raise, value_error, ◌>>=◌}

-- The keys that are used, with their codes.
used_keys : List (String × Option ℕ)
used_keys =
    ("_no_key", some 0)
    ∷ ("Space", some 1)
    ∷ ("1", some 2)
    ∷ ("2", some 3)
    ∷ ("3", some 4)
    ∷ ("4", some 5)
    ∷ ("a", some 6)
    ∷ ("d", some 7)
    ∷ ("e", some 8)
    ∷ ("f", some 9)
    ∷ ("q", some 10)
    ∷ ("w", some 11)
    ∷ ("s", some 12)
    ∷ ("z", some 13)
    ∷ ("DownArrow", some 14)
    ∷ ("UpArrow", some 15)
    ∷ ("LeftArrow", some 16)
    ∷ ("RightArrow", some 17)
    ∷ ("LeftShift", some 18)
    ∷ ("RightShift", some 19)
    ∷ []

-- The keys that are known and ignored.
unused_names : List String
unused_names =
    "F1" ∷ "F2" ∷ "F3" ∷ "F4" ∷ "F5" ∷ "F6" ∷ "F7" ∷ "F8" ∷ "F9" ∷ "F10" ∷ "F11" ∷ "F12" ∷ "F20"
    ∷ "PrintScreen" ∷ "Pause" ∷ "Equal" ∷ "Semicolon" ∷ "LeftBracket" ∷ "RightBracket" ∷ "LeftWin"
    ∷ "End" ∷ "Subtract" ∷ "Menu" ∷ "Period" ∷ "Comma" ∷ "LeftAlt" ∷ "RightAlt" ∷ "LeftControl"
    ∷ "RightControl" ∷ "Delete" ∷ "Add" ∷ "Decimal" ∷ "Minus" ∷ "PageDown" ∷ "PageUp" ∷ "Home"
    ∷ "CapsLock" ∷ "Backslash" ∷ "Multiply" ∷ "GraveAccent" ∷ "RightWin" ∷ "ScrollLock" ∷ "NumLock"
    ∷ "Apostrophe" ∷ "Insert" ∷ "Divide" ∷ "Escape" ∷ "Tab" ∷ "Enter" ∷ "BackQuote" ∷ "Slash"
    ∷ "Backspace" ∷ "VolumeMute" ∷ "VolumeDown" ∷ "VolumeUp" ∷ "0" ∷ "5" ∷ "6" ∷ "7" ∷ "8" ∷ "9"
    ∷ "b" ∷ "c" ∷ "g" ∷ "h" ∷ "i" ∷ "j" ∷ "k" ∷ "l" ∷ "m" ∷ "n" ∷ "o" ∷ "p" ∷ "r" ∷ "t" ∷ "u" ∷ "v"
    ∷ "x" ∷ "y" ∷ []

abbrev ignore : String → String × Option ℕ
ignore k = (k, none)

-- `UniversalAutogressiveKeyboardEncodingMap`, in its order.
unfoldable pub keyboard_encoding_map : List (String × Option ℕ)
unfolding used_keys unused_names
keyboard_encoding_map = map ignore unused_names ++ used_keys

-- `MouseKeyActionMapping`.
unfoldable pub mouse_key_action_mapping : List (String × Option ℕ)
mouse_key_action_mapping =
    ("_no_button", some 0) ∷ ("0", some 1) ∷ ("1", some 2) ∷ ("2", some 3) ∷ []

-- `d[k]`, or `none` if `k` is not in `d`.
unfoldable pub lookup {ℓ} : {V : Type ℓ} → String → List (String × V) → Option V
lookup k [] = none
lookup k ((j, v) ∷ d) = if str_eq j k then some v else lookup k d

-- A dictionary from codes to names: `d.get(v)` and `d[v] = k`.
unfoldable pub name_of : ℕ → List (ℕ × String) → Option String
name_of v [] = none
name_of v ((w, k) ∷ d) = if w == v then some k else name_of v d

set_name : ℕ → String → List (ℕ × String) → List (ℕ × String)
set_name v k [] = (v, k) ∷ []
set_name v k ((w, j) ∷ d) = if w == v then (v, k) ∷ d else (w, j) ∷ set_name v k d

-- One round of the keyboard loop: a shorter name replaces a longer one of the same code.
shorter : Option String → ℕ → String → List (ℕ × String) → List (ℕ × String)
unfolding set_name
shorter none v k d = set_name v k d
shorter (some j) v k d = if ltb (count k) (count j) then set_name v k d else d

keyboard_round : List (ℕ × String) → String × Option ℕ → List (ℕ × String)
unfolding shorter name_of
keyboard_round d (k, none) = d
keyboard_round d (k, some v) = shorter (name_of v d) v k d

unfoldable pub keyboard_reverse_map : List (ℕ × String)
unfolding keyboard_round keyboard_encoding_map
keyboard_reverse_map = foldl keyboard_round [] keyboard_encoding_map

-- The mouse loop raises on a duplicate code.
mouse_add : Option String → ℕ → String → List (ℕ × String) → Result (List (ℕ × String))
unfolding set_name
mouse_add none v k d = ok (set_name v k d)
mouse_add (some j) v k d = raise value_error

mouse_reverse : List (String × Option ℕ) → List (ℕ × String) → Result (List (ℕ × String))
unfolding mouse_add name_of
mouse_reverse [] d = ok d
mouse_reverse ((k, none) ∷ rest) d = mouse_reverse rest d
mouse_reverse ((k, some v) ∷ rest) d = do d' ← mouse_add (name_of v d) v k d; mouse_reverse rest d'

unfoldable pub mouse_button_reverse_map : Result (List (ℕ × String))
unfolding mouse_reverse mouse_key_action_mapping
mouse_button_reverse_map = mouse_reverse mouse_key_action_mapping []

-- `max(v for v in d.values() if v is not None) + 1`
max_code : List (String × Option ℕ) → ℕ
max_code [] = 0
max_code ((k, none) ∷ d) = max_code d
max_code ((k, some v) ∷ d) = max v (max_code d)

unfoldable pub get_number_of_keyboard_choices : ℕ
unfolding max_code keyboard_encoding_map
get_number_of_keyboard_choices = max_code keyboard_encoding_map + 1

unfoldable pub get_number_of_mouse_button_choices : ℕ
unfolding max_code mouse_key_action_mapping
get_number_of_mouse_button_choices = max_code mouse_key_action_mapping + 1
