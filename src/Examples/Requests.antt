-- ===== src/Examples/Requests.antt =====
-- Runs of the inference server (elefant/policy_model/inference.py).
use p2p_rdt.Common.{
  ℕ, ◌+◌, ◌*◌, ◌≡◌, refl, true, false, String, List, [], ◌∷◌, ◌++◌, Option, none, some, arith,
}
use p2p_rdt.ActionMapping.Encode.{Tensor}
use p2p_rdt.Common.Results.{ok, raise, value_error, assertion_error}
use p2p_rdt.Inference.Devices.{Unwanted, setup_device_cases}
use p2p_rdt.Inference.Timing.{setup_device}
use p2p_rdt.RobotTwin.Rolling.{latest}
use p2p_rdt.Inference.Text.{encode_text_tokens_for_inference}
use p2p_rdt.Common.{min, str_eq, get_elem?, length, ◌⊎◌, ◌≢◌, replicate, take as take_rows}
use p2p_rdt.Inference.Full as Full
use p2p_rdt.Inference.History as History
use p2p_rdt.Inference.History.{run-reset-run}
use p2p_rdt.Inference.Base.{Inference}
use p2p_rdt.Inference.Replies.{Sub, answered_in_order, answered_newest}
use p2p_rdt.Inference.Requests.{
  Item, looping, stopped, holding, State, start, answer, put, enter, take, drop_older, act, Steps,
  rest, more,
}
use p2p_rdt.Inference.Stopping.{OwnSteps}
use p2p_rdt.Inference.Ending.{Ended, stop_lem}
use p2p_rdt.Inference.Text.{Torch}

-- A policy that counts its frames.
abbrev counter : Inference ℕ ℕ ℕ
counter = record { reset = λ s. 0; get_action = λ s frame text. (s + 1, ok (s + frame)) }

abbrev item : ℕ → Item ℕ
item n = record { frame = 10 * n; id = n; start_time = 0 }

-- Two frames are put, both are taken, and the newer one is in hand.
abbrev with_two : State ℕ ℕ ℕ
with_two = record {
  running = true;
  queue = some (item 1) ∷ some (item 2) ∷ [];
  place = looping;
  inference_state = 0;
  shared_text = none;
  out = [];
  sent = some (item 1) ∷ some (item 2) ∷ [];
}

abbrev in_hand : State ℕ ℕ ℕ
in_hand = record with_two { queue = []; place = holding (item 2) }

abbrev answered : State ℕ ℕ ℕ
answered = record in_hand {
  place = looping;
  inference_state = 1;
  out = some (record { id = 2; start_time = 0; action = 20 }) ∷ [];
}

in_hand_lem : Steps counter (start counter 7 none) in_hand
unfolding start
in_hand_lem =
    more
      (more
        (more (more (more rest (put (some (item 1)) refl)) (put (some (item 2)) refl))
          (enter refl refl refl))
        (take (item 1) (some (item 2) ∷ []) refl refl refl))
      (drop_older (item 1) (item 2) [] refl refl refl)

answered_lem : Steps counter (start counter 7 none) answered
unfolding answer
answered_lem = more in_hand_lem (act (item 2) refl refl refl)

answered_in_order_example : Sub (2 ∷ []) (1 ∷ 2 ∷ [])
answered_in_order_example = answered_in_order counter 7 none answered answered_lem

answered_newest_example : (before : List ℕ) × (1 ∷ 2 ∷ [] ≡ before ++ (2 ∷ [])) × Sub [] before
answered_newest_example = answered_newest counter 7 none in_hand (item 2) in_hand_lem refl refl

abbrev stopping : State ℕ ℕ ℕ
stopping = record with_two { queue = some (item 1) ∷ some (item 2) ∷ none ∷ [] }

stop_lem_example :
    ((t : State ℕ ℕ ℕ) × OwnSteps counter stopping t × (t.place ≡ stopped))
    × ((t : State ℕ ℕ ℕ)
        → OwnSteps counter stopping t
        → t.place ≡ stopped
        → Ended counter [] stopping t)
stop_lem_example = stop_lem counter [] stopping (item 1 ∷ item 2 ∷ [], refl) refl

abbrev torch : Torch ℕ
torch = record { shape = λ t. 1 ∷ 1 ∷ 1 ∷ 1 ∷ []; squeeze = λ t. t; zeros = λ m n. 0 }

abbrev two_frames : List (ℕ × Option String)
two_frames = (5, none) ∷ (6, none) ∷ (7, none) ∷ []

abbrev empty_row : Tensor
empty_row = record { keys = 0 ∷ []; mouse_buttons = 0 ∷ []; mouse_delta_x = 0; mouse_delta_y = 0 }

-- A network that always presses the key with code 4.
abbrev player : Full.Network ℕ ℕ
player = record {
  online_full_predict =
      λ frames actions texts. ok (replicate 2 (record empty_row { keys = 4 ∷ [] }));
  get_number_of_keyboard_actions = 1;
  get_number_of_mouse_button_actions = 1;
  get_seq_len = 4;
  empty_action = empty_row;
  tensor_to_action = λ row. raise value_error;
}

encodes_lem : History.Encodes torch 1 player none
unfolding encode_text_tokens_for_inference
encodes_lem text = (0, refl)

run-reset-run_example :
    let s =
      History.run torch none 1 player
        (Full.reset torch none 1 player
          (History.run torch none 1 player (Full.new torch none 1 player 2 0 0) two_frames))
        ((8, none) ∷ []) in
    (s.n_prior_frames ≡ min 4 s.T)
    × (take_rows s.n_prior_frames s.frame_in ≡ latest s.T (5 ∷ 6 ∷ 7 ∷ 8 ∷ []))
run-reset-run_example =
    run-reset-run torch none 1 player 2 0 0 two_frames ((8, none) ∷ []) encodes_lem (omega arith)

abbrev devices : List String
devices = "RTX 4090" ∷ "RTX 5090" ∷ []

setup_device_cases_example :
    (setup_device (str_eq "RTX 5090") false devices ≡ raise assertion_error)
    × (((k : ℕ) × (name : String) × (setup_device (str_eq "RTX 5090") true devices ≡ ok k)
          × (get_elem? devices k ≡ some name)
          × (str_eq "RTX 5090" name ≡ true)
          × Unwanted (str_eq "RTX 5090") (take_rows k devices))
        ⊎ (Unwanted (str_eq "RTX 5090") devices
            × (((length devices ≡ 1) × (setup_device (str_eq "RTX 5090") true devices ≡ ok 0))
                ⊎ ((length devices ≢ 1)
                    × (setup_device (str_eq "RTX 5090") true devices ≡ raise value_error)))))
setup_device_cases_example = setup_device_cases (str_eq "RTX 5090") devices
