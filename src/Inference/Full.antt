-- ===== src/Inference/Full.antt =====
-- `FullInferenceState` (elefant/policy_model/inference.py): the policy without a cache, which is
-- shown the last `T` frames, texts and actions, and fills in the newest action entry by entry.
use p2p_rdt.ActionMapping.Encode.{Tensor, Action}
use p2p_rdt.Common.{
  ℕ, zero, suc, ◌+◌, ◌-◌, ◌==◌, String, List, Option, none, some, get_elem?, set, length, replicate,
  ltb, if◌then◌else◌,
}
use p2p_rdt.Common.Results.{Result, ok, raise, ◌>>=◌, ◌>>◌, ensure, or_raise, index_error}
use p2p_rdt.Inference.Base.{Inference}
use p2p_rdt.Inference.Text.{Tokenizer, Torch, encode_text_tokens_for_inference}
use p2p_rdt.RobotTwin.Sequence.{roll}

-- The network, over all `T` rows, and what is used of the mapping of actions.
pub record Network (Frame Text : Type 0) : Type 0 where
  pub online_full_predict : List Frame → List Tensor → List Text → Result (List Tensor)
  pub get_number_of_keyboard_actions : ℕ
  pub get_number_of_mouse_button_actions : ℕ
  pub get_seq_len : ℕ
  pub empty_action : Tensor
  pub tensor_to_action : Tensor → Result Action

-- `T` is positive.
pub record State (Frame Text : Type 0) : Type 0 where
  pub T : ℕ
  pub frame_in : List Frame
  pub action_in : List Tensor
  pub text_tokens_embed : List Text
  pub n_prior_frames : ℕ

module _ {Frame Text : Type 0} (torch : Torch Text) (tokenizer : Option (Tokenizer Text))
    (text_embedding_dim : ℕ) (network : Network Frame Text) where
  -- `__init__`, with a blank frame and a text of zeros.
  unfoldable pub new : ℕ → Frame → Text → State Frame Text
  new T blank zeros = record {
    T = T;
    frame_in = replicate T blank;
    action_in = replicate T network.empty_action;
    text_tokens_embed = replicate T zeros;
    n_prior_frames = 0;
  }

  -- `reset`, whose body is empty.
  unfoldable pub reset : State Frame Text → State Frame Text
  reset s = s

  -- `x[-1] = row`
  abbrev pub set_last : {A : Type 0} → List A → A → List A
  set_last rows row = set rows (length rows - 1) row

  -- A frame before the history is full.
  unfoldable pub append_frame :
      State Frame Text → Frame → Option String → State Frame Text × Result (Unit {0})
  unfolding encode_text_tokens_for_inference
  append_frame s frame text =
      let seen = record s { frame_in = set s.frame_in s.n_prior_frames frame } in
      elim tokenizer [
        | none ↦ (record seen { n_prior_frames = s.n_prior_frames + 1 }, ok tt)
        | some model ↦ elim text [
          | none ↦ (record seen { n_prior_frames = s.n_prior_frames + 1 }, ok tt)
          | some words ↦
              elim (encode_text_tokens_for_inference torch (some model) (some words)
                text_embedding_dim) [
                  | raise e ↦ (seen, raise e)
                  | ok embed ↦ (
                    record seen {
                      text_tokens_embed = set s.text_tokens_embed s.n_prior_frames embed;
                      n_prior_frames = s.n_prior_frames + 1;
                    },
                    ok tt,
                  )
                ]
        ]
      ]

  -- A frame when the history is full: everything moves on by one.
  unfoldable pub roll_frame :
      State Frame Text → Frame → Option String → State Frame Text × Result (Unit {0})
  unfolding roll encode_text_tokens_for_inference
  roll_frame s frame text =
      let rolled = record s {
        frame_in = set_last (roll s.frame_in) frame;
        action_in = roll s.action_in;
        text_tokens_embed = roll s.text_tokens_embed;
      } in
      elim (encode_text_tokens_for_inference torch tokenizer text text_embedding_dim) [
        | raise e ↦ (rolled, raise e)
        | ok embed ↦
            (record rolled { text_tokens_embed = set_last (roll s.text_tokens_embed) embed }, ok tt)
      ]

  -- The frame and its text are taken in: the first half of `get_action`.
  unfoldable pub take_in :
      State Frame Text → Frame → Option String → State Frame Text × Result (Unit {0})
  unfolding append_frame roll_frame
  take_in s frame text =
      if ltb s.n_prior_frames s.T then append_frame s frame text else roll_frame s frame text

  -- `x[i] = y[i]` of two rows of numbers.
  unfoldable pub copy_entry : ℕ → List ℕ → List ℕ → Result (List ℕ)
  copy_entry i xs ys = do
    y ← or_raise (get_elem? ys i) index_error
    ensure (ltb i (length xs)) index_error
    ok (set xs i y)

  -- Entry `i` of the newest action is taken from the prediction: the body of the sampling loop.
  unfoldable pub copy_column : ℕ → Tensor → Tensor → Result Tensor
  unfolding copy_entry
  copy_column i row predicted =
      let keyboard = network.get_number_of_keyboard_actions in
      let buttons = network.get_number_of_mouse_button_actions in
      if ltb i keyboard
      then (do keys ← copy_entry i row.keys predicted.keys; ok (record row { keys = keys }))
      else if ltb i (keyboard + buttons)
      then (do
        mouse_buttons ← copy_entry (i - keyboard) row.mouse_buttons predicted.mouse_buttons
        ok (record row { mouse_buttons = mouse_buttons }))
      else if ltb i (keyboard + buttons + 1)
      then ok (record row { mouse_delta_x = predicted.mouse_delta_x })
      else (do
        ensure (i - keyboard - buttons - 1 == 0) index_error
        ok (record row { mouse_delta_y = predicted.mouse_delta_y }))

  -- One round of the sampling loop, which writes to the newest of the actions.
  unfoldable pub sample_entry : State Frame Text → ℕ → Result (List Tensor)
  unfolding copy_column
  sample_entry s i = do
    predicted ← network.online_full_predict s.frame_in s.action_in s.text_tokens_embed
    newest ← or_raise (get_elem? predicted (s.n_prior_frames - 1)) index_error
    row ← or_raise (get_elem? s.action_in (s.n_prior_frames - 1)) index_error
    filled ← copy_column i row newest
    ok (set s.action_in (s.n_prior_frames - 1) filled)

  -- The sampling loop, from entry `i` on for `rounds` rounds.
  unfoldable pub sample : ℕ → ℕ → State Frame Text → State Frame Text × Result (Unit {0})
  unfolding sample_entry
  sample zero i s = (s, ok tt)
  sample (suc rounds) i s = elim (sample_entry s i) [
    | raise e ↦ (s, raise e)
    | ok actions ↦ sample rounds (i + 1) (record s { action_in = actions })
  ]

  -- The newest action, as it is returned.
  unfoldable pub decode_newest : State Frame Text → Result Action
  decode_newest s = do
    row ← or_raise (get_elem? s.action_in (s.n_prior_frames - 1)) index_error
    network.tensor_to_action row

  -- The second half of `get_action`.
  unfoldable pub sample_action : State Frame Text → State Frame Text × Result Action
  unfolding sample decode_newest
  sample_action s =
      let (sampled, done) = sample network.get_seq_len 0 s in
      elim done [ raise e ↦ (sampled, raise e) | ok u ↦ (sampled, decode_newest sampled) ]

  -- The second half, if the first raised nothing.
  unfoldable pub then_sample :
      State Frame Text × Result (Unit {0}) → State Frame Text × Result Action
  unfolding sample_action
  then_sample (seen, raise e) = (seen, raise e)
  then_sample (seen, ok u) = sample_action seen

  unfoldable pub get_action :
      State Frame Text → Frame → Option String → State Frame Text × Result Action
  unfolding take_in then_sample
  get_action s frame text = then_sample (take_in s frame text)

  -- What the thread that handles requests uses.
  abbrev pub inference : Inference (State Frame Text) Frame Action
  inference = record { reset = reset; get_action = get_action }
