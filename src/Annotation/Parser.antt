-- ===== src/Annotation/Parser.antt =====
-- `ActionLabelAnnotationParser` (elefant/data/action_label_video_proto_dataset.py). The tensors of
-- embeddings, the operations of torch on them, and the floats of durations are parameters.
use p2p_rdt.Common.{
  ℕ, ◌+◌, ◌-◌, Bool, true, false, ◌&&◌, ◌||◌, not, String, List, [], ◌∷◌, ◌++◌, Option, none, some,
  length, set, get_or, take, drop, slice, replicate, all, ltb, leb, ◌==◌, str_eq, if◌then◌else◌,
}
use p2p_rdt.Common.Int.{ℤ, pos}
use p2p_rdt.Common.Results.{
  Result, ok, raise, ◌>>=◌, ◌>>◌, ensure, assertion_error, index_error, runtime_error, type_error,
  value_error,
}
use p2p_rdt.ActionMapping.Encode as Encode
use p2p_rdt.ActionMapping.Encode.{
  Tensor, StructuredAction, Bucketize, action_to_tensor, get_number_of_keyboard_actions,
  get_number_of_mouse_button_actions,
}

-- A text embedding of the proto: its values and its shape.
pub record Embedding (V : Type 0) : Type 0 where
  pub values : V
  pub shape : List ℕ

-- A text annotation of a frame: the version of its annotator, its duration, and the embeddings by
-- version and tokenizer.
pub record TextAnnotation (D V : Type 0) : Type 0 where
  pub version : String
  pub duration : D
  pub text_embedding_dict : String → String → Embedding V

-- `user_action` or `system_action`.
pub record KnownAction : Type 0 where
  pub is_known : Bool
  pub keys : List String
  pub mouse_buttons : List String
  pub mouse_delta_x : ℤ
  pub mouse_delta_y : ℤ

pub record FrameAnnotation (D V : Type 0) : Type 0 where
  pub frame_text_annotation : List (TextAnnotation D V)
  pub user_action : KnownAction
  pub system_action : KnownAction

-- What the parser uses of torch and of floats: `duration > 0`, `int(duration * 20)`, the reshaped
-- embedding in the rows it is written to, and the row of zeros of a shape.
pub record Torch (D V E : Type 0) : Type 0 where
  pub positive : D → Bool
  pub frames_at_20 : D → ℕ
  pub reshape : List ℕ → V → Result E
  pub zeros : List ℕ → E

-- The fields of the parser. `None` is `none`.
pub record Parser (D V : Type 0) : Type 0 where
  pub action_mapping : Encode.Config
  pub bucketize : Bucketize
  pub drop_chunks_with_only_system_actions : Bool
  pub text_annotation_model_version : List String
  pub text_tokenizer_name : Option String
  pub text_embedding_shape : Option (List ℕ)
  pub frame_annotations : Option (List (FrameAnnotation D V))

-- The constructor's test of the number of annotations; -1 frames are `none`.
unfoldable pub check_n_frames : {A : Type 0} → Option (List A) → Bool → Option ℕ → Result (Unit {0})
check_n_frames none always_labelled n_frames = ok tt
check_n_frames (some annotations) always_labelled none = ok tt
check_n_frames (some annotations) always_labelled (some n) =
    if not (length annotations == n) && always_labelled then raise value_error else ok tt

-- `version in versions`
unfoldable pub is_in : String → List String → Bool
is_in v [] = false
is_in v (w ∷ ws) = str_eq v w || is_in v ws

-- A write of `num` equal rows from `idx` on.
unfoldable pub impute : {E : Type 0} → ℕ → ℕ → E → List E → List E
impute idx num e rows = take idx rows ++ replicate num e ++ drop (idx + num) rows

-- The first annotation of a wanted version decides.
unfoldable pub wanted :
    {D V : Type 0} → List String → List (TextAnnotation D V) → Option (TextAnnotation D V)
unfolding is_in
wanted versions [] = none
wanted versions (t ∷ ts) = if is_in t.version versions then some t else wanted versions ts

module _ {D V E : Type 0} (torch : Torch D V E) where
  -- The body of the loop for the first annotation of a wanted version.
  unfoldable pub repeat_embedding : String → TextAnnotation D V → List E → ℕ → ℕ → Result (List E)
  unfolding impute
  repeat_embedding tokenizer t rows idx n_frames =
      let embedding = t.text_embedding_dict t.version tokenizer in
      elim embedding.shape [
        | [] ↦ ok rows
        | d ∷ ds ↦ (do
          e ← torch.reshape (d ∷ ds) embedding.values
          ensure (torch.positive t.duration) assertion_error
          let last_frames = torch.frames_at_20 t.duration
          let num = if ltb n_frames (idx + last_frames) then n_frames - idx else last_frames
          ensure (leb idx n_frames) runtime_error
          ok (impute idx num e rows))
      ]

  unfoldable pub get_repeated_text_embedding :
      Parser D V → List (TextAnnotation D V) → List E → ℕ → ℕ → Result (List E)
  unfolding repeat_embedding wanted
  get_repeated_text_embedding p ts rows idx n_frames = elim p.text_tokenizer_name [
    | none ↦ ok rows
    | some tokenizer ↦ elim (wanted p.text_annotation_model_version ts) [
      | none ↦ ok rows
      | some t ↦ repeat_embedding tokenizer t rows idx n_frames
    ]
  ]

-- The item that a chunk becomes, less the frames and the environment.
pub record Labels (E : Type 0) : Type 0 where
  pub action_annotations : List Tensor
  pub user_action_mask : List Bool
  pub system_action_mask : List Bool
  pub text_embeddings : List E

-- The default action, when none is known.
unfoldable pub default_action : KnownAction
default_action = record {
  is_known = false;
  keys = [];
  mouse_buttons = [];
  mouse_delta_x = pos 0;
  mouse_delta_y = pos 0;
}

-- `make_empty_action`, by rows.
unfoldable pub make_empty_action : Encode.Config → ℕ → List Tensor
unfolding get_number_of_keyboard_actions get_number_of_mouse_button_actions
make_empty_action c T = replicate T (record {
  keys = replicate (get_number_of_keyboard_actions c) 0;
  mouse_buttons = replicate (get_number_of_mouse_button_actions c) 0;
  mouse_delta_x = 0;
  mouse_delta_y = 0;
})

module _ {D V : Type 0} where
  -- The bit for the user, the bit for the system, and the action that is taken.
  unfoldable pub chosen : FrameAnnotation D V → Bool × Bool × KnownAction
  unfolding default_action
  chosen a =
      if a.system_action.is_known
      then (false, true, a.system_action)
      else (if a.user_action.is_known
          then (true, false, a.user_action)
          else (false, false, default_action))

  unfoldable pub encoded : Parser D V → KnownAction → Tensor
  unfolding action_to_tensor
  encoded p k =
      action_to_tensor p.action_mapping p.bucketize k.keys k.mouse_buttons k.mouse_delta_x
        k.mouse_delta_y

-- `valid >= known` of two masks, with the shapes that torch broadcasts.
unfoldable pub zip_ge : List Bool → List Bool → List Bool
zip_ge [] known = []
zip_ge (v ∷ valid) [] = []
zip_ge (v ∷ valid) (k ∷ known) = (v || not k) ∷ zip_ge valid known

unfoldable pub ge_mask : List Bool → List Bool → Result (List Bool)
unfolding zip_ge
ge_mask valid known =
    if length valid == length known
    then ok (zip_ge valid known)
    else (if length valid == 1
        then ok (zip_ge (replicate (length known) (get_or valid 0 false)) known)
        else (if length known == 1
            then ok (zip_ge valid (replicate (length valid) (get_or known 0 false)))
            else raise runtime_error))

-- `user | system`
unfoldable pub or_mask : List Bool → List Bool → List Bool
or_mask [] ss = []
or_mask (u ∷ us) [] = []
or_mask (u ∷ us) (s ∷ ss) = (u || s) ∷ or_mask us ss

module _ {D V E : Type 0} (torch : Torch D V E) (p : Parser D V) where
  -- One round of the loop over the annotations of the chunk.
  unfoldable pub annotate_frame : FrameAnnotation D V → ℕ → ℕ → Labels E → Result (Labels E)
  unfolding get_repeated_text_embedding chosen encoded
  annotate_frame a i n_frames l = do
    text_embeddings ←
        get_repeated_text_embedding torch p a.frame_text_annotation l.text_embeddings i n_frames
    ensure (ltb i n_frames) index_error
    let (user, system, action) = chosen a
    ok (record {
      action_annotations = set l.action_annotations i (encoded p action);
      user_action_mask = set l.user_action_mask i user;
      system_action_mask = set l.system_action_mask i system;
      text_embeddings = text_embeddings;
    })

  unfoldable pub annotate_from : List (FrameAnnotation D V) → ℕ → ℕ → Labels E → Result (Labels E)
  unfolding annotate_frame
  annotate_from [] i n_frames l = ok l
  annotate_from (a ∷ as') i n_frames l = do
    l' ← annotate_frame a i n_frames l
    annotate_from as' (i + 1) n_frames l'

  -- The labels before the loop. With `text_embedding_shape` of None, `torch.zeros(n_frames, *None)`
  -- raises a TypeError.
  unfoldable pub empty_labels : ℕ → Result (Labels E)
  unfolding make_empty_action
  empty_labels n_frames = elim p.text_embedding_shape [
    | none ↦ raise type_error
    | some shape ↦ ok (record {
      action_annotations = make_empty_action p.action_mapping n_frames;
      user_action_mask = replicate n_frames false;
      system_action_mask = replicate n_frames false;
      text_embeddings = replicate n_frames (torch.zeros shape);
    })
  ]

  -- What follows the loop.
  unfoldable pub checked : List Bool → Labels E → Result (Option (Labels E))
  unfolding ge_mask or_mask
  checked valid_frame_mask l =
      if p.drop_chunks_with_only_system_actions && all (λ b. b) l.system_action_mask
      then ok none
      else (do
        ge ← ge_mask valid_frame_mask (or_mask l.user_action_mask l.system_action_mask)
        ensure (all (λ b. b) ge) assertion_error
        ok (some l))

  unfoldable pub annotate_frames :
      {F : Type 0} → List F → ℕ → ℕ → List Bool → Result (Option (Labels E))
  unfolding annotate_from empty_labels checked
  annotate_frames frames start_frame end_frame valid_frame_mask = elim p.frame_annotations [
    | none ↦ ok none
    | some annotations ↦ (do
      l ← empty_labels (length frames)
      l' ← annotate_from (slice start_frame end_frame annotations) 0 (length frames) l
      checked valid_frame_mask l')
  ]
