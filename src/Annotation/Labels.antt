-- ===== src/Annotation/Labels.antt =====
-- What `annotate_frames` gives for a chunk (elefant/data/action_label_video_proto_dataset.py).
use p2p_rdt.Common.{
  inl, inr, ℕ, ◌+◌, ◌-◌, ◌≤◌, ◌<◌, ◌≡◌, refl, sym, ap, ◌∙◌, Bool, true, false, ◌&&◌, not, List, [],
  ◌∷◌, ◌++◌, none, some, map, arith, length, slice, replicate, all, ltb, if◌then◌else◌, length-map,
  Bool-cases,
}
use p2p_rdt.Common.Results.{Result, ok, ◌>>=◌, >>=_ok}
use p2p_rdt.ActionMapping.Encode.{Tensor}
use p2p_rdt.Annotation.Parser.{
  Torch, Parser, FrameAnnotation, KnownAction, Labels, get_repeated_text_embedding, default_action,
  chosen, encoded, make_empty_action, annotate_frame, annotate_from, empty_labels, checked,
  annotate_frames,
}
use p2p_rdt.Annotation.Rows.{fill, fill-replicate, ge_mask_known}

module _ {D V : Type 0} where
  -- The user acts where no system action is known.
  abbrev pub by_user : FrameAnnotation D V → Bool
  by_user a = not a.system_action.is_known && a.user_action.is_known

  abbrev pub by_system : FrameAnnotation D V → Bool
  by_system a = a.system_action.is_known

  -- The system's action comes before the user's, and both before none.
  abbrev pub action_of : FrameAnnotation D V → KnownAction
  action_of a =
      if by_system a then a.system_action else (if by_user a then a.user_action else default_action)

  chosen_lem : (a : FrameAnnotation D V) → chosen a ≡ (by_user a, by_system a, action_of a)
  unfolding chosen
  chosen_lem a = elim (Bool-cases a.system_action.is_known) [
    | inl system ↦ rw system refl
    | inr no_system ↦ elim (Bool-cases a.user_action.is_known) [
      | inl user ↦ rw (no_system, user) refl
      | inr neither ↦ rw (no_system, neither) refl
    ]
  ]

module _ {D V E : Type 0} (torch : Torch D V E) (p : Parser D V) where
  -- The embeddings after all annotations.
  abbrev pub texts : List (FrameAnnotation D V) → ℕ → ℕ → List E → Result (List E)
  texts [] i n rows = ok rows
  texts (a ∷ anns) i n rows = do
    rows' ← get_repeated_text_embedding torch p a.frame_text_annotation rows i n
    texts anns (i + 1) n rows'

  -- The labels with the annotations written from row `i` on.
  abbrev written : List (FrameAnnotation D V) → ℕ → Labels E → List E → Labels E
  written anns i l rows = record {
    action_annotations = fill i (map (λ a. encoded p (action_of a)) anns) l.action_annotations;
    user_action_mask = fill i (map by_user anns) l.user_action_mask;
    system_action_mask = fill i (map by_system anns) l.system_action_mask;
    text_embeddings = rows;
  }

  annotate_frame_lem :
      (a : FrameAnnotation D V) (i n : ℕ) (l : Labels E) {rows : List E}
      → i < n
      → get_repeated_text_embedding torch p a.frame_text_annotation l.text_embeddings i n ≡ ok rows
      → annotate_frame torch p a i n l ≡ ok (written (a ∷ []) i l rows)
  unfolding annotate_frame
  annotate_frame_lem a i n l lt e =
      let inside : ltb i n ≡ true = ground arith in rw (e, inside, chosen_lem a) refl

  annotate_from_lem :
      (anns : List (FrameAnnotation D V)) (i n : ℕ) (l : Labels E) {rows : List E}
      → i + length anns ≤ n
      → texts anns i n l.text_embeddings ≡ ok rows
      → annotate_from torch p anns i n l ≡ ok (written anns i l rows)
  unfolding annotate_from
  annotate_from_lem [] i n l h e = cc
  annotate_from_lem (a ∷ anns) i n l h e =
      let (rows', first, rest) =
        >>=_ok (get_repeated_text_embedding torch p a.frame_text_annotation l.text_embeddings i n)
          (texts anns (i + 1) n) e in
      rw (annotate_frame_lem a i n l (omega arith) first)
        (annotate_from_lem anns (i + 1) n (written (a ∷ []) i l rows') (omega arith) rest)

  -- The labels of the annotations of a chunk of `n` frames.
  abbrev pub labels_of : List (FrameAnnotation D V) → ℕ → List E → Labels E
  labels_of anns n rows = record {
    action_annotations =
        map (λ a. encoded p (action_of a)) anns
        ++ make_empty_action p.action_mapping (n - length anns);
    user_action_mask = map by_user anns ++ replicate (n - length anns) false;
    system_action_mask = map by_system anns ++ replicate (n - length anns) false;
    text_embeddings = rows;
  }

  -- All `n` frames have an annotation, and the system acts in each.
  abbrev pub only_system : List (FrameAnnotation D V) → ℕ → Bool
  only_system anns n = all (λ b. b) (map by_system anns ++ replicate (n - length anns) false)

  -- The labels before the loop.
  abbrev blank : ℕ → List ℕ → Labels E
  blank n shape = record {
    action_annotations = make_empty_action p.action_mapping n;
    user_action_mask = replicate n false;
    system_action_mask = replicate n false;
    text_embeddings = replicate n (torch.zeros shape);
  }

  fill-map :
      {A : Type 0} (f : FrameAnnotation D V → A) (anns : List (FrameAnnotation D V)) (n : ℕ) (d : A)
      → length anns ≤ n
      → fill 0 (map f anns) (replicate n d) ≡ map f anns ++ replicate (n - length anns) d
  fill-map f anns n d h =
      fill-replicate (map f anns) n d (omega (arith, length-map anns f))
      ∙ ap (λ k. map f anns ++ replicate (n - k) d) (length-map anns f)

  written_lem :
      (anns : List (FrameAnnotation D V)) (n : ℕ) (shape : List ℕ) (rows : List E)
      → length anns ≤ n
      → written anns 0 (blank n shape) rows ≡ labels_of anns n rows
  unfolding make_empty_action
  written_lem anns n shape rows h =
      let empty : Tensor = record {
        keys = replicate p.action_mapping.max_keys 0;
        mouse_buttons = replicate p.action_mapping.max_mouse_keys 0;
        mouse_delta_x = 0;
        mouse_delta_y = 0;
      } in
      rw
        (
          fill-map (λ a. encoded p (action_of a)) anns n empty h,
          fill-map by_user anns n false h,
          fill-map by_system anns n false h,
        )
        refl

  checked_lem :
      (anns : List (FrameAnnotation D V)) (n v : ℕ) (rows : List E)
      → length anns ≤ v
      → v ≤ n
      → checked torch p (replicate v true ++ replicate (n - v) false) (labels_of anns n rows)
        ≡ ok (
            if p.drop_chunks_with_only_system_actions && only_system anns n
            then none
            else some (labels_of anns n rows))
  unfolding checked
  checked_lem anns n v rows h k =
      let (ge, e, t) =
        ge_mask_known (map by_user anns) (map by_system anns) v (n - v) (n - length anns)
          (length-map anns by_user ∙ sym (length-map anns by_system))
          (omega (arith, length-map anns by_user)) (omega (arith, length-map anns by_user)) in
      elim (Bool-cases (p.drop_chunks_with_only_system_actions && only_system anns n)) [
        | inl dropped ↦ rw dropped refl
        | inr kept ↦ rw (kept, e, t) refl
      ]

  -- For a parser that has annotations, with the shape of the embeddings configured, and a chunk of
  -- which the first `v` frames are valid, with at most `v` annotations, whose texts raise nothing:
  -- `annotate_frames` returns, and gives nothing exactly if chunks with only system actions are
  -- dropped and this is one. Else the row of each annotated frame encodes the
  -- system's action if known, else the user's if known, else the default one, the masks say which of
  -- the two it is, never both, and the rows after it are empty.
  pub annotate_frames_labels :
      {F : Type 0} (frames : List F) (start_frame end_frame v : ℕ)
      {annotations : List (FrameAnnotation D V)} {shape : List ℕ} {rows : List E}
      → p.frame_annotations ≡ some annotations
      → p.text_embedding_shape ≡ some shape
      → length (slice start_frame end_frame annotations) ≤ v
      → v ≤ length frames
      → texts
          (slice start_frame end_frame annotations)
          0
          (length frames)
          (replicate (length frames) (torch.zeros shape))
        ≡ ok rows
      → annotate_frames torch p frames start_frame end_frame
          (replicate v true ++ replicate (length frames - v) false)
        ≡ ok (
            if p.drop_chunks_with_only_system_actions
              && only_system (slice start_frame end_frame annotations) (length frames)
            then none
            else some (labels_of (slice start_frame end_frame annotations) (length frames) rows))
  unfolding annotate_frames empty_labels
  annotate_frames_labels frames start_frame end_frame v {annotations} {shape} {rows} known shaped
        few fits e =
      let anns = slice start_frame end_frame annotations in
      rw
        (
          known,
          shaped,
          annotate_from_lem anns 0 (length frames) (blank (length frames) shape) (omega arith) e,
        )
        (ap (checked torch p (replicate v true ++ replicate (length frames - v) false))
            (written_lem anns (length frames) shape rows (omega arith))
          ∙ checked_lem anns (length frames) v rows few fits)
