-- ===== src/Inference/History.antt =====
-- What the policy without a cache is shown (elefant/policy_model/inference.py).
use mathlib.Core.List.{append_assoc, append-nil}
use mathlib.Core.Path.{subst}
use p2p_rdt.Common.{
  ℕ, zero, suc, ◌+◌, ◌-◌, ◌≤◌, ◌<◌, ◌≡◌, refl, sym, String, List, [], ◌∷◌, ◌++◌, Option, none, some,
  arith, min, length, take, ltb, ltb→lt, set, Bool-cases, inl, inr, length-replicate,
}
use p2p_rdt.Common.Results.{ok, Result-cases}
use p2p_rdt.Inference.Full.{
  Network, State, new, reset, append_frame, roll_frame, take_in, sample_entry, sample,
  sample_action, then_sample, get_action,
}
use p2p_rdt.Inference.Text.{Tokenizer, Torch, encode_text_tokens_for_inference}
use p2p_rdt.RobotTwin.Rolling.{latest, Window, set-roll, Window-append, Window-roll}
use p2p_rdt.RobotTwin.Sequence.{roll}

-- The history shows the latest of the frames that were seen.
abbrev pub Shown : {Frame Text : Type 0} → State Frame Text → List Frame → Type 0
Shown s seen = (0 < s.T) × Window s.T s.n_prior_frames s.frame_in seen

module _ {Frame Text : Type 0} (torch : Torch Text) (dim : ℕ) (network : Network Frame Text) where
  -- The embeddings of the tokenizer have the dimensions that the code asserts.
  abbrev pub Encodes : Option (Tokenizer Text) → Type 0
  Encodes tokenizer =
      (text : Option String)
      → (embed : Text) × (encode_text_tokens_for_inference torch tokenizer text dim ≡ ok embed)

  append_frame-Shown :
      (tokenizer : Option (Tokenizer Text)) (s : State Frame Text) (seen : List Frame)
      (frame : Frame) (text : Option String)
      → Encodes tokenizer
      → Shown s seen
      → s.n_prior_frames < s.T
      → (t : State Frame Text) × (append_frame torch tokenizer dim network s frame text
          ≡ (t, ok tt))
        × Shown t (seen ++ (frame ∷ []))
  unfolding append_frame
  append_frame-Shown none s seen frame text good h lt =
      (_, refl, (h.0, Window-append s.T s.n_prior_frames s.frame_in seen frame lt h.1))
  append_frame-Shown (some model) s seen frame none good h lt =
      (_, refl, (h.0, Window-append s.T s.n_prior_frames s.frame_in seen frame lt h.1))
  append_frame-Shown (some model) s seen frame (some words) good h lt =
      let (embed, e) = good (some words) in
      (
        record s {
          frame_in = set s.frame_in s.n_prior_frames frame;
          text_tokens_embed = set s.text_tokens_embed s.n_prior_frames embed;
          n_prior_frames = s.n_prior_frames + 1;
        },
        rw (append_frame, e) refl,
        (h.0, Window-append s.T s.n_prior_frames s.frame_in seen frame lt h.1),
      )

  roll_frame-Shown :
      (tokenizer : Option (Tokenizer Text)) (s : State Frame Text) (seen : List Frame)
      (frame : Frame) (text : Option String)
      → Encodes tokenizer
      → Shown s seen
      → s.T ≤ s.n_prior_frames
      → (t : State Frame Text) × (roll_frame torch tokenizer dim network s frame text ≡ (t, ok tt))
        × Shown t (seen ++ (frame ∷ []))
  unfolding roll_frame
  roll_frame-Shown tokenizer s seen frame text good h le =
      let (embed, e) = good text in
      let last = set-roll s.frame_in frame (omega (arith, h.0, h.1.0)) in
      (
        record s {
          frame_in = set (roll s.frame_in) (length (roll s.frame_in) - 1) frame;
          action_in = roll s.action_in;
          text_tokens_embed =
              set (roll s.text_tokens_embed) (length (roll s.text_tokens_embed) - 1) embed;
        },
        rw (roll_frame, e) refl,
        (h.0, rw last (Window-roll s.T s.n_prior_frames s.frame_in seen frame h.0 le h.1)),
      )

module _ {Frame Text : Type 0} (torch : Torch Text) (tokenizer : Option (Tokenizer Text)) (dim : ℕ)
    (network : Network Frame Text) where
  sample-keeps :
      (rounds i : ℕ) (s : State Frame Text) (seen : List Frame)
      → Shown s seen
      → Shown (sample torch tokenizer dim network rounds i s).0 seen
  unfolding sample
  sample-keeps zero i s seen h = h
  sample-keeps (suc rounds) i s seen h =
      elim (Result-cases (sample_entry torch tokenizer dim network s i)) [
        | inr (e, z) ↦ rw (sample, z) h
        | inl (actions, z) ↦
            rw (sample, z) (sample-keeps rounds (i + 1) (record s { action_in = actions }) seen h)
      ]

  sample_action-keeps :
      (s : State Frame Text) (seen : List Frame)
      → Shown s seen
      → Shown (sample_action torch tokenizer dim network s).0 seen
  unfolding sample_action
  sample_action-keeps s seen h =
      let kept = sample-keeps network.get_seq_len 0 s seen h in
      elim (Result-cases (sample torch tokenizer dim network network.get_seq_len 0 s).1) [
        | inr (e, z) ↦ rw (sample_action, z) kept
        | inl (u, z) ↦ rw (sample_action, z) kept
      ]

  take_in-Shown :
      (s : State Frame Text) (seen : List Frame) (frame : Frame) (text : Option String)
      → Encodes torch dim network tokenizer
      → Shown s seen
      → (t : State Frame Text) × (take_in torch tokenizer dim network s frame text ≡ (t, ok tt))
        × Shown t (seen ++ (frame ∷ []))
  unfolding take_in
  take_in-Shown s seen frame text good h = elim (Bool-cases (ltb s.n_prior_frames s.T)) [
    | inl room ↦
        let (t, e, shown) =
          append_frame-Shown torch dim network tokenizer s seen frame text good h
            (ltb→lt s.n_prior_frames s.T room) in
        (t, rw (take_in, room) e, shown)
    | inr full ↦
        let (t, e, shown) =
          roll_frame-Shown torch dim network tokenizer s seen frame text good h (ground arith) in
        (t, rw (take_in, full) e, shown)
  ]

  get_action-Shown :
      (s : State Frame Text) (seen : List Frame) (frame : Frame) (text : Option String)
      → Encodes torch dim network tokenizer
      → Shown s seen
      → Shown (get_action torch tokenizer dim network s frame text).0 (seen ++ (frame ∷ []))
  unfolding get_action then_sample
  get_action-Shown s seen frame text good h =
      let (t, e, shown) = take_in-Shown s seen frame text good h in
      subst
        (λ taken. Shown (then_sample torch tokenizer dim network taken).0 (seen ++ (frame ∷ [])))
        (sym e) (sample_action-keeps t (seen ++ (frame ∷ [])) shown)

  -- The state after a sequence of frames and texts, whatever each call returns or raises.
  abbrev pub run : State Frame Text → List (Frame × Option String) → State Frame Text
  run s [] = s
  run s ((frame, text) ∷ inputs) =
      run (get_action torch tokenizer dim network s frame text).0 inputs

  abbrev pub frames : List (Frame × Option String) → List Frame
  frames [] = []
  frames ((frame, text) ∷ inputs) = frame ∷ frames inputs

  run-Shown :
      (inputs : List (Frame × Option String)) (s : State Frame Text) (seen : List Frame)
      → Encodes torch dim network tokenizer
      → Shown s seen
      → Shown (run s inputs) (seen ++ frames inputs)
  run-Shown [] s seen good h = rw (append-nil seen) h
  run-Shown ((frame, text) ∷ inputs) s seen good h =
      rw (← append_assoc seen (frame ∷ []) (frames inputs)) (
        run-Shown inputs (get_action torch tokenizer dim network s frame text).0
          (seen ++ (frame ∷ [])) good (get_action-Shown s seen frame text good h))

  new-Shown :
      (T : ℕ) (blank : Frame) (zeros : Text)
      → 0 < T
      → Shown (new torch tokenizer dim network T blank zeros) []
  unfolding new
  new-Shown T blank zeros pos =
      let nothing : 0 - T ≡ 0 = omega arith in
      (pos, (length-replicate T blank, omega arith, rw nothing refl))

  -- For a positive `T` and a tokenizer whose embeddings have four dimensions: after any calls, whether they return or raise, the history
  -- of a new state shows the latest `T` frames, in order. A reset does not clear it: after a
  -- warm-up, a reset and further frames it shows the latest `T` of the frames of both.
  pub run-reset-run :
      (T : ℕ) (blank : Frame) (zeros : Text) (warmup inputs : List (Frame × Option String))
      → Encodes torch dim network tokenizer
      → 0 < T
      → let s =
          run
            (reset torch tokenizer dim network
              (run (new torch tokenizer dim network T blank zeros) warmup))
            inputs in
        (s.n_prior_frames ≡ min (length (frames warmup ++ frames inputs)) s.T)
        × (take s.n_prior_frames s.frame_in ≡ latest s.T (frames warmup ++ frames inputs))
  unfolding reset
  run-reset-run T blank zeros warmup inputs good pos =
      let shown = run-Shown inputs _ (frames warmup) good (
        run-Shown warmup (new torch tokenizer dim network T blank zeros) [] good
          (new-Shown T blank zeros pos)) in
      (shown.1.1, shown.1.2)
