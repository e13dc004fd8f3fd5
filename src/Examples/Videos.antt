-- ===== src/Examples/Videos.antt =====
-- Runs of the preprocessing and of the annotation parser (elefant/data/video_proto_dataset.py,
-- elefant/data/action_label_video_proto_dataset.py).

use p2p_rdt.Annotation.Labels.{texts, only_system, labels_of, annotate_frames_labels}
use p2p_rdt.Annotation.Parser.{
  Torch, Parser, FrameAnnotation, KnownAction, TextAnnotation, annotate_frames,
  get_repeated_text_embedding,
}
use p2p_rdt.Common.{
  ℕ, ◌+◌, ◌<◌, ◌≡◌, ◌&&◌, refl, true, false, List, [], ◌∷◌, none, some, arith, replicate,
  if◌then◌else◌,
}
use p2p_rdt.Common.Int.{pos}
use p2p_rdt.Common.Results.{ok, raise, name_error}
use p2p_rdt.Examples.Instances.{first_edge_torch, last_start}
use p2p_rdt.VideoProto.Chunks.{Config, Video, start_frame0, preprocess_example, loads_original}
use p2p_rdt.VideoProto.Calls.{recorder}
use p2p_rdt.VideoProto.Coverage.{IsCovered, preprocess_example_covers}
use p2p_rdt.VideoProto.Resize.{preprocess_example-resize}

abbrev chunks_of_two : Config
chunks_of_two = record {
  T = 2;
  shuffle = true;
  frame_height = 4;
  frame_width = 4;
  load_video_name = some "video.mp4";
}

-- Six frames of the configured size.
abbrev six_frames : Video ℕ
six_frames = record {
  frames = 10 ∷ 11 ∷ 12 ∷ 13 ∷ 14 ∷ 15 ∷ [];
  channels = 3;
  height = 4;
  width = 4;
}

preprocess_example_covers_example :
    (start : ℕ) × (start_frame0 chunks_of_two last_start 6 ≡ ok start)
    × (start < 2)
    × IsCovered chunks_of_two six_frames
        (start + 1)
        (preprocess_example chunks_of_two last_start six_frames (λ n. ok recorder))
preprocess_example_covers_example =
    preprocess_example_covers chunks_of_two six_frames (refl, refl) last_start (omega arith)
      (omega arith)

abbrev large_frames : Video ℕ
large_frames = record { frames = 10 ∷ 11 ∷ 12 ∷ []; channels = 3; height = 8; width = 8 }

loads_original_lem : loads_original chunks_of_two ≡ true
unfolding loads_original
loads_original_lem = refl

preprocess_example-resize_example :
    preprocess_example chunks_of_two last_start large_frames (λ n. ok recorder)
    ≡ some ([], raise name_error)
preprocess_example-resize_example =
    preprocess_example-resize chunks_of_two large_frames recorder refl refl loads_original_lem
      last_start (omega arith) (omega arith)

abbrev forward_key : KnownAction
forward_key = record {
  is_known = true;
  keys = "w" ∷ [];
  mouse_buttons = [];
  mouse_delta_x = pos 0;
  mouse_delta_y = pos 0;
}

abbrev unknown : KnownAction
unknown = record {
  is_known = false;
  keys = [];
  mouse_buttons = [];
  mouse_delta_x = pos 0;
  mouse_delta_y = pos 0;
}

abbrev one_text : TextAnnotation ℕ ℕ
one_text = record {
  version = "model";
  duration = 1;
  text_embedding_dict = λ version tokenizer. record { values = 9; shape = 1 ∷ 1 ∷ [] };
}

abbrev two_annotations : List (FrameAnnotation ℕ ℕ)
two_annotations =
    record {
      frame_text_annotation = one_text ∷ [];
      user_action = forward_key;
      system_action = unknown;
    }
    ∷ record { frame_text_annotation = []; user_action = forward_key; system_action = forward_key }
    ∷ []

abbrev texts_of_numbers : Torch ℕ ℕ ℕ
texts_of_numbers = record {
  positive = λ d. true;
  frames_at_20 = λ d. 20;
  reshape = λ shape v. ok v;
  zeros = λ shape. 0;
}

abbrev parser : Parser ℕ ℕ
parser = record {
  action_mapping = record { max_keys = 2; max_mouse_keys = 1 };
  bucketize = first_edge_torch;
  drop_chunks_with_only_system_actions = true;
  text_annotation_model_version = "model" ∷ [];
  text_tokenizer_name = some "gemma";
  text_embedding_shape = some (1 ∷ 1 ∷ []);
  frame_annotations = some two_annotations;
}

texts_lem : texts texts_of_numbers parser two_annotations 0 3 (replicate 3 0) ≡ ok (9 ∷ 9 ∷ 9 ∷ [])
unfolding get_repeated_text_embedding
texts_lem = refl

annotate_frames_labels_example :
    annotate_frames texts_of_numbers parser {F = ℕ} (7 ∷ 8 ∷ 9 ∷ []) 0 2 (true ∷ true ∷ false ∷ [])
    ≡ ok (
        if true && only_system texts_of_numbers parser two_annotations 3
        then none
        else some (labels_of texts_of_numbers parser two_annotations 3 (9 ∷ 9 ∷ 9 ∷ [])))
annotate_frames_labels_example =
    annotate_frames_labels texts_of_numbers parser {F = ℕ} (7 ∷ 8 ∷ 9 ∷ []) 0 2 2 refl refl
      (omega arith) (omega arith) texts_lem
