-- ===== src/Annotation.antt =====
-- The parser that turns a chunk's annotations into training labels
-- (elefant/data/action_label_video_proto_dataset.py).
pub mod Parser
pub mod Rows
pub mod Labels
