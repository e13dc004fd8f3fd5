-- ===== src/VideoProto.antt =====
-- The preprocessing of one video into training chunks (elefant/data/video_proto_dataset.py).
pub mod Chunks
pub mod Calls
pub mod Coverage
pub mod Resize
