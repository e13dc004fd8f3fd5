-- ===== src/Inference.antt =====
-- The inference server on a screen (elefant/policy_model/inference.py).
pub mod Base
pub mod Requests
pub mod Replies
pub mod Stopping
pub mod Ending
pub mod Text
pub mod Cached
pub mod Full
pub mod History
pub mod Timing
pub mod Devices
