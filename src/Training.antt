-- ===== src/Training.antt =====
-- The start of a training run (elefant/policy_model/stage3_finetune.py and
-- elefant/policy_model/config.py).
pub mod Gpus
pub mod Selected
pub mod Config
pub mod Agreement
pub mod Repeat
pub mod Resume
pub mod Compatible
pub mod Origin
pub mod Adapted
pub mod Initialized
