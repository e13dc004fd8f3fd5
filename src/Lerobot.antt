-- ===== src/Lerobot.antt =====
-- The LeRobot dataset (elefant/data/lerobot_latent_dataset.py): the index over several datasets,
-- the channels of actions, samples of a fixed length, and the alignment of actions with frames.
pub mod Index
pub mod Channels
pub mod Scatter
pub mod Meta
pub mod Usable
pub mod Sample
pub mod Rebase
pub mod Rebased
pub mod Windows
pub mod Fixed
pub mod Alignment
pub mod Groups
