-- ===== src/RobotTwin.antt =====
-- The evaluation of the policy on a robot with two arms (elefant/evaluation/robotwin).
pub mod Floats
pub mod Pose
pub mod Adapter
pub mod Sequence
pub mod Step
pub mod Lengths
pub mod Smoothing
pub mod Channels
pub mod Rebasing
pub mod Stabilizing
pub mod Rolling
pub mod Steady
pub mod Histories
pub mod Observing
pub mod WarmStart
pub mod Acting
pub mod Episode
pub mod Compact
pub mod Memory
pub mod Serve
pub mod Sanitized
