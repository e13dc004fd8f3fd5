-- ===== src/Attention.antt =====
-- The attention mask of the policy transformer and the positions of its tokens
-- (elefant/policy_model/policy_transformer.py).
pub mod Mask
pub mod Kinds
pub mod Visible
pub mod Causality
pub mod Outputs
