-- ===== src/ActionMapping.antt =====
-- The mapping between game inputs and the numbers that the policy predicts
-- (elefant/data/action_mapping.py).
pub mod Keymap
pub mod Mouse
pub mod Encode
pub mod Decode
pub mod Bins
pub mod Motion
pub mod Names
pub mod RoundTrip
pub mod Shapes
