-- ===== src/Attention/Kinds.antt =====
-- The mask by the kinds of tokens: an independent description
-- (elefant/policy_model/policy_transformer.py).
use p2p_rdt.Common.{ℕ, ◌-◌, Bool, true, false, Option, none, some, ltb, leb, ◌==◌, if◌then◌else◌}

-- `input` is a token of the image, the text or the thinking.
pub data Kind : Type 0 where
  input action_out action : Kind

-- The kind of a token at an offset in its step, with `n` input tokens in a step.
abbrev pub kind : ℕ → ℕ → Kind
kind n offset = if ltb offset n then input else (if offset == n then action_out else action)

-- Of earlier steps a token sees everything but the action-out tokens.
abbrev pub sees_earlier : Kind → Bool
sees_earlier input = true
sees_earlier action_out = false
sees_earlier action = true

-- In its own step an input sees inputs, the action-out token sees these and itself, and an action sees
-- inputs and actions.
abbrev pub sees_same : Kind → Kind → Bool
sees_same input input = true
sees_same input action_out = false
sees_same input action = false
sees_same action_out input = true
sees_same action_out action_out = true
sees_same action_out action = false
sees_same action input = true
sees_same action action_out = false
sees_same action action = true

-- A token of step `s` sees one of step `t`.
abbrev pub sees : Kind → Kind → ℕ → ℕ → Bool
sees q kv s t = if ltb t s then sees_earlier kv else (if t == s then sees_same q kv else false)

abbrev pub within : Option ℕ → ℕ → ℕ → Bool
within none s t = true
within (some history) s t = leb (s - t) history
