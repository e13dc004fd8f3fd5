-- ===== src/Attention/Visible.antt =====
-- What the mask lets a token see (elefant/policy_model/policy_transformer.py).
use native.Mathlib.Nat.{
  add-mul-div_right, add-mul-mod_self_right, mod-eq_of_lt, div-eq_of_lt, zero-add,
}
use p2p_rdt.Attention.Kinds.{kind, sees, within}
use p2p_rdt.Attention.Mask.{
  Layout, one_step_len, token_to_action_out, full_mask, history_mask, mask,
}
use p2p_rdt.Common.{
  ◌⊎◌, ℕ, ◌+◌, ◌-◌, ◌*◌, ◌/◌, ◌%◌, ◌≤◌, ◌<◌, ◌≡◌, refl, ◌∙◌, true, false, ◌&&◌, Option, none, some,
  arith, ltb, leb,
}

pub place_mod : (L s o : ℕ) → o < L → (o + s * L) % L ≡ o
place_mod L s o h = add-mul-mod_self_right o s L ∙ mod-eq_of_lt h

pub place_div : (L s o : ℕ) → o < L → (o + s * L) / L ≡ s
place_div L s o h = add-mul-div_right o s (omega arith) ∙ rw (div-eq_of_lt h) (zero-add s)

module _ (l : Layout) (s o t p : ℕ) (ho : o < one_step_len l) (hp : p < one_step_len l) where
  full_mask_lem :
      full_mask l (o + s * one_step_len l) (p + t * one_step_len l)
      ≡ sees (kind (token_to_action_out l) o) (kind (token_to_action_out l) p) s t
  unfolding full_mask
  full_mask_lem =
      rw
        (
          place_mod (one_step_len l) s o ho,
          place_mod (one_step_len l) t p hp,
          place_div (one_step_len l) s o ho,
          place_div (one_step_len l) t p hp,
        )
        (ground arith)

  history_mask_lem :
      history_mask l (o + s * one_step_len l) (p + t * one_step_len l) ≡ within l.history_len s t
  unfolding history_mask
  history_mask_lem =
      history_case l.history_len
      ∙ rw (place_div (one_step_len l) s o ho, place_div (one_step_len l) t p hp) refl
    where
      history_case :
          (h : Option ℕ)
          → elim h [
            | none ↦ true
            | some n ↦
                leb
                  ((o + s * one_step_len l) / one_step_len l
                    - (p + t * one_step_len l) / one_step_len l)
                  n
          ]
            ≡ within h
                ((o + s * one_step_len l) / one_step_len l)
                ((p + t * one_step_len l) / one_step_len l)
      history_case none = refl
      history_case (some n) = refl

  -- For offsets inside a step: the token at offset `o` of step `s` sees the one at offset `p` of step
  -- `t`, behind the sinks, exactly as their kinds say, within the history.
  pub mask_lem :
      mask l (o + s * one_step_len l) (l.n_kv_sink_tokens + (p + t * one_step_len l))
      ≡ sees (kind (token_to_action_out l) o) (kind (token_to_action_out l) p) s t
        && within l.history_len s t
  unfolding mask
  mask_lem =
      let place = p + t * one_step_len l in
      let back : l.n_kv_sink_tokens + place - l.n_kv_sink_tokens ≡ place = omega arith in
      let no_sink : ltb (l.n_kv_sink_tokens + place) l.n_kv_sink_tokens ≡ false = ground arith in
      rw (back, no_sink, full_mask_lem, history_mask_lem) refl

  -- For offsets inside a step, and behind the sinks: no token up to the action-out token sees an
  -- action of its own step or a later one, and no token sees anything of a later step.
  pub mask_hidden :
      ((o ≤ token_to_action_out l) × (token_to_action_out l < p) × (s ≤ t)) ⊎ (s < t)
      → mask l (o + s * one_step_len l) (l.n_kv_sink_tokens + (p + t * one_step_len l)) ≡ false
  mask_hidden h = mask_lem ∙ ground arith
