-- ===== src/Attention/Causality.antt =====
-- On which tokens an output depends through all layers of the transformer
-- (elefant/policy_model/policy_transformer.py).
use p2p_rdt.Attention.Mask.{Sizes, one_step_len, token_to_action_out, mask, layer_layout}
use p2p_rdt.Attention.Visible.{mask_hidden}
use p2p_rdt.Common.{
  ℕ, ◌+◌, ◌*◌, ◌≤◌, ◌<◌, ◌≡◌, ◌⊎◌, refl, sym, ◌∙◌, true, false, List, [], ◌∷◌, arith, ltb, leb,
  ◌==◌, Bool-cases, inl, inr,
}

module _ (z : Sizes) where
  -- The lengths that all layers share, which differ in their history only.
  abbrev pub step_len : ℕ
  step_len = one_step_len (layer_layout z 0)

  abbrev pub out_offset : ℕ
  out_offset = token_to_action_out (layer_layout z 0)

  -- A layer with a history of `allowed` frames looks from the token at offset `o` of step `s` at the one at offset
  -- `p` of step `t`, behind the sinks.
  abbrev pub Looks : ℕ → ℕ → ℕ → ℕ → ℕ → Type 0
  Looks allowed s o t p =
      mask (layer_layout z allowed) (o + s * step_len) (z.n_kv_sink_tokens + (p + t * step_len))
      ≡ true

  -- What layers compute at the token at offset `o` of step `s` depends on the input at offset `r` of
  -- step `u`: each layer, the last one first, keeps the token or looks at another.
  pub data Depends : List ℕ → ℕ → ℕ → ℕ → ℕ → Type 0 where
    itself : {s o : ℕ} → Depends [] s o s o
    stay :
        {allowed s o u r : ℕ} {layers : List ℕ}
        → Depends layers s o u r
        → Depends (allowed ∷ layers) s o u r
    look :
        {allowed s o u r : ℕ} {layers : List ℕ} (t p : ℕ)
        → p < step_len
        → Looks allowed s o t p
        → Depends layers t p u r
        → Depends (allowed ∷ layers) s o u r

  -- Earlier than step `s`, or of it and not an action.
  abbrev pub IsKnown : ℕ → ℕ → ℕ → Type 0
  IsKnown s t p = (t < s) ⊎ ((t ≡ s) × (p ≤ out_offset))

  IsKnown-cases : (s t p : ℕ) → IsKnown s t p ⊎ ((s < t) ⊎ ((t ≡ s) × (out_offset < p)))
  IsKnown-cases s t p = elim (Bool-cases (ltb t s)) [
    | inl before ↦ inl (inl (ground arith))
    | inr not_before ↦ elim (Bool-cases (t == s)) [
      | inr later ↦ inr (inl (ground arith))
      | inl same ↦ elim (Bool-cases (leb p out_offset)) [
        | inl low ↦ inl (inr (ground arith))
        | inr high ↦ inr (inr (ground arith))
      ]
    ]
  ]

  Looks-IsKnown :
      (allowed s t o t' p : ℕ)
      → o < step_len
      → p < step_len
      → IsKnown s t o
      → Looks allowed t o t' p
      → IsKnown s t' p
  unfolding layer_layout one_step_len token_to_action_out
  Looks-IsKnown allowed s t o t' p ho hp known sees = elim (IsKnown-cases s t' p) [
    | inl fine ↦ fine
    | inr unknown ↦
        let l = layer_layout z allowed in
        let hidden : ((o ≤ token_to_action_out l) × (token_to_action_out l < p) × (t ≤ t'))
            ⊎ (t < t') =
          ground (arith, known, unknown) in
        absurd (true_false (sym sees ∙ mask_hidden l t o t' p ho hp hidden))
  ]
    where
      true_false : true ≡ false → ⊥
      true_false e = cc

  Depends-IsKnown :
      (s t o u r : ℕ) (layers : List ℕ)
      → o < step_len
      → IsKnown s t o
      → Depends layers t o u r
      → IsKnown s u r
  Depends-IsKnown s t o u r layers ho known itself = known
  Depends-IsKnown s t o u r (allowed ∷ layers) ho known (stay rest) =
      Depends-IsKnown s t o u r layers ho known rest
  Depends-IsKnown s t o u r (allowed ∷ layers) ho known (look t' p hp sees rest) =
      Depends-IsKnown s t' p u r layers hp (Looks-IsKnown allowed s t o t' p ho hp known sees) rest

  -- Through any layers with the transformer's masks, whatever their histories: the tokens on which the action-out token
  -- of a step depends are those of earlier steps, and of its own step those up to itself, so no
  -- action of its own step or a later one.
  pub action_out_lem :
      (s u r : ℕ) (layers : List ℕ)
      → Depends layers s out_offset u r
      → (u < s) ⊎ ((u ≡ s) × (r ≤ out_offset))
  unfolding layer_layout one_step_len token_to_action_out
  action_out_lem s u r layers depends =
      Depends-IsKnown s s out_offset u r layers (omega arith) (inr (refl, omega arith)) depends
