-- ===== src/Training/Initialized.antt =====
-- What a model takes from an origin checkpoint (elefant/policy_model/stage3_finetune.py).
use p2p_rdt.Common.{
  ℕ, suc, ◌+◌, ◌≤◌, ◌≡◌, ◌⊎◌, refl, Bool, true, false, String, List, [], ◌∷◌, some, arith, length,
  All, Bool-cases, Option-cases, inl, inr, str_eq, if◌then◌else◌,
}
use p2p_rdt.Common.Results.{Result, ok, raise, Error}
use p2p_rdt.Training.Origin.{
  Weight, Ops, AdaptMode, direct, repeat_img_tokens, State, have_same_shape, put_weight, load,
  filter_out, count_missing, count_remapped, take_tensor, take_tensors, start, offered,
  initialize_from_origin_checkpoint, should_skip_origin_init_key, remap_origin_init_key,
}
use p2p_rdt.Training.Resume.{get}
use p2p_rdt.Training.Adapted.{adapt_cases}

module _ {A : Type 0} where
  -- An entry for `load_state_dict` has the name and the shape of a tensor of the model.
  abbrev pub Fits : List (String × Weight A) → String × Weight A → Type 0
  Fits targets entry =
      (target : Weight A) × (get targets entry.0 ≡ some target) × (entry.1.shape ≡ target.shape)

  -- A tensor of the origin that is not skipped, and of another shape than the model's.
  abbrev pub Misfit : Bool → List (String × Weight A) → String × Weight A → Type 0
  Misfit token_concat targets entry =
      (should_skip_origin_init_key entry.0 ≡ false)
      × ((target : Weight A) × (get targets (remap_origin_init_key token_concat entry.0)
            ≡ some target)
          × (have_same_shape entry.1.shape target.shape ≡ false))

  abbrev pub AnyMisfit : Bool → List (String × Weight A) → List (String × Weight A) → Type 0
  AnyMisfit token_concat targets [] = ⊥
  AnyMisfit token_concat targets (entry ∷ rest) =
      Misfit token_concat targets entry ⊎ AnyMisfit token_concat targets rest

  -- The state after `n` tensors, with `k` renamed ones that are not yet counted as loaded or missing.
  abbrev pub IsState : List (String × Weight A) → ℕ → ℕ → State A → Type 0
  IsState targets n k s =
      All (Fits targets) s.loadable
      × (s.counts.loaded + s.counts.filtered + s.counts.missing ≡ n)
      × (s.counts.adapted ≤ s.counts.loaded)
      × (s.counts.remapped ≤ s.counts.loaded + s.counts.missing + k)

  put_weight-Fits :
      (targets d : List (String × Weight A)) (key : String) (value : Weight A)
      → All (Fits targets) d
      → Fits targets (key, value)
      → All (Fits targets) (put_weight d key value)
  unfolding put_weight
  put_weight-Fits targets [] key value h fits = (fits, tt)
  put_weight-Fits targets ((k, v) ∷ rest) key value h fits = elim (Bool-cases (str_eq k key)) [
    | inl same ↦ rw same (fits, h.1)
    | inr other ↦ rw other (h.0, put_weight-Fits targets rest key value h.1 fits)
  ]

module _ {A : Type 0} (ops : Ops A) where
  load-IsState :
      (targets : List (String × Weight A)) (n : ℕ) (s : State A) (key : String)
      (out : Weight A × AdaptMode)
      → IsState targets n 1 s
      → Fits targets (key, out.0)
      → IsState targets (suc n) 0 (load ops s key out)
  unfolding load
  load-IsState targets n s key (t, direct) h fits =
      (put_weight-Fits targets s.loadable key t h.0 fits, omega arith, omega arith, omega arith)
  load-IsState targets n s key (t, repeat_img_tokens factor) h fits =
      (put_weight-Fits targets s.loadable key t h.0 fits, omega arith, omega arith, omega arith)

  rename-IsState :
      (targets : List (String × Weight A)) (n : ℕ) (s : State A) (same : Bool)
      → IsState targets n 0 s
      → IsState targets n 1 (if same then s else count_remapped ops s)
  rename-IsState targets n s true h = (h.0, h.1, h.2, omega arith)
  rename-IsState targets n s false h = (h.0, h.1, h.2, omega arith)

  -- The state after `n` tensors, or an exception for which there is a reason.
  abbrev pub Taken : List (String × Weight A) → ℕ → Type 0 → Result (State A) → Type 0
  Taken targets n Reason r =
      ((s : State A) × (r ≡ ok s) × IsState targets n 0 s) ⊎ ((e : Error) × (r ≡ raise e) × Reason)

  take_tensor_cases :
      (token_concat : Bool) (targets : List (String × Weight A)) (n : ℕ) (s : State A)
      (key : String) (source : Weight A)
      → IsState targets n 0 s
      → Taken targets
          (suc n)
          (Misfit token_concat targets (key, source))
          (take_tensor ops token_concat targets s key source)
  unfolding take_tensor
  take_tensor_cases token_concat targets n s key source h =
      let target_key = remap_origin_init_key token_concat key in
      let s' = if str_eq target_key key then s else count_remapped ops s in
      let h' = rename-IsState targets n s (str_eq target_key key) h in
      elim (Bool-cases (should_skip_origin_init_key key)) [
        | inl skip ↦ inl (filter_out ops s, rw skip refl, (h.0, omega (arith, h), h.2, h.3))
        | inr use' ↦ elim (Option-cases (get targets target_key)) [
          | inl missing ↦ inl (
            count_missing ops s',
            rw (use', missing) refl,
            (h'.0, omega (arith, h'.1), h'.2, omega (arith, h'.3)),
          )
          | inr (target, found) ↦ elim (adapt_cases ops source target key target_key) [
            | inl (out, e, shape) ↦ inl (
              load ops s' target_key out,
              rw (use', found, e) refl,
              load-IsState targets n s' target_key out h' (target, found, shape),
            )
            | inr (e, raised, differ) ↦
                inr (e, rw (use', found, raised) refl, (use', (target, found, differ)))
          ]
        ]
      ]

  take_tensors_cases :
      (token_concat : Bool) (targets : List (String × Weight A)) (n : ℕ) (s : State A)
      (origin : List (String × Weight A))
      → IsState targets n 0 s
      → Taken targets
          (n + length origin)
          (AnyMisfit token_concat targets origin)
          (take_tensors ops token_concat targets s origin)
  unfolding take_tensors
  take_tensors_cases token_concat targets n s [] h =
      inl (s, refl, (h.0, omega (arith, h.1), h.2, h.3))
  take_tensors_cases token_concat targets n s ((key, source) ∷ rest) h =
      elim (take_tensor_cases token_concat targets n s key source h) [
        | inr (e, raised, why) ↦ inr (e, rw raised refl, inl why)
        | inl (s', taken, h') ↦ elim (take_tensors_cases token_concat targets (suc n) s' rest h') [
          | inr (e, raised, why) ↦ inr (e, rw (taken, raised) refl, inr why)
          | inl (last, e, (fits, sum, less, renamed)) ↦
              inl (last, rw (taken, e) refl, (fits, omega (arith, sum), less, renamed))
        ]
      ]

  -- The weights that are loaded into the model all have the name and the shape of one of the model's.
  -- Each tensor of the checkpoint is counted once, as loaded, filtered or missing; those adapted are
  -- among the loaded, and no more are remapped than are loaded or missing. Nothing is loaded if no weight is left.
  -- If it raises an exception instead, then
  -- a tensor of the checkpoint is not skipped and the model has one of its new name with another shape.
  pub initialize_cases :
      (token_concat : Bool) (targets origin : List (String × Weight A))
      → ((s : State A) × (initialize_from_origin_checkpoint ops token_concat targets origin
            ≡ ok (offered ops s))
          × All (Fits targets) s.loadable
          × (s.counts.loaded + s.counts.filtered + s.counts.missing ≡ length origin)
          × (s.counts.adapted ≤ s.counts.loaded)
          × (s.counts.remapped ≤ s.counts.loaded + s.counts.missing))
        ⊎ ((e : Error) × (initialize_from_origin_checkpoint ops token_concat targets origin
              ≡ raise e)
            × AnyMisfit token_concat targets origin)
  unfolding initialize_from_origin_checkpoint
  initialize_cases token_concat targets origin =
      let fresh : IsState targets 0 0 (start ops) = (tt, omega arith, omega arith, omega arith) in
      elim (take_tensors_cases token_concat targets 0 (start ops) origin fresh) [
        | inl (s, e, (fits, sum, less, renamed)) ↦
            inl (s, rw e refl, fits, omega (arith, sum), less, omega (arith, renamed))
        | inr (e, raised, why) ↦ inr (e, rw raised refl, why)
      ]
