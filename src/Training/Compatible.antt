-- ===== src/Training/Compatible.antt =====
-- Which checkpoints a run resumes (elefant/policy_model/stage3_finetune.py).
use p2p_rdt.Common.{
  ℕ, ◌+◌, ◌≡◌, ◌==◌, refl, Bool, true, false, not, List, [], ◌∷◌, Option, none, some, get_elem?,
  arith, inl, inr, ◌↔◌, sym, ap, Option-cases,
}
use p2p_rdt.Common.Results.{Result, ok, raise, ◌>>◌, Error, ensure, value_error}
use p2p_rdt.Training.Resume.{
  StateDict, Expected, get, any_legacy, is_given, check_dim, check_optional, check_required,
  bool_eq, check_state_dict, validate_resume_checkpoint_compatibility,
}

abbrev pub HasDim : List ℕ → ℕ → Type 0
HasDim shape n = get_elem? shape 1 ≡ some n

abbrev pub OptionalDim : Option (List ℕ) → ℕ → Type 0
OptionalDim none n = Unit
OptionalDim (some shape) n = HasDim shape n

abbrev pub RequiredDim : Option (List ℕ) → ℕ → Type 0
RequiredDim none n = ⊥
RequiredDim (some shape) n = HasDim shape n

-- A checkpoint without weights, or of the current head with the dimensions of the configuration.
abbrev pub Compatible : StateDict → Expected → Type 0
Compatible [] e = Unit
Compatible (entry ∷ rest) e =
    let sd : StateDict = entry ∷ rest in
    (any_legacy sd ≡ false)
    × ((get sd "rdt_action_queries" ≡ none)
        × (OptionalDim (get sd "bc_transformer.action_pos_tokens") 1
            × (OptionalDim (get sd "rdt_policy_head.x_pos_emb")
                  (e.n_seq_timesteps + e.num_register_tokens)
                × (RequiredDim (get sd "rdt_policy_head.act_pos_emb") e.n_seq_timesteps
                    × (OptionalDim (get sd "rdt_policy_head.action_embedder.weight") e.n_actions
                        × (is_given (get sd "rdt_policy_head.img_pos_emb")
                            ≡ e.use_image_condition))))))

abbrev Passes : Result (Unit {0}) → Type 0
Passes r = r ≡ ok tt

>>_iff : (a b : Result (Unit {0})) → Passes (a >> b) ↔ (Passes a × Passes b)
>>_iff (ok u) b = ((λ h. (refl, h)), (λ h. h.1))
>>_iff (raise e) b = ((λ h. absurd (cc)), (λ h. absurd (cc)))

ensure_iff : (b : Bool) (e : Error) → Passes (ensure b e) ↔ (b ≡ true)
ensure_iff true e = ((λ h. refl), (λ h. refl))
ensure_iff false e = ((λ h. absurd (cc)), (λ h. absurd (cc)))

check_dim_iff : (shape : List ℕ) (n : ℕ) → Passes (check_dim shape n) ↔ HasDim shape n
unfolding check_dim
check_dim_iff shape n = elim (Option-cases (get_elem? shape 1)) [
  | inl missing ↦ rw missing ((λ h. absurd (cc)), (λ h. absurd (cc)))
  | inr (dim, e) ↦ rw e (
    (λ h.
        let z : (dim == n) ≡ true = (ensure_iff (dim == n) value_error).0 h in
        let same : dim ≡ n = ground (arith, z) in ap some same),
    (λ h.
        let same : dim ≡ n = some_inj dim n h in
        (ensure_iff (dim == n) value_error).1 (ground (arith, same))),
  )
]
  where
    some_inj : (a b : ℕ) → some a ≡ some b → a ≡ b
    some_inj a b h = ap (λ (o : Option ℕ). elim o [ none ↦ a | some m ↦ m ]) h

check_optional_iff : (o : Option (List ℕ)) (n : ℕ) → Passes (check_optional o n) ↔ OptionalDim o n
unfolding check_optional
check_optional_iff none n = ((λ h. tt), (λ h. refl))
check_optional_iff (some shape) n = check_dim_iff shape n

check_required_iff : (o : Option (List ℕ)) (n : ℕ) → Passes (check_required o n) ↔ RequiredDim o n
unfolding check_required
check_required_iff none n = ((λ h. absurd (cc)), (λ h. absurd h))
check_required_iff (some shape) n = check_dim_iff shape n

not_iff : (b : Bool) → (not b ≡ true) ↔ (b ≡ false)
not_iff true = ((λ h. sym h), (λ h. sym h))
not_iff false = ((λ h. refl), (λ h. refl))

given_iff : (o : Option (List ℕ)) → (is_given o ≡ false) ↔ (o ≡ none)
given_iff none = ((λ h. refl), (λ h. refl))
given_iff (some shape) = ((λ h. absurd (cc)), (λ h. absurd (cc)))

bool_eq_iff : (a b : Bool) → (bool_eq a b ≡ true) ↔ (a ≡ b)
bool_eq_iff true true = ((λ h. refl), (λ h. refl))
bool_eq_iff true false = ((λ h. sym h), (λ h. sym h))
bool_eq_iff false true = ((λ h. h), (λ h. h))
bool_eq_iff false false = ((λ h. refl), (λ h. refl))

Iff-trans : {A B C : Type 0} → A ↔ B → B ↔ C → A ↔ C
Iff-trans f g = ((λ a. g.0 (f.0 a)), (λ c. f.1 (g.1 c)))

chain_iff :
    {P Q : Type 0} (a b : Result (Unit {0}))
    → Passes a ↔ P
    → Passes b ↔ Q
    → Passes (a >> b) ↔ (P × Q)
chain_iff a b f g =
    let both = >>_iff a b in
    ((λ h. let pair = both.0 h in (f.0 pair.0, g.0 pair.1)), (λ h. both.1 (f.1 h.0, g.1 h.1)))

-- A checkpoint is accepted exactly when it is compatible: it has no weights, or it has no key of the older
-- head and no learned queries, one action token in the transformer, and
-- position embeddings, action conditions and an action embedder of the configured sizes, of which only the
-- action conditions have to be there; and it is conditioned on images if that is configured, and only then.
pub validate_resume_iff :
    (sd : StateDict) (e : Expected)
    → (validate_resume_checkpoint_compatibility sd e ≡ ok tt) ↔ Compatible sd e
unfolding validate_resume_checkpoint_compatibility check_state_dict
validate_resume_iff [] e = ((λ h. tt), (λ h. refl))
validate_resume_iff (entry ∷ rest) e =
    let sd : StateDict = entry ∷ rest in
    chain_iff _ _ (Iff-trans (ensure_iff _ value_error) (not_iff (any_legacy sd))) (
      chain_iff _ _
        (Iff-trans (ensure_iff _ value_error)
          (Iff-trans (not_iff _) (given_iff (get sd "rdt_action_queries"))))
        (chain_iff _ _ (check_optional_iff _ 1) (
          chain_iff _ _ (check_optional_iff _ (e.n_seq_timesteps + e.num_register_tokens)) (
            chain_iff _ _ (check_required_iff _ e.n_seq_timesteps) (
              chain_iff _ _ (check_optional_iff _ e.n_actions)
                (Iff-trans (ensure_iff _ value_error) (bool_eq_iff _ e.use_image_condition)))))))
