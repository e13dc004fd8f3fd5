-- ===== src/Inference/Devices.antt =====
-- The device that the server chooses (elefant/policy_model/inference.py).
use p2p_rdt.Common.{
  ℕ, suc, ◌+◌, ◌≡◌, ◌≢◌, ◌⊎◌, refl, ap, ◌∙◌, ◌==◌, Bool, true, false, String, List, [], ◌∷◌, none,
  some, arith, length, get_elem?, take, All, Bool-cases, inl, inr,
}
use p2p_rdt.Common.Results.{ok, raise, assertion_error, value_error}
use p2p_rdt.Inference.Timing.{first_wanted, setup_device}

abbrev pub Unwanted : (String → Bool) → List String → Type 0
Unwanted wanted names = All (λ name. wanted name ≡ false) names

first_wanted_cases :
    (wanted : String → Bool) (names : List String) (i : ℕ)
    → ((k : ℕ) × (name : String) × (first_wanted wanted i names ≡ some (i + k))
        × (get_elem? names k ≡ some name)
        × (wanted name ≡ true)
        × Unwanted wanted (take k names))
      ⊎ ((first_wanted wanted i names ≡ none) × Unwanted wanted names)
unfolding first_wanted
first_wanted_cases wanted [] i = inr (refl, tt)
first_wanted_cases wanted (name ∷ names) i = elim (Bool-cases (wanted name)) [
  | inl yes' ↦
      let e : i ≡ i + 0 = omega arith in
      inl (0, name, rw (first_wanted, yes') (ap some e), refl, yes', tt)
  | inr no' ↦ elim (first_wanted_cases wanted names (suc i)) [
    | inl (k, found, e, at, is, before) ↦
        let z : suc i + k ≡ i + suc k = omega arith in
        inl (suc k, found, rw (first_wanted, no') (e ∙ ap some z), at, is, (no', before))
    | inr (e, before) ↦ inr (rw (first_wanted, no') e, (no', before))
  ]
]

-- The choice of a device. Without CUDA it raises AssertionError. With it there are three cases: it is the first device with the wanted
-- name; or no device has it, and it is the only device; or no device has it, there is none or more than
-- one, and it raises ValueError.
pub setup_device_cases :
    (wanted : String → Bool) (names : List String)
    → (setup_device wanted false names ≡ raise assertion_error)
      × (((k : ℕ) × (name : String) × (setup_device wanted true names ≡ ok k)
            × (get_elem? names k ≡ some name)
            × (wanted name ≡ true)
            × Unwanted wanted (take k names))
          ⊎ (Unwanted wanted names
              × (((length names ≡ 1) × (setup_device wanted true names ≡ ok 0))
                  ⊎ ((length names ≢ 1) × (setup_device wanted true names ≡ raise value_error)))))
unfolding setup_device
setup_device_cases wanted names = (
  refl,
  elim (first_wanted_cases wanted names 0) [
    | inl (k, name, e, at, is, before) ↦
        let z : 0 + k ≡ k = omega arith in
        inl (k, name, rw (setup_device, e) (ap ok z), at, is, before)
    | inr (e, unwanted) ↦ inr (
      unwanted,
      elim (Bool-cases (length names == 1)) [
        | inl one ↦ inl (ground arith, rw (setup_device, e, one) refl)
        | inr other ↦ inr ((λ z. ground arith), rw (setup_device, e, other) refl)
      ],
    )
  ],
)
