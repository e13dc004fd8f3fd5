-- ===== src/Training/Adapted.antt =====
-- A tensor that is adapted has the shape of the model's (elefant/policy_model/stage3_finetune.py).
use native.Mathlib.Nat.{div-add-mod}
use mathlib.Core.Path.{subst⁻¹}
use p2p_rdt.Common.{
  ℕ, ◌*◌, ◌/◌, ◌%◌, ◌≡◌, ◌⊎◌, ◌==◌, refl, sym, ap, ◌∙◌, true, false, ◌&&◌, String, List, [], ◌∷◌,
  arith, length, get_or, Bool-cases, inl, inr,
}
use p2p_rdt.Common.Results.{Result, ok, raise, Error, value_error, zero_division_error}
use p2p_rdt.Training.Origin.{
  Weight, Ops, AdaptMode, direct, repeat_img_tokens, have_same_shape, are_img_tokens, repeat_img,
  adapt_origin_tensor_to_target,
}

have_same_shape→≡ : (ms ns : List ℕ) → have_same_shape ms ns ≡ true → ms ≡ ns
unfolding have_same_shape
have_same_shape→≡ [] [] h = refl
have_same_shape→≡ [] (n ∷ ns) h = absurd (cc)
have_same_shape→≡ (m ∷ ms) [] h = absurd (cc)
have_same_shape→≡ (m ∷ ms) (n ∷ ns) h = elim (Bool-cases (m == n)) [
  | inl same ↦
      let e : m ≡ n = ground (arith, same) in
      let rest : have_same_shape ms ns ≡ true =
        rw (sym (ap (λ b. b && have_same_shape ms ns) same)) h in
      ap (λ k. k ∷ ms) e ∙ ap (◌∷◌ n) (have_same_shape→≡ ms ns rest)
  | inr other ↦ absurd (ground (arith, other, h))
]

three : (ns : List ℕ) → length ns ≡ 3 → ns ≡ get_or ns 0 0 ∷ get_or ns 1 0 ∷ get_or ns 2 0 ∷ []
three [] h = absurd (omega arith)
three (a ∷ []) h = absurd (omega arith)
three (a ∷ b ∷ []) h = absurd (omega arith)
three (a ∷ b ∷ c ∷ []) h = refl
three (a ∷ b ∷ c ∷ d ∷ ns) h = absurd (omega arith)

img-shapes :
    (source_key target_key : String) (source target : List ℕ)
    → are_img_tokens source_key source target_key target ≡ true
    → (length target ≡ 3)
      × (get_or source 0 0 ≡ get_or target 0 0)
      × (get_or source 2 0 ≡ get_or target 2 0)
unfolding are_img_tokens
img-shapes source_key target_key source target img =
    (ground (arith, img), ground (arith, img), ground (arith, img))

module _ {A : Type 0} (ops : Ops A) where
  -- The tensor in the target's shape, or an exception when the shapes differ.
  abbrev pub Adapted : Weight A → Weight A → Result (Weight A × AdaptMode) → Type 0
  Adapted source target r =
      ((out : Weight A × AdaptMode) × (r ≡ ok out) × (out.0.shape ≡ target.shape))
      ⊎ ((e : Error) × (r ≡ raise e) × (have_same_shape source.shape target.shape ≡ false))

  abbrev pub kept : Weight A → Weight A → Weight A × AdaptMode
  kept source target =
      (record source { content = ops.to_dtype_of source.content target.content }, direct)

  abbrev pub repeated : Weight A → Weight A → Weight A × AdaptMode
  repeated source target =
      let n = get_or source.shape 1 0 in
      let factor = get_or target.shape 1 0 / n in
      (
        record {
          shape = get_or source.shape 0 0 ∷ n * factor ∷ get_or source.shape 2 0 ∷ [];
          content = ops.to_dtype_of (ops.repeat_tokens factor source.content) target.content;
        },
        repeat_img_tokens factor,
      )

  repeat_img_cases :
      (source target : Weight A) (source_key target_key : String)
      → have_same_shape source.shape target.shape ≡ false
      → are_img_tokens source_key source.shape target_key target.shape ≡ true
      → Adapted source target (repeat_img ops source target)
  unfolding repeat_img
  repeat_img_cases source target source_key target_key differ img =
      let n = get_or source.shape 1 0 in
      let m = get_or target.shape 1 0 in
      let (long, first, last) = img-shapes source_key target_key source.shape target.shape img in
      elim (Bool-cases (n == 0)) [
        | inl none' ↦ inr (zero_division_error, rw none' refl, differ)
        | inr some' ↦ elim (Bool-cases (m % n == 0)) [
          | inr rest ↦ inr (value_error, rw (some', rest) refl, differ)
          | inl whole ↦
              let z : m % n ≡ 0 = ground (arith, whole) in
              let middle : n * (m / n) ≡ m = omega (arith, div-add-mod m n, z) in
              inl (
                repeated source target,
                rw (some', whole) refl,
                rw (first, middle, last) (sym (three target.shape long)),
              )
        ]
      ]

  pub adapt_cases :
      (source target : Weight A) (source_key target_key : String)
      → Adapted source target
          (adapt_origin_tensor_to_target ops source_key source target_key target)
  unfolding adapt_origin_tensor_to_target
  adapt_cases source target source_key target_key =
      elim (Bool-cases (have_same_shape source.shape target.shape)) [
        | inl same ↦
            inl (kept source target, rw same refl, have_same_shape→≡ source.shape target.shape same)
        | inr differ ↦
            elim (Bool-cases (are_img_tokens source_key source.shape target_key target.shape)) [
              | inl img ↦
                  let same : adapt_origin_tensor_to_target ops source_key source target_key target
                      ≡ repeat_img ops source target =
                    rw (differ, img) refl in
                  subst⁻¹ (Adapted source target) same
                    (repeat_img_cases source target source_key target_key differ img)
              | inr other ↦ inr (value_error, rw (differ, other) refl, differ)
            ]
      ]
