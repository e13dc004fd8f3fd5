-- ===== src/Training/Repeat.antt =====
-- Tensors of an older checkpoint that are repeated to a new shape
-- (elefant/policy_model/stage3_finetune.py). A tensor is the list of its numbers.
use native.Mathlib.Nat.{mod-eq_of_lt, add-mod_left, lt-div-mul-add, mul_comm}
use p2p_rdt.Common.{
  ℕ, zero, suc, ◌+◌, ◌-◌, ◌*◌, ◌/◌, ◌%◌, ◌≤◌, ◌<◌, ◌≡◌, ◌==◌, refl, sym, ap, ◌∙◌, false, List, [],
  ◌∷◌, ◌++◌, arith, length, get_elem?, take, Bool-cases, inl, inr, length-append, length-take,
  get_elem?-take, get_elem?-append_left, get_elem?-append_right, if◌then◌else◌, ltb,
}
use p2p_rdt.Common.Results.{Result, ok, raise, value_error}

-- The number of elements of a tensor of a shape.
unfoldable pub numel : ℕ → List ℕ → ℕ
numel target_numel [] = target_numel
numel target_numel (dim ∷ dims) = numel (target_numel * dim) dims

module _ {A : Type 0} where
  -- `flat.repeat(n)`
  unfoldable pub repeat : ℕ → List A → List A
  repeat zero flat = []
  repeat (suc n) flat = flat ++ repeat n flat

  -- `_reshape_tensor_with_repeat`.
  unfoldable pub reshape_tensor_with_repeat : List A → List ℕ → Result (List A)
  unfolding numel repeat
  reshape_tensor_with_repeat flat_source target_shape =
      let target_numel = numel 1 target_shape in
      let n = length flat_source in
      if n == 0
      then raise value_error
      else if n == target_numel
      then ok flat_source
      else ok (take target_numel (repeat ((target_numel + n - 1) / n) flat_source))

module _ {A : Type 0} where
  length-repeat : (k : ℕ) (xs : List A) → length (repeat k xs) ≡ k * length xs
  unfolding repeat
  length-repeat zero xs = omega arith
  length-repeat (suc k) xs =
      let split : suc k * length xs ≡ length xs + k * length xs =
        omega (arith, mul_comm (suc k) (length xs), mul_comm k (length xs)) in
      omega (arith, length-append xs (repeat k xs), length-repeat k xs, split)

  get_elem?-repeat :
      (k i : ℕ) (xs : List A)
      → 0 < length xs
      → i < k * length xs
      → get_elem? (repeat k xs) i ≡ get_elem? xs (i % length xs)
  unfolding repeat
  get_elem?-repeat zero i xs pos lt = absurd (omega arith)
  get_elem?-repeat (suc k) i xs pos lt = elim (Bool-cases (ltb i (length xs))) [
    | inl first ↦
        let below : i < length xs = ground arith in
        get_elem?-append_left xs (repeat k xs) i below
        ∙ ap (get_elem? xs) (sym (mod-eq_of_lt below))
    | inr later ↦
        let n = length xs in
        let split : suc k * n ≡ n + k * n = omega (arith, mul_comm (suc k) n, mul_comm k n) in
        let back : n + (i - n) ≡ i = ground arith in
        get_elem?-append_right xs (repeat k xs) i (i - n) (sym back)
        ∙ get_elem?-repeat k (i - n) xs pos (ground (arith, split, later))
        ∙ ap (get_elem? xs) (sym (add-mod_left n (i - n)) ∙ ap (λ m. m % n) back)
  ]

  -- A tensor with at least one element is made into one of the target shape: it has as many elements as the
  -- shape asks for, and element `i` is element `i` of the source counted round and round.
  pub reshape_tensor_with_repeat_lem :
      (flat_source : List A) (target_shape : List ℕ)
      → 0 < length flat_source
      → (out : List A) × (reshape_tensor_with_repeat flat_source target_shape ≡ ok out)
        × (length out ≡ numel 1 target_shape)
        × ((i : ℕ)
            → i < numel 1 target_shape
            → get_elem? out i ≡ get_elem? flat_source (i % length flat_source))
  unfolding reshape_tensor_with_repeat
  reshape_tensor_with_repeat_lem flat_source target_shape pos =
      let n = length flat_source in
      let t = numel 1 target_shape in
      let some' : (n == 0) ≡ false = ground arith in
      let k = (t + n - 1) / n in
      let enough : t ≤ k * n = omega (arith, lt-div-mul-add {a = t + n - 1} pos) in
      elim (Bool-cases (n == t)) [
        | inl same ↦ (
          flat_source,
          rw (some', same) refl,
          ground arith,
          λ i lt. ap (get_elem? flat_source) (sym (mod-eq_of_lt (ground arith))),
        )
        | inr other ↦ (
          take t (repeat k flat_source),
          rw (some', other) refl,
          omega (arith, length-take t (repeat k flat_source), length-repeat k flat_source, enough),
          λ i lt.
              get_elem?-take t i (repeat k flat_source) lt
              ∙ get_elem?-repeat k i flat_source pos (omega arith),
        )
      ]
