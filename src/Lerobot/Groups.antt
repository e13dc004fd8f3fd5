-- ===== src/Lerobot/Groups.antt =====
-- Actions and frames of a segment, one group of actions for a frame
-- (elefant/data/lerobot_latent_dataset.py).
use native.Mathlib.Nat.{div-mul-le_self, div-eq_of_lt-le, mul_comm, one-mul}
use p2p_rdt.Common.{
  ℕ, zero, suc, ◌+◌, ◌-◌, ◌*◌, ◌/◌, ◌≤◌, ◌<◌, ◌≡◌, refl, sym, ap, true, false, List, [], ◌∷◌, ◌++◌,
  arith, some, length, get_elem?, take, drop, replicate, ◌==◌, length-take, length-append,
  length-replicate,
}
use p2p_rdt.Common.Results.{ok}
use p2p_rdt.Lerobot.Alignment.{arange, strided, group, align_actions}

length-arange : (start n : ℕ) → length (arange start n) ≡ n
unfolding arange
length-arange start zero = refl
length-arange start (suc n) = ap suc (length-arange (start + 1) n)

count_lem : (m n k : ℕ) → 0 < n → n ≤ m * k → m * k < n + k → m ≡ suc ((n - 1) / k)
count_lem zero n k pos le lt = absurd (omega arith)
count_lem (suc m) n k pos le lt = ap suc (
    sym (
      div-eq_of_lt-le {k = m} k {m = n - 1} (omega (arith, mul_comm k m))
        (omega (arith, mul_comm k m))))

arange_first : (start n : ℕ) → 2 ≤ n → get_elem? (arange start n) 0 ≡ some start
unfolding arange
arange_first start zero two = absurd (omega arith)
arange_first start (suc n) two = refl

arange_second : (start n : ℕ) → 2 ≤ n → get_elem? (arange start n) 1 ≡ some (start + 1)
unfolding arange
arange_second start zero two = absurd (omega arith)
arange_second start (suc zero) two = absurd (omega arith)
arange_second start (suc (suc n)) two = refl

module _ {A : Type 0} where
  strided_count :
      (skip k : ℕ) (xs : List A)
      → skip < k
      → (length xs ≤ skip + length (strided skip k xs) * k)
        × (skip + length (strided skip k xs) * k < length xs + k)
  unfolding strided
  strided_count skip k [] lt = (omega arith, omega arith)
  strided_count zero k (x ∷ xs) lt =
      let h = strided_count (k - 1) k xs (omega arith) in (omega arith, omega arith)
  strided_count (suc skip) k (x ∷ xs) lt =
      let h = strided_count skip k xs (omega arith) in (omega arith, omega arith)

  -- A stride keeps one row, and one more for each whole stride after it.
  length-strided :
      (k : ℕ) (xs : List A)
      → 0 < k
      → 0 < length xs
      → length (strided 0 k xs) ≡ suc ((length xs - 1) / k)
  length-strided k xs pos more =
      let h = strided_count 0 k xs pos in
      count_lem (length (strided 0 k xs)) (length xs) k more (omega (arith, h.0))
        (omega (arith, h.1))

  take-replicate : (m n : ℕ) (a : A) → m ≤ n → take m (replicate n a) ≡ replicate m a
  take-replicate zero n a h = refl
  take-replicate (suc m) zero a h = absurd (omega arith)
  take-replicate (suc m) (suc n) a h = ap (◌∷◌ a) (take-replicate m n a (omega arith))

  take-append :
      (k m : ℕ) (a : A) (xs : List A)
      → take (k + m) (replicate k a ++ xs) ≡ replicate k a ++ take m xs
  take-append zero m a xs = let e : 0 + m ≡ m = omega arith in ap (λ i. take i xs) e
  take-append (suc k) m a xs =
      let e : suc k + m ≡ suc (k + m) = omega arith in rw e (ap (◌∷◌ a) (take-append k m a xs))

  take-replicate_append :
      (k : ℕ) (a : A) (xs : List A) → take k (replicate k a ++ xs) ≡ replicate k a
  take-replicate_append zero a xs = refl
  take-replicate_append (suc k) a xs = ap (◌∷◌ a) (take-replicate_append k a xs)

  drop-replicate_append : (k : ℕ) (a : A) (xs : List A) → drop k (replicate k a ++ xs) ≡ xs
  drop-replicate_append zero a xs = refl
  drop-replicate_append (suc k) a xs = drop-replicate_append k a xs

  replicate_add : (m n : ℕ) (a : A) → replicate (m + n) a ≡ replicate m a ++ replicate n a
  replicate_add zero n a = let e : 0 + n ≡ n = omega arith in ap (λ i. replicate i a) e
  replicate_add (suc m) n a =
      let e : suc m + n ≡ suc (m + n) = omega arith in rw e (ap (◌∷◌ a) (replicate_add m n a))

  group-replicate :
      (f n : ℕ) (a : A) → group f n (replicate (f * n) a) ≡ replicate f (replicate n a)
  unfolding group
  group-replicate zero n a = refl
  group-replicate (suc f) n a =
      let e : suc f * n ≡ n + f * n = omega arith in
      rw
        (
          e,
          replicate_add n (f * n) a,
          take-replicate_append n a (replicate (f * n) a),
          drop-replicate_append n a (replicate (f * n) a),
          group-replicate f n a,
        )
        refl

  group-append :
      (f n : ℕ) (a : A) (xs : List A)
      → group (suc f) n (replicate n a ++ xs) ≡ replicate n a ∷ group f n xs
  unfolding group
  group-append f n a xs = rw (take-replicate_append n a xs, drop-replicate_append n a xs) refl

module _ {R : Type 0} (zero_row : R) where
  -- For a segment with two frames or more, a positive stride, and one action for each frame: the alignment returns, with
  -- one group of actions for each frame that the stride keeps. The first group is masked, the others
  -- are not, and the groups after the first hold the actions from the first one on, in order.
  pub align_actions_lem :
      {F : Type 0} (frames : List F) (start stride : ℕ) (action : List R)
      → 2 ≤ length frames
      → 0 < stride
      → length action ≡ length frames
      → let f = (length frames - 1) / stride in
        (align_actions zero_row stride (arange start (length frames)) action
          ≡ ok (
            replicate stride zero_row ∷ group f stride (take (f * stride) action),
            replicate stride false ∷ replicate f (replicate stride true),
          ))
        × (length (strided 0 stride frames) ≡ suc f)
  unfolding align_actions
  align_actions_lem frames start stride action two pos same =
      let n = length frames in
      let f = (n - 1) / stride in
      let inside : f * stride < n = omega (arith, div-mul-le_self (n - 1) stride) in
      let step : start + 1 - start ≡ 1 = omega arith in
      let required : (f + 1) * 1 * stride ≡ stride + f * stride = omega arith in
      let cut : length (replicate stride zero_row ++ take (f * stride) action)
          ≡ stride + f * stride =
        omega (
          arith,
          length-append (replicate stride zero_row) (take (f * stride) action),
          length-replicate stride zero_row,
          length-take (f * stride) action,
        ) in
      let cut_mask : length (replicate stride false ++ replicate (f * stride) true)
          ≡ stride + f * stride =
        omega (
          arith,
          length-append (replicate stride false) (replicate (f * stride) true),
          length-replicate stride false,
          length-replicate (f * stride) true,
        ) in
      let same_length : (stride + f * stride == stride + f * stride) ≡ true = ground arith in
      let count : f + 1 ≡ suc f = omega arith in
      (
        rw
            (
              arange_first start n two,
              arange_second start n two,
              step,
              one-mul stride,
              length-arange start n,
              required,
              take-append stride (f * stride) zero_row action,
              take-append stride (f * stride) false (replicate (length action) true),
              take-replicate (f * stride) (length action) true (omega arith),
              cut,
              cut_mask,
              same_length,
              count,
              group-append f stride zero_row (take (f * stride) action),
              group-append f stride false (replicate (f * stride) true),
              group-replicate f stride true,
            )
            refl,
        length-strided stride frames pos (omega arith),
      )
