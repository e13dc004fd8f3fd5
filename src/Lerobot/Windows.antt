-- ===== src/Lerobot/Windows.antt =====
-- The windows of a tensor (elefant/data/lerobot_latent_dataset.py): a slice, and rows after it up to a length.
use p2p_rdt.Common.{
  ℕ, zero, suc, ◌+◌, ◌-◌, ◌≤◌, ◌<◌, ◌≡◌, refl, sym, ap, true, false, List, [], ◌∷◌, ◌++◌, some,
  arith, length, slice, get_elem?, get_or, replicate, take, drop, All, All-append, ltb, leb,
  Bool-cases, inl, inr, length-append, length-replicate, length-slice,
}
use p2p_rdt.Common.Results.{ok, raise, value_error}
use p2p_rdt.Lerobot.Sample.{last_row, pad_time_dim}

module _ {A : Type 0} where
  -- The tensor, up to `target` rows of `x`.
  abbrev pub padded : ℕ → A → List A → List A
  padded target x xs = xs ++ replicate (target - length xs) x

  -- The last row, or `d` if there is none.
  abbrev pub last_or : A → List A → A
  last_or d xs = get_or xs (length xs - 1) d

  append_nil : (xs : List A) → xs ++ [] ≡ xs
  append_nil [] = refl
  append_nil (x ∷ xs) = ap (◌∷◌ x) (append_nil xs)

  get_or_lem : (xs : List A) (i : ℕ) (d : A) → i < length xs → get_elem? xs i ≡ some (get_or xs i d)
  get_or_lem [] i d h = elim h [ ]
  get_or_lem (x ∷ xs) zero d h = refl
  get_or_lem (x ∷ xs) (suc i) d h = get_or_lem xs i d (omega arith)

  padded_full : (target : ℕ) (x : A) (xs : List A) → target ≤ length xs → xs ≡ padded target x xs
  padded_full target x xs h =
      let z : target - length xs ≡ 0 = omega arith in rw z (sym (append_nil xs))

  pub pad_zeros :
      (xs : List A) (target : ℕ) (zero_row : A)
      → pad_time_dim xs target "zeros" zero_row ≡ ok (padded target zero_row xs)
  unfolding pad_time_dim
  pad_zeros xs target zero_row = elim (Bool-cases (leb target (length xs))) [
    | inl full ↦ rw full (ap ok (padded_full target zero_row xs (ground arith)))
    | inr short ↦ rw short refl
  ]

  pub pad_last :
      (xs : List A) (target : ℕ) (zero_row : A)
      → 0 < length xs
      → pad_time_dim xs target "repeat_last" zero_row ≡ ok (padded target (last_or zero_row xs) xs)
  unfolding pad_time_dim last_row
  pad_last xs target zero_row h = elim (Bool-cases (leb target (length xs))) [
    | inl full ↦ rw full (ap ok (padded_full target (last_or zero_row xs) xs (ground arith)))
    | inr short ↦
        let more : ltb 0 (length xs) ≡ true = ground arith in
        rw (short, more, get_or_lem xs (length xs - 1) zero_row (omega arith)) refl
  ]

  pad_last_empty :
      (target : ℕ) (zero_row : A)
      → 0 < target
      → pad_time_dim [] target "repeat_last" zero_row ≡ raise value_error
  unfolding pad_time_dim
  pad_last_empty target zero_row h =
      let short : leb target 0 ≡ false = ground arith in rw short refl

  length-padded :
      (target : ℕ) (x : A) (xs : List A) → length xs ≤ target → length (padded target x xs) ≡ target
  length-padded target x xs h = omega (
    arith,
    length-append xs (replicate (target - length xs) x),
    length-replicate (target - length xs) x,
  )

  -- A window of `m` rows from `start`, up to `target` rows.
  abbrev pub window : ℕ → ℕ → ℕ → A → List A → List A
  window target start m x xs = padded target x (slice start (start + m) xs)

  abbrev pub window_last : ℕ → ℕ → ℕ → A → List A → List A
  window_last target start m d xs =
      padded target (last_or d (slice start (start + m) xs)) (slice start (start + m) xs)

  pub length-window :
      (target start m : ℕ) (x : A) (xs : List A)
      → m ≤ target
      → length (window target start m x xs) ≡ target
  length-window target start m x xs h =
      length-padded target x (slice start (start + m) xs)
        (omega (arith, length-slice start (start + m) xs))

  slice-All : (P : A → Type 0) (i j : ℕ) (xs : List A) → All P xs → All P (slice i j xs)
  slice-All P i j xs h = take-All (j - i) (drop i xs) (All-drop i xs h)
    where
      take-All : (k : ℕ) (ys : List A) → All P ys → All P (take k ys)
      take-All zero ys h = tt
      take-All (suc k) [] h = tt
      take-All (suc k) (y ∷ ys) h = (h.0, take-All k ys h.1)

      All-drop : (k : ℕ) (ys : List A) → All P ys → All P (drop k ys)
      All-drop zero ys h = h
      All-drop (suc k) [] h = tt
      All-drop (suc k) (y ∷ ys) h = All-drop k ys h.1

  replicate-All : (P : A → Type 0) (k : ℕ) (x : A) → P x → All P (replicate k x)
  replicate-All P zero x h = tt
  replicate-All P (suc k) x h = (h, replicate-All P k x h)

  pub window-All :
      (P : A → Type 0) (target start m : ℕ) (x : A) (xs : List A)
      → P x
      → All P xs
      → All P (window target start m x xs)
  window-All P target start m x xs hx h =
      let part = slice start (start + m) xs in
      All-append P part (replicate (target - length part) x) (slice-All P start (start + m) xs h)
        (replicate-All P (target - length part) x hx)
