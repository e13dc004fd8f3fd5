-- ===== src/RobotTwin/Rolling.antt =====
-- A tensor of fixed length that is filled row by row and then moves on by one row each time
-- (elefant/evaluation/robotwin/server.py) holds the latest of what was written.
use p2p_rdt.Common.{
  ℕ, zero, suc, ◌+◌, ◌-◌, ◌≤◌, ◌<◌, ◌≡◌, refl, sym, ap, ◌∙◌, true, List, [], ◌∷◌, ◌++◌, arith,
  length, min, set, take, drop, get_elem?, ltb, All, length-append, length-set, length-drop,
  drop-append, drop-drop, take_of_length-le, some,
}
use p2p_rdt.Common.Results.{ok}
use p2p_rdt.RobotTwin.Sequence.{roll, assign, assign_last}

module _ {A : Type 0} where
  -- The last `T` elements, or all if there are fewer.
  abbrev pub latest : ℕ → List A → List A
  latest T xs = drop (length xs - T) xs

  -- `rows` has `T` rows, and the first `n` are the latest of `seen`.
  abbrev pub Window : ℕ → ℕ → List A → List A → Type 0
  Window T n rows seen =
      (length rows ≡ T) × (n ≡ min (length seen) T) × (take n rows ≡ latest T seen)

  take-set :
      (i : ℕ) (x : A) (xs : List A)
      → i < length xs
      → take (suc i) (set xs i x) ≡ take i xs ++ (x ∷ [])
  take-set i x [] h = elim h [ ]
  take-set zero x (y ∷ xs) h = refl
  take-set (suc i) x (y ∷ xs) h = ap (◌∷◌ y) (take-set i x xs (omega arith))

  set_last :
      (i : ℕ) (x y : A) (xs : List A) → i ≡ length xs → set (xs ++ (y ∷ [])) i x ≡ xs ++ (x ∷ [])
  set_last zero x y [] h = refl
  set_last zero x y (z ∷ xs) h = absurd (omega arith)
  set_last (suc i) x y [] h = absurd (omega arith)
  set_last (suc i) x y (z ∷ xs) h = ap (◌∷◌ z) (set_last i x y xs (omega arith))

  pub assign_lem :
      (rows : List A) (i : ℕ) (x : A) → i < length rows → assign rows i x ≡ ok (set rows i x)
  unfolding assign
  assign_lem rows i x h = let lt : ltb i (length rows) ≡ true = ground arith in rw lt refl

  pub length-roll : (rows : List A) → length (roll rows) ≡ length rows
  unfolding roll
  length-roll [] = refl
  length-roll (y ∷ ys) = omega (arith, length-append ys (y ∷ []))

  pub assign_last-roll :
      (rows : List A) (x : A)
      → 0 < length rows
      → assign_last (roll rows) x ≡ ok (drop 1 rows ++ (x ∷ []))
  unfolding assign_last roll
  assign_last-roll [] x h = elim h [ ]
  assign_last-roll (y ∷ ys) x h =
      let same : length (ys ++ (y ∷ [])) - 1 ≡ length ys =
        omega (arith, length-append ys (y ∷ [])) in
      assign_lem (ys ++ (y ∷ [])) _ x (omega (arith, length-append ys (y ∷ [])))
      ∙ ap ok (set_last _ x y ys same)

  pub set-roll :
      (rows : List A) (x : A)
      → 0 < length rows
      → set (roll rows) (length (roll rows) - 1) x ≡ drop 1 rows ++ (x ∷ [])
  unfolding roll
  set-roll [] x h = elim h [ ]
  set-roll (y ∷ ys) x h = set_last _ x y ys (omega (arith, length-append ys (y ∷ [])))

  pub Window-append :
      (T n : ℕ) (rows seen : List A) (x : A)
      → n < T
      → Window T n rows seen
      → Window T (n + 1) (set rows n x) (seen ++ (x ∷ []))
  Window-append T n rows seen x h w =
      let longer = length-append seen (x ∷ []) in
      let none_dropped : length seen - T ≡ 0 = omega (arith, w.1) in
      let none_dropped' : length (seen ++ (x ∷ [])) - T ≡ 0 = omega (arith, w.1, longer) in
      let next : n + 1 ≡ suc n = omega arith in
      (
        omega (arith, length-set rows n x, w.0),
        omega (arith, longer, w.1),
        ap (λ k. take k (set rows n x)) next
            ∙ take-set n x rows (omega (arith, w.0))
            ∙ ap (λ ys. ys ++ (x ∷ [])) (w.2 ∙ ap (λ k. drop k seen) none_dropped)
            ∙ sym (ap (λ k. drop k (seen ++ (x ∷ []))) none_dropped'),
      )

  pub Window-roll :
      (T n : ℕ) (rows seen : List A) (x : A)
      → 0 < T
      → T ≤ n
      → Window T n rows seen
      → Window T n (drop 1 rows ++ (x ∷ [])) (seen ++ (x ∷ []))
  Window-roll T n rows seen x pos full w =
      let longer = length-append seen (x ∷ []) in
      let len : length (drop 1 rows ++ (x ∷ [])) ≡ T =
        omega (arith, length-append (drop 1 rows) (x ∷ []), length-drop 1 rows, w.0) in
      let more : length (seen ++ (x ∷ [])) - T ≡ length seen - T + 1 = omega (arith, longer, w.1) in
      let all_rows : rows ≡ latest T seen =
        sym (take_of_length-le n rows (omega (arith, w.0))) ∙ w.2 in
      (
        len,
        omega (arith, longer, w.1),
        take_of_length-le n _ (omega arith)
            ∙ ap (λ ys. ys ++ (x ∷ [])) (ap (drop 1) all_rows ∙ drop-drop 1 (length seen - T) seen)
            ∙ sym (drop-append (length seen - T + 1) seen (x ∷ []) (omega (arith, w.1)))
            ∙ sym (ap (λ k. drop k (seen ++ (x ∷ []))) more),
      )

  -- The first row of a window that is not empty is the oldest of what it shows.
  pub Window-first :
      (T n : ℕ) (rows seen : List A)
      → 0 < n
      → Window T n rows seen
      → get_elem? rows 0 ≡ get_elem? (latest T seen) 0
  Window-first T n rows seen h w = take_first n rows h ∙ ap (λ ys. get_elem? ys 0) w.2
    where
      take_first : (k : ℕ) (xs : List A) → 0 < k → get_elem? xs 0 ≡ get_elem? (take k xs) 0
      take_first (suc k) [] lt = refl
      take_first (suc k) (y ∷ xs) lt = refl
      take_first zero xs lt = elim lt [ ]

  pub All-set :
      (P : A → Type 0) (rows : List A) (i : ℕ) (x : A) → P x → All P rows → All P (set rows i x)
  All-set P [] i x p h = tt
  All-set P (y ∷ rows) zero x p h = (p, h.1)
  All-set P (y ∷ rows) (suc i) x p h = (h.0, All-set P rows i x p h.1)

  pub All-drop : (P : A → Type 0) (rows : List A) (k : ℕ) → All P rows → All P (drop k rows)
  All-drop P rows zero h = h
  All-drop P [] (suc k) h = tt
  All-drop P (y ∷ rows) (suc k) h = All-drop P rows k h.1

  pub All-take : (P : A → Type 0) (rows : List A) (k : ℕ) → All P rows → All P (take k rows)
  All-take P rows zero h = tt
  All-take P [] (suc k) h = tt
  All-take P (y ∷ rows) (suc k) h = (h.0, All-take P rows k h.1)

  pub All-get :
      (P : A → Type 0) (rows : List A) (i : ℕ)
      → i < length rows
      → All P rows
      → (x : A) × (get_elem? rows i ≡ some x) × P x
  All-get P [] i lt h = elim lt [ ]
  All-get P (y ∷ rows) zero lt h = (y, refl, h.0)
  All-get P (y ∷ rows) (suc i) lt h = All-get P rows i (omega arith) h.1
