-- ===== src/RobotTwin/Lengths.antt =====
-- How many numbers the functions on poses give (elefant/evaluation/robotwin/common.py).
use p2p_rdt.Common.{
  ℕ, ◌+◌, ◌-◌, ◌≤◌, ◌≡◌, ◌==◌, refl, Bool, true, List, [], ◌∷◌, ◌++◌, some, arith, min, length,
  slice, take, drop, Bool-cases, inl, inr, length-append, length-slice, length-take, length-drop,
  length-map,
}
use p2p_rdt.Common.Results.{Result, ok, ◌>>=◌, Gives, Gives-bind}
use p2p_rdt.RobotTwin.Floats.{Floats, reshape, zip_with}
use p2p_rdt.RobotTwin.Pose.{
  identity_quaternion, normalize, normalize_quaternion, finite_or, sanitize_quaternion,
  quat_is_invalid, sanitize_pose_8d, sanitize_compact_pose_16d, compose_relative_pose,
  absolute_to_relative_pose, rebase_relative_pose, both_arms, compose_compact_relative_action,
  absolute_to_relative_compact_action, rebase_compact_relative_action,
}

-- Of the rotations of scipy only that a quaternion has four numbers.
pub record QuaternionLaws {F : Type 0} (fl : Floats F) : Type 0 where
  pub length-rotate : (a b : List F) → length (fl.rotate a b) ≡ 4
  pub length-rotate_back : (a b : List F) → length (fl.rotate_back a b) ≡ 4

module _ {A : Type 0} where
  abbrev pub HasLength : ℕ → List A → Type 0
  HasLength n xs = length xs ≡ n

  pub reshape-Gives : (n : ℕ) (xs : List A) → HasLength n xs → Gives (HasLength n) (reshape n xs)
  unfolding reshape
  reshape-Gives n xs h = let same : (length xs == n) ≡ true = ground arith in rw same h

  pub reshape_lem : (n : ℕ) (xs : List A) → HasLength n xs → reshape n xs ≡ ok xs
  unfolding reshape
  reshape_lem n xs h = let same : (length xs == n) ≡ true = ground arith in rw same refl

  pub length-zip_with :
      (f : A → A → A) (xs ys : List A) → length (zip_with f xs ys) ≡ min (length xs) (length ys)
  length-zip_with f [] ys = omega arith
  length-zip_with f (x ∷ xs) [] = omega arith
  length-zip_with f (x ∷ xs) (y ∷ ys) = omega (arith, length-zip_with f xs ys)

  pub length-append3 :
      (k m n : ℕ) (xs ys zs : List A)
      → HasLength k xs
      → HasLength m ys
      → HasLength n zs
      → HasLength (k + (m + n)) (xs ++ (ys ++ zs))
  length-append3 k m n xs ys zs hx hy hz =
      omega (arith, length-append xs (ys ++ zs), length-append ys zs)

  pub slice-HasLength :
      (n i j : ℕ) (xs : List A) → j ≤ n → i ≤ j → HasLength n xs → HasLength (j - i) (slice i j xs)
  slice-HasLength n i j xs le below h = omega (arith, length-slice i j xs)

  pub both_arms-Gives :
      (arm : List A → List A → Result (List A)) (x y : List A)
      → ((p q : List A) → HasLength 8 p → HasLength 8 q → Gives (HasLength 8) (arm p q))
      → HasLength 16 x
      → HasLength 16 y
      → Gives (HasLength 16) (both_arms arm x y)
  unfolding both_arms
  both_arms-Gives arm x y h hx hy =
      Gives-bind (HasLength 16) _ (reshape 16 x) _ (reshape-Gives 16 x hx) λ a la.
        Gives-bind (HasLength 16) _ (reshape 16 y) _ (reshape-Gives 16 y hy) λ b lb.
          Gives-bind (HasLength 8) _ (arm (take 8 a) (take 8 b)) _
            (h (take 8 a) (take 8 b) (omega (arith, length-take 8 a))
              (omega (arith, length-take 8 b)))
            λ left ll.
              Gives-bind (HasLength 8) _ (arm (drop 8 a) (drop 8 b)) _
                (h (drop 8 a) (drop 8 b) (omega (arith, length-drop 8 a))
                  (omega (arith, length-drop 8 b)))
                λ right lr. omega (arith, length-append left right)

module _ {F : Type 0} (fl : Floats F) where
  pub length-normalize : (quat : List F) → HasLength 4 quat → HasLength 4 (normalize fl quat)
  unfolding normalize identity_quaternion
  length-normalize quat h = ground (arith, length-map quat (λ x. fl.over x (fl.norm quat)))

  pub normalize_quaternion-Gives :
      (quat : List F) → HasLength 4 quat → Gives (HasLength 4) (normalize_quaternion fl quat)
  unfolding normalize_quaternion
  normalize_quaternion-Gives quat h =
      Gives-bind (HasLength 4) _ (reshape 4 quat) _ (reshape-Gives 4 quat h) (length-normalize)

  sanitize_quaternion-Gives :
      (quat fallback : List F)
      → HasLength 4 quat
      → HasLength 4 fallback
      → Gives (λ r. HasLength 4 r.0) (sanitize_quaternion fl quat fallback)
  unfolding sanitize_quaternion
  sanitize_quaternion-Gives quat fallback h hf = elim (Bool-cases (quat_is_invalid fl quat)) [
    | inl bad ↦ rw bad (
        Gives-bind (HasLength 4) _ (normalize_quaternion fl fallback) _
          (normalize_quaternion-Gives fallback hf) (λ n hn. hn))
    | inr good ↦ rw good (
        Gives-bind (HasLength 4) _ (normalize_quaternion fl quat) _
          (normalize_quaternion-Gives quat h) (λ n hn. ground arith))
  ]

  length-finite_or :
      (n : ℕ) (part fallback : List F)
      → HasLength n part
      → HasLength n fallback
      → HasLength n (finite_or fl part fallback).0
  unfolding finite_or
  length-finite_or n part fallback h hf = ground arith

  sanitize_pose_8d-Gives :
      (pose fallback : List F)
      → HasLength 8 pose
      → HasLength 8 fallback
      → Gives (λ r. HasLength 8 r.0) (sanitize_pose_8d fl pose (some fallback))
  unfolding sanitize_pose_8d
  sanitize_pose_8d-Gives pose fallback h hf =
      Gives-bind (HasLength 8) _ (reshape 8 pose) _ (reshape-Gives 8 pose h) λ p hp.
        Gives-bind (HasLength 8) _ (reshape 8 fallback) _ (reshape-Gives 8 fallback hf) λ q hq.
          Gives-bind (λ (r : List F × Bool). HasLength 4 r.0) _
            (sanitize_quaternion fl (slice 3 7 p) (slice 3 7 q)) _
            (sanitize_quaternion-Gives (slice 3 7 p) (slice 3 7 q)
              (slice-HasLength 8 3 7 p (omega arith) (omega arith) hp)
              (slice-HasLength 8 3 7 q (omega arith) (omega arith) hq))
            λ r hr.
              length-append3 3 4 1 _ r.0 _
                (length-finite_or 3 (slice 0 3 p) (slice 0 3 q)
                  (slice-HasLength 8 0 3 p (omega arith) (omega arith) hp)
                  (slice-HasLength 8 0 3 q (omega arith) (omega arith) hq))
                hr
                (length-finite_or 1 (slice 7 8 p) (slice 7 8 q)
                  (slice-HasLength 8 7 8 p (omega arith) (omega arith) hp)
                  (slice-HasLength 8 7 8 q (omega arith) (omega arith) hq))

  pub sanitize_compact_pose_16d-Gives :
      (pose fallback : List F)
      → HasLength 16 pose
      → HasLength 16 fallback
      → Gives (λ r. HasLength 16 r.0) (sanitize_compact_pose_16d fl pose (some fallback))
  unfolding sanitize_compact_pose_16d
  sanitize_compact_pose_16d-Gives pose fallback h hf =
      Gives-bind (HasLength 16) _ (reshape 16 pose) _ (reshape-Gives 16 pose h) λ p hp.
        Gives-bind (HasLength 16) _ (reshape 16 fallback) _ (reshape-Gives 16 fallback hf) λ q hq.
          Gives-bind (λ (r : List F × Bool). HasLength 8 r.0) _
            (sanitize_pose_8d fl (take 8 p) (some (take 8 q))) _
            (sanitize_pose_8d-Gives (take 8 p) (take 8 q) (omega (arith, length-take 8 p))
              (omega (arith, length-take 8 q)))
            λ l hl.
              Gives-bind (λ (r : List F × Bool). HasLength 8 r.0) _
                (sanitize_pose_8d fl (drop 8 p) (some (drop 8 q))) _
                (sanitize_pose_8d-Gives (drop 8 p) (drop 8 q) (omega (arith, length-drop 8 p))
                  (omega (arith, length-drop 8 q)))
                λ r hr. omega (arith, length-append l.0 r.0)

  -- A pose put together of three numbers, a normalized quaternion and the gripper.
  assemble-Gives :
      (op : F → F → F) (rotation x y : List F)
      → HasLength 4 rotation
      → HasLength 8 x
      → HasLength 8 y
      → Gives (HasLength 8) (do
        four ← normalize_quaternion fl rotation
        ok (zip_with op (slice 0 3 x) (slice 0 3 y) ++ (four ++ slice 7 8 x)))
  assemble-Gives op rotation x y h hx hy =
      Gives-bind (HasLength 4) _ (normalize_quaternion fl rotation) _
        (normalize_quaternion-Gives rotation h)
        λ four hr.
          length-append3 3 4 1 _ four _
            (omega (
              arith,
              length-zip_with op (slice 0 3 x) (slice 0 3 y),
              length-slice 0 3 x,
              length-slice 0 3 y,
            ))
            hr (slice-HasLength 8 7 8 x (omega arith) (omega arith) hx)

  relative-Gives :
      (rotate : List F → List F → List F) (op : F → F → F) (x y : List F)
      → ((a b : List F) → HasLength 4 (rotate a b))
      → HasLength 8 x
      → HasLength 8 y
      → Gives (HasLength 8) (do
        pose ← reshape 8 x
        anchor ← reshape 8 y
        rotation ← normalize_quaternion fl (slice 3 7 pose)
        anchor_rotation ← normalize_quaternion fl (slice 3 7 anchor)
        four ← normalize_quaternion fl (rotate anchor_rotation rotation)
        ok (zip_with op (slice 0 3 pose) (slice 0 3 anchor) ++ (four ++ slice 7 8 pose)))
  relative-Gives rotate op x y four hx hy =
      Gives-bind (HasLength 8) _ (reshape 8 x) _ (reshape-Gives 8 x hx) λ p hp.
        Gives-bind (HasLength 8) _ (reshape 8 y) _ (reshape-Gives 8 y hy) λ q hq.
          Gives-bind (HasLength 4) _ (normalize_quaternion fl (slice 3 7 p)) _
            (normalize_quaternion-Gives (slice 3 7 p)
              (slice-HasLength 8 3 7 p (omega arith) (omega arith) hp))
            λ a ha.
              Gives-bind (HasLength 4) _ (normalize_quaternion fl (slice 3 7 q)) _
                (normalize_quaternion-Gives (slice 3 7 q)
                  (slice-HasLength 8 3 7 q (omega arith) (omega arith) hq))
                λ b hb. assemble-Gives op (rotate b a) p q (four b a) hp hq

  module _ (laws : QuaternionLaws fl) where
    pub compose_compact_relative_action-Gives :
        (x y : List F)
        → HasLength 16 x
        → HasLength 16 y
        → Gives (HasLength 16) (compose_compact_relative_action fl x y)
    unfolding compose_compact_relative_action compose_relative_pose
    compose_compact_relative_action-Gives x y hx hy =
        both_arms-Gives (compose_relative_pose fl) x y
          (λ p q. relative-Gives fl.rotate fl.plus p q laws.length-rotate) hx hy

    pub absolute_to_relative_compact_action-Gives :
        (x y : List F)
        → HasLength 16 x
        → HasLength 16 y
        → Gives (HasLength 16) (absolute_to_relative_compact_action fl x y)
    unfolding absolute_to_relative_compact_action absolute_to_relative_pose
    absolute_to_relative_compact_action-Gives x y hx hy =
        both_arms-Gives (absolute_to_relative_pose fl) x y
          (λ p q. relative-Gives fl.rotate_back fl.minus p q laws.length-rotate_back) hx hy

    pub rebase_compact_relative_action-Gives :
        (x y : List F)
        → HasLength 16 x
        → HasLength 16 y
        → Gives (HasLength 16) (rebase_compact_relative_action fl x y)
    unfolding rebase_compact_relative_action rebase_relative_pose
    rebase_compact_relative_action-Gives x y hx hy =
        both_arms-Gives (rebase_relative_pose fl) x y
          (λ p q. relative-Gives fl.rotate_back fl.minus p q laws.length-rotate_back) hx hy
