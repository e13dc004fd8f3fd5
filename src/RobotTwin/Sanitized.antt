-- ===== src/RobotTwin/Sanitized.antt =====
-- A sanitized pose has only finite numbers (elefant/evaluation/robotwin/common.py).
use p2p_rdt.Common.{
  ℕ, zero, suc, ◌≤◌, length-append, drop-drop, take_of_length-le, ◌-◌, ◌≡◌, refl, Bool, true, false,
  ◌||◌, List, [], ◌∷◌, ◌++◌, some, arith, map, all, slice, take, drop, Bool-cases, inl, inr,
  length-take, length-drop, take-append-drop,
}
use p2p_rdt.Common.Results.{Gives, Gives-bind, Gives-ok, ok}
use p2p_rdt.RobotTwin.Floats.{Floats, zero_float, one_float, all_finite}
use p2p_rdt.RobotTwin.Lengths.{
  HasLength, length-normalize, length-append3, reshape_lem, slice-HasLength,
}
use p2p_rdt.RobotTwin.Pose.{
  identity_quaternion, normalize, normalize_quaternion, quat_is_invalid, finite_or,
  sanitize_quaternion, sanitize_pose_8d, sanitize_compact_pose_16d,
}

or-false : (a b : Bool) → (a || b) ≡ false → (a ≡ false) × (b ≡ false)
or-false false b h = (refl, h)
or-false true b h = absurd (cc)

-- What the floats of IEEE 754 satisfy: 0 and 1 are finite, and a finite number of a finite
-- quaternion divided by its norm, when that is finite and not tiny, is finite.
pub record FiniteLaws {F : Type 0} (fl : Floats F) : Type 0 where
  pub zero_finite : fl.isfinite (zero_float fl) ≡ true
  pub one_finite : fl.isfinite (one_float fl) ≡ true
  pub over_norm :
      (quat : List F)
      → all_finite fl quat ≡ true
      → fl.isfinite (fl.norm quat) ≡ true
      → fl.less (fl.norm quat) (fl.float 1 100000000) ≡ false
      → all_finite fl (map (λ x. fl.over x (fl.norm quat)) quat) ≡ true

module _ {A : Type 0} where
  all-append :
      (p : A → Bool) (xs ys : List A) → all p xs ≡ true → all p ys ≡ true → all p (xs ++ ys) ≡ true
  all-append p [] ys hx hy = hy
  all-append p (x ∷ xs) ys hx hy = ground (arith, all-append p xs ys)

  all-take : (p : A → Bool) (n : ℕ) (xs : List A) → all p xs ≡ true → all p (take n xs) ≡ true
  all-take p zero xs h = refl
  all-take p (suc n) [] h = refl
  all-take p (suc n) (x ∷ xs) h = ground (arith, all-take p n xs)

  all-drop : (p : A → Bool) (n : ℕ) (xs : List A) → all p xs ≡ true → all p (drop n xs) ≡ true
  all-drop p zero xs h = h
  all-drop p (suc n) [] h = refl
  all-drop p (suc n) (x ∷ xs) h = all-drop p n xs (ground arith)

  all-slice : (p : A → Bool) (i j : ℕ) (xs : List A) → all p xs ≡ true → all p (slice i j xs) ≡ true
  all-slice p i j xs h = all-take p (j - i) (drop i xs) (all-drop p i xs h)

  -- The three parts of a pose make the pose.
  slices-append :
      (xs : List A) → HasLength 8 xs → slice 0 3 xs ++ (slice 3 7 xs ++ slice 7 8 xs) ≡ xs
  slices-append xs h =
      let tail : take 1 (drop 7 xs) ≡ drop 7 xs =
        take_of_length-le 1 (drop 7 xs) (omega (arith, length-drop 7 xs)) in
      rw (tail, ← drop-drop 4 3 xs, take-append-drop 4 (drop 3 xs)) (take-append-drop 3 xs)

  -- What comes of an array: as many numbers, all that `p` asks, and unchanged unless it is said.
  abbrev pub Clean : (A → Bool) → ℕ → List A → List A × Bool → Type 0
  Clean p n before r = HasLength n r.0 × (all p r.0 ≡ true) × (r.1 ≡ false → r.0 ≡ before)

module _ {F : Type 0} (fl : Floats F) (laws : FiniteLaws fl) where
  normalize-finite : (quat : List F) → all_finite fl (normalize fl quat) ≡ true
  unfolding normalize identity_quaternion
  normalize-finite quat = elim (Bool-cases (all_finite fl quat)) [
    | inr bad ↦ rw (bad, laws.zero_finite, laws.one_finite) refl
    | inl good ↦ elim (Bool-cases (fl.isfinite (fl.norm quat))) [
      | inr infinite ↦ rw (good, infinite, laws.zero_finite, laws.one_finite) refl
      | inl finite ↦ elim (Bool-cases (fl.less (fl.norm quat) (fl.float 1 100000000))) [
        | inl tiny ↦ rw (good, finite, tiny, laws.zero_finite, laws.one_finite) refl
        | inr fine ↦ rw (good, finite, fine) (laws.over_norm quat good finite fine)
      ]
    ]
  ]

  sanitize_quaternion-Clean :
      (quat fallback : List F)
      → HasLength 4 quat
      → HasLength 4 fallback
      → Gives (Clean fl.isfinite 4 quat) (sanitize_quaternion fl quat fallback)
  unfolding sanitize_quaternion normalize_quaternion quat_is_invalid
  sanitize_quaternion-Clean quat fallback h hf = elim (Bool-cases (quat_is_invalid fl quat)) [
    | inl bad ↦
        rw (bad, reshape_lem 4 fallback hf)
          (length-normalize fl fallback hf, normalize-finite fallback, λ e. absurd (cc))
    | inr good ↦
        let finite : all_finite fl quat ≡ true = ground (arith, good) in
        rw (good, reshape_lem 4 quat h)
          (elim (Bool-cases (fl.allclose (normalize fl quat) quat)) [
            | inl close ↦ rw close (h, finite, λ e. refl)
            | inr far ↦ rw far (length-normalize fl quat h, normalize-finite quat, λ e. absurd (cc))
          ])
  ]

  finite_or-Clean :
      (n : ℕ) (part fallback : List F)
      → HasLength n part
      → HasLength n fallback
      → all_finite fl fallback ≡ true
      → Clean fl.isfinite n part (finite_or fl part fallback)
  unfolding finite_or
  finite_or-Clean n part fallback h hf finite = elim (Bool-cases (all_finite fl part)) [
    | inl good ↦ rw good (h, good, λ e. refl)
    | inr bad ↦ rw bad (hf, finite, λ e. absurd (cc))
  ]

  sanitize_pose_8d-Clean :
      (pose fallback : List F)
      → HasLength 8 pose
      → HasLength 8 fallback
      → all_finite fl fallback ≡ true
      → Gives (Clean fl.isfinite 8 pose) (sanitize_pose_8d fl pose (some fallback))
  unfolding sanitize_pose_8d
  sanitize_pose_8d-Clean pose fallback h hf finite =
      let part : (i j : ℕ)
          → j ≤ 8
          → i ≤ j
          → Clean fl.isfinite (j - i) (slice i j pose)
              (finite_or fl (slice i j pose) (slice i j fallback)) =
        λ i j le below.
          finite_or-Clean (j - i) (slice i j pose) (slice i j fallback)
            (slice-HasLength 8 i j pose le below h) (slice-HasLength 8 i j fallback le below hf)
            (all-slice fl.isfinite i j fallback finite) in
      let t = part 0 3 (omega arith) (omega arith) in
      let g = part 7 8 (omega arith) (omega arith) in
      rw (reshape_lem 8 pose h, reshape_lem 8 fallback hf)
        (Gives-bind (Clean fl.isfinite 4 (slice 3 7 pose)) _
          (sanitize_quaternion fl (slice 3 7 pose) (slice 3 7 fallback)) _
          (sanitize_quaternion-Clean (slice 3 7 pose) (slice 3 7 fallback)
            (slice-HasLength 8 3 7 pose (omega arith) (omega arith) h)
            (slice-HasLength 8 3 7 fallback (omega arith) (omega arith) hf))
          λ r hr. (
            length-append3 3 4 1 _ r.0 _ t.0 hr.0 g.0,
            all-append fl.isfinite _ _ t.1 (all-append fl.isfinite r.0 _ hr.1 g.1),
            λ e.
                let (moved, rest) = or-false _ _ e in
                let (turned, gripped) = or-false r.1 _ rest in
                rw (t.2 moved, hr.2 turned, g.2 gripped) (slices-append pose h),
          ))

  -- Floats keep the finite ones closed under the division by a norm, and the fallback is finite: a
  -- pose of 16 numbers is sanitized without an exception to 16 finite numbers, and when it is not
  -- reported as changed it is the pose itself.
  pub sanitize_compact_pose_16d_lem :
      (pose fallback : List F)
      → HasLength 16 pose
      → HasLength 16 fallback
      → all_finite fl fallback ≡ true
      → (clean : List F) × (changed : Bool) × (sanitize_compact_pose_16d fl pose (some fallback)
          ≡ ok (clean, changed))
        × HasLength 16 clean
        × (all_finite fl clean ≡ true)
        × (changed ≡ false → clean ≡ pose)
  unfolding sanitize_compact_pose_16d
  sanitize_compact_pose_16d_lem pose fallback h hf finite =
      let arm : (p f : List F)
          → HasLength 8 p
          → HasLength 8 f
          → all_finite fl f ≡ true
          → (r : List F × Bool) × (sanitize_pose_8d fl p (some f) ≡ ok r)
            × Clean fl.isfinite 8 p r =
        λ p f hp hg ff. Gives-ok (Clean fl.isfinite 8 p) _ (sanitize_pose_8d-Clean p f hp hg ff) in
      let (l, el, hl) =
        arm (take 8 pose) (take 8 fallback) (omega (arith, length-take 8 pose))
          (omega (arith, length-take 8 fallback)) (all-take fl.isfinite 8 fallback finite) in
      let (r, er, hr) =
        arm (drop 8 pose) (drop 8 fallback) (omega (arith, length-drop 8 pose))
          (omega (arith, length-drop 8 fallback)) (all-drop fl.isfinite 8 fallback finite) in
      (
        l.0 ++ r.0,
        l.1 || r.1,
        rw (reshape_lem 16 pose h, reshape_lem 16 fallback hf, el, er) refl,
        omega (arith, length-append l.0 r.0, hl.0, hr.0),
        all-append fl.isfinite l.0 r.0 hl.1 hr.1,
        λ e.
            let (left, right) = or-false l.1 r.1 e in
            rw (hl.2 left, hr.2 right) (take-append-drop 8 pose),
      )
