-- ===== src/RobotTwin/Smoothing.antt =====
-- How many numbers the smoothing of actions gives (elefant/evaluation/robotwin/common.py).
use p2p_rdt.Common.{◌≡◌, List, arith, length, map, slice, Bool-cases, inl, inr, length-map}
use p2p_rdt.Common.Results.{Gives, Gives-bind}
use p2p_rdt.RobotTwin.Floats.{Floats, reshape, zip_with, zero_float, one_float, scale}
use p2p_rdt.RobotTwin.Lengths.{
  HasLength, reshape-Gives, length-zip_with, length-append3, slice-HasLength, both_arms-Gives,
  normalize_quaternion-Gives,
}
use p2p_rdt.RobotTwin.Pose.{
  normalize_quaternion, slerp, slerp_quaternion, blend_absolute_pose,
  smooth_absolute_compact_action,
}
use p2p_rdt.Common.{[], ◌∷◌, refl, ap, suc, ℕ}

module _ {F : Type 0} (fl : Floats F) where
  length-scale : (s : F) (xs : List F) → length (scale fl s xs) ≡ length xs
  length-scale s [] = refl
  length-scale s (x ∷ xs) = ap suc (length-scale s xs)

  -- A sum of two scaled arrays of the same length.
  length-blend :
      (n : ℕ) (s t : F) (xs ys : List F)
      → HasLength n xs
      → HasLength n ys
      → HasLength n (zip_with fl.plus (scale fl s xs) (scale fl t ys))
  length-blend n s t xs ys hx hy = omega (
    arith,
    length-zip_with fl.plus (scale fl s xs) (scale fl t ys),
    length-scale s xs,
    length-scale t ys,
  )

  slerp-Gives :
      (start end : List F) (product alpha : F)
      → HasLength 4 start
      → HasLength 4 end
      → Gives (HasLength 4) (slerp fl start end product alpha)
  unfolding slerp
  slerp-Gives start end product alpha hs he =
      elim (Bool-cases (
        fl.less (fl.float 9995 10000)
          (fl.clip product (fl.negated (one_float fl)) (one_float fl)))) [
            | inl close ↦ rw close (
                normalize_quaternion-Gives fl _
                  (length-blend 4 (fl.minus (one_float fl) alpha) alpha start end hs he))
            | inr far ↦
                rw far (normalize_quaternion-Gives fl _ (length-blend 4 _ _ start end hs he))
          ]

  slerp_quaternion-Gives :
      (start end : List F) (alpha : F)
      → HasLength 4 start
      → HasLength 4 end
      → Gives (HasLength 4) (slerp_quaternion fl start end alpha)
  unfolding slerp_quaternion
  slerp_quaternion-Gives start end alpha hs he =
      Gives-bind (HasLength 4) _ (normalize_quaternion fl start) _
        (normalize_quaternion-Gives fl start hs)
        λ p hp.
          Gives-bind (HasLength 4) _ (normalize_quaternion fl end) _
            (normalize_quaternion-Gives fl end he)
            λ q hq. elim (Bool-cases (fl.less (fl.dot p q) (zero_float fl))) [
              | inl opposite ↦ rw opposite (
                  slerp-Gives p (map fl.negated q) (fl.negated (fl.dot p q)) alpha hp
                    (omega (arith, length-map q fl.negated)))
              | inr same ↦ rw same (slerp-Gives p q (fl.dot p q) alpha hp hq)
            ]

  blend_absolute_pose-Gives :
      (alpha : F) (x y : List F)
      → HasLength 8 x
      → HasLength 8 y
      → Gives (HasLength 8) (blend_absolute_pose fl alpha x y)
  unfolding blend_absolute_pose
  blend_absolute_pose-Gives alpha x y hx hy =
      Gives-bind (HasLength 8) _ (reshape 8 x) _ (reshape-Gives 8 x hx) λ p hp.
        Gives-bind (HasLength 8) _ (reshape 8 y) _ (reshape-Gives 8 y hy) λ q hq.
          Gives-bind (HasLength 4) _ (slerp_quaternion fl (slice 3 7 p) (slice 3 7 q) alpha) _
            (slerp_quaternion-Gives (slice 3 7 p) (slice 3 7 q) alpha
              (slice-HasLength 8 3 7 p (omega arith) (omega arith) hp)
              (slice-HasLength 8 3 7 q (omega arith) (omega arith) hq))
            λ r hr.
              length-append3 3 4 1 _ r _
                (length-blend 3 (fl.minus (one_float fl) alpha) alpha (slice 0 3 p) (slice 0 3 q)
                  (slice-HasLength 8 0 3 p (omega arith) (omega arith) hp)
                  (slice-HasLength 8 0 3 q (omega arith) (omega arith) hq))
                hr
                (length-blend 1 (fl.minus (one_float fl) alpha) alpha (slice 7 8 p) (slice 7 8 q)
                  (slice-HasLength 8 7 8 p (omega arith) (omega arith) hp)
                  (slice-HasLength 8 7 8 q (omega arith) (omega arith) hq))

  pub smooth_absolute_compact_action-Gives :
      (x y : List F) (factor : F)
      → HasLength 16 x
      → HasLength 16 y
      → Gives (HasLength 16) (smooth_absolute_compact_action fl x y factor)
  unfolding smooth_absolute_compact_action
  smooth_absolute_compact_action-Gives x y factor hx hy =
      let alpha = fl.clip factor (zero_float fl) (one_float fl) in
      Gives-bind (HasLength 16) _ (reshape 16 x) _ (reshape-Gives 16 x hx) λ p hp.
        Gives-bind (HasLength 16) _ (reshape 16 y) _ (reshape-Gives 16 y hy) λ q hq.
          elim (Bool-cases (fl.less_equal alpha (zero_float fl))) [
            | inl low ↦ rw low hp
            | inr mid ↦ elim (Bool-cases (fl.less_equal (one_float fl) alpha)) [
              | inl high ↦ rw (mid, high) hq
              | inr between ↦
                  rw (mid, between)
                    (both_arms-Gives (blend_absolute_pose fl alpha) p q
                      (blend_absolute_pose-Gives alpha) hp hq)
            ]
          ]
