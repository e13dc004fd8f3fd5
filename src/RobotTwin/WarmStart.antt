-- ===== src/RobotTwin/WarmStart.antt =====
-- The sample that the next prediction starts from (elefant/evaluation/robotwin/server.py) has the size of
-- the predictions.
use p2p_rdt.Common.{
  ℕ, ◌-◌, ◌≡◌, refl, ◌∙◌, Bool-cases, inl, inr, List, [], ◌∷◌, Option, none, some, arith, length,
  if◌then◌else◌,
}
use p2p_rdt.RobotTwin.Floats.{Floats, zero_float, one_float, scale}
use p2p_rdt.RobotTwin.Lengths.{length-zip_with}
use p2p_rdt.RobotTwin.Rebasing.{HasShape}
use p2p_rdt.RobotTwin.Sequence.{Config, Model, scale_rows, add_rows, build_warm_start_sample}
use p2p_rdt.RobotTwin.Steady.{HasPreds}

module _ {F Frame Text : Type 0} (fl : Floats F) (c : Config F Frame Text) where
  length-scale : (s : F) (xs : List F) → length (scale fl s xs) ≡ length xs
  length-scale s [] = refl
  length-scale s (x ∷ xs) = omega (arith, length-scale s xs)

  scale_rows-HasShape :
      (k n : ℕ) (s : F) (rows : List (List F))
      → HasShape k n rows
      → HasShape k n (scale_rows fl c s rows)
  scale_rows-HasShape k n s [] h = h
  scale_rows-HasShape k n s (row ∷ rows) h =
      let rest = scale_rows-HasShape (k - 1) n s rows (omega (arith, h.0), h.1.1) in
      (omega (arith, h.0, rest.0), (length-scale s row ∙ h.1.0, rest.1))

  add_rows-HasShape :
      (k n : ℕ) (xs ys : List (List F))
      → HasShape k n xs
      → HasShape k n ys
      → HasShape k n (add_rows fl c xs ys)
  add_rows-HasShape k n [] ys hx hy = hx
  add_rows-HasShape k n (x ∷ xs) [] hx hy = absurd (omega (arith, hx.0, hy.0))
  add_rows-HasShape k n (x ∷ xs) (y ∷ ys) hx hy =
      let rest =
        add_rows-HasShape (k - 1) n xs ys (omega (arith, hx.0), hx.1.1)
          (omega (arith, hy.0), hy.1.1) in
      (
        omega (arith, hx.0, rest.0),
        (omega (arith, length-zip_with fl.plus x y, hx.1.0, hy.1.0), rest.1),
      )

  abbrev Actions : List (List F) → Type 0
  Actions = HasShape c.seq_len c.action_adapter.robot_action_dim

  pub build_warm_start_sample-HasPreds :
      (m : Model F Frame Text) (preds : Option (List (List F)))
      → ((rows : List (List F)) → Actions rows → Actions (m.randn_first rows))
      → ((rows : List (List F)) → Actions rows → Actions (m.randn_second rows))
      → HasPreds c preds
      → HasPreds c (build_warm_start_sample fl c m preds)
  unfolding build_warm_start_sample
  build_warm_start_sample-HasPreds m none first second h = tt
  build_warm_start_sample-HasPreds m (some preds) first second h =
      let k = c.seq_len in
      let n = c.action_adapter.robot_action_dim in
      let blend = c.warm_start_blend in
      let std = c.warm_start_noise_std in
      let rest = fl.minus (one_float fl) blend in
      let warm : List (List F) =
        if fl.less blend (one_float fl)
        then add_rows fl c (scale_rows fl c blend preds)
            (scale_rows fl c rest (m.randn_first preds))
        else preds in
      let hwarm : Actions warm = elim (Bool-cases (fl.less blend (one_float fl))) [
        | inl blended ↦ rw blended (
            add_rows-HasShape k n (scale_rows fl c blend preds)
              (scale_rows fl c rest (m.randn_first preds)) (scale_rows-HasShape k n blend preds h)
              (scale_rows-HasShape k n rest (m.randn_first preds) (first preds h)))
        | inr whole ↦ rw whole h
      ] in
      elim (Bool-cases (fl.less_equal blend (zero_float fl))) [
        | inl off ↦ rw off tt
        | inr on ↦ elim (Bool-cases (fl.less (zero_float fl) std)) [
          | inl noisy ↦
              rw (on, noisy)
                (add_rows-HasShape k n warm (scale_rows fl c std (m.randn_second warm)) hwarm
                  (scale_rows-HasShape k n std (m.randn_second warm) (second warm hwarm)))
          | inr still ↦ rw (on, still) hwarm
        ]
      ]
