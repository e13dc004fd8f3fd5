-- ===== src/RobotTwin/Stabilizing.antt =====
-- The corrections of a predicted action (elefant/evaluation/robotwin/server.py) never fail, and
-- give an action of every channel and an absolute one for both arms.
use p2p_rdt.Common.{
  Bool, not, List, Option, none, some, arith, length-map, map, Bool-cases, inl, inr, if◌then◌else◌,
}
use p2p_rdt.Common.Results.{Gives, Gives-bind, ok}
use p2p_rdt.RobotTwin.Adapter.{
  normalize_action, denormalize, compact_to_full_action, to_compact_execution_action,
}
use p2p_rdt.RobotTwin.Channels.{
  IsAdapter, normalize_action-Gives, denormalize-Gives, compact_to_full_action-Gives,
  to_compact_execution_action-Gives,
}
use p2p_rdt.RobotTwin.Floats.{Floats, all_finite, zero_float}
use p2p_rdt.RobotTwin.Lengths.{
  HasLength, QuaternionLaws, sanitize_compact_pose_16d-Gives,
  absolute_to_relative_compact_action-Gives, compose_compact_relative_action-Gives,
}
use p2p_rdt.RobotTwin.Pose.{
  sanitize_compact_pose_16d, absolute_to_relative_compact_action, compose_compact_relative_action,
  smooth_absolute_compact_action,
}
use p2p_rdt.RobotTwin.Rebasing.{HasPrevious}
use p2p_rdt.RobotTwin.Sequence.{Config}
use p2p_rdt.RobotTwin.Smoothing.{smooth_absolute_compact_action-Gives}
use p2p_rdt.RobotTwin.Step.{
  Candidate, encode_compact, with_absolute, sanitize_action, smooth_action,
  stabilize_normalized_action,
}

module _ {F Frame Text : Type 0} (fl : Floats F) (laws : QuaternionLaws fl)
    (c : Config F Frame Text) (is : IsAdapter c.action_adapter) where
  abbrev Full : List F → Type 0
  Full = HasLength c.action_adapter.robot_action_dim

  abbrev IsCandidate : Candidate F → Type 0
  IsCandidate k = Full k.normalized × Full k.full × HasLength 16 k.absolute

  encode_compact-Gives :
      (compact template : List F)
      → HasLength 16 compact
      → Full template
      → Gives (λ (r : List F × List F). Full r.0 × Full r.1) (encode_compact fl c compact template)
  unfolding encode_compact
  encode_compact-Gives compact template hc ht =
      Gives-bind Full _ (compact_to_full_action fl c.action_adapter compact (some template)) _
        (compact_to_full_action-Gives fl c.action_adapter is compact template hc ht)
        λ full hf.
          Gives-bind Full _ (normalize_action fl c.action_adapter full) _
            (normalize_action-Gives fl c.action_adapter is full hf) λ normalized hn. (hf, hn)

  with_absolute-Gives :
      (k : Candidate F) (absolute anchor : List F)
      → Full k.full
      → HasLength 16 absolute
      → HasLength 16 anchor
      → Gives IsCandidate (with_absolute fl c k absolute anchor)
  unfolding with_absolute
  with_absolute-Gives k absolute anchor hk ha hb =
      Gives-bind (HasLength 16) _ (absolute_to_relative_compact_action fl absolute anchor) _
        (absolute_to_relative_compact_action-Gives fl laws absolute anchor ha hb)
        λ compact hc.
          Gives-bind (λ (r : List F × List F). Full r.0 × Full r.1) _
            (encode_compact fl c compact k.full) _ (encode_compact-Gives compact k.full hc hk)
            λ r hr. (hr.1, hr.0, ha)

  abbrev finite_action : List F → List F
  finite_action predicted =
      if not (all_finite fl predicted) then map fl.nan_to_num predicted else predicted

  length-finite_action : (predicted : List F) → Full predicted → Full (finite_action predicted)
  length-finite_action predicted h = ground (arith, length-map predicted fl.nan_to_num)

  sanitize_action-Gives :
      (predicted anchor pose : List F)
      → Full predicted
      → HasLength 16 anchor
      → HasLength 16 pose
      → Gives IsCandidate (sanitize_action fl c predicted anchor pose)
  unfolding sanitize_action
  sanitize_action-Gives predicted anchor pose h ha hp =
      let finite = finite_action predicted in
      let hfin = length-finite_action predicted h in
      Gives-bind Full _ (denormalize fl c.action_adapter finite) _
        (denormalize-Gives fl c.action_adapter is finite hfin)
        λ full hf.
          Gives-bind (HasLength 16) _ (to_compact_execution_action fl c.action_adapter full) _
            (to_compact_execution_action-Gives fl c.action_adapter is full hf)
            λ compact hc.
              Gives-bind (HasLength 16) _ (absolute_to_relative_compact_action fl pose anchor) _
                (absolute_to_relative_compact_action-Gives fl laws pose anchor hp ha)
                λ fallback hb.
                  Gives-bind (λ (r : List F × Bool). HasLength 16 r.0) _
                    (sanitize_compact_pose_16d fl compact (some fallback)) _
                    (sanitize_compact_pose_16d-Gives fl compact fallback hc hb)
                    λ r hr.
                      Gives-bind (λ (q : List F × List F). Full q.0 × Full q.1) _
                        (if r.1 then encode_compact fl c r.0 full else ok (full, finite)) _
                        (elim (Bool-cases r.1) [
                          | inl changed ↦ rw changed (encode_compact-Gives r.0 full hr hf)
                          | inr kept ↦ rw kept (hf, hfin)
                        ])
                        λ q hq.
                          Gives-bind (HasLength 16) _
                            (compose_compact_relative_action fl r.0 anchor) _
                            (compose_compact_relative_action-Gives fl laws r.0 anchor hr ha)
                            λ composed hm.
                              Gives-bind (λ (s : List F × Bool). HasLength 16 s.0) _
                                (sanitize_compact_pose_16d fl composed (some pose)) _
                                (sanitize_compact_pose_16d-Gives fl composed pose hm hp)
                                λ s hs.
                                  let k : Candidate F = record {
                                    normalized = q.1;
                                    full = q.0;
                                    absolute = s.0;
                                  } in
                                  elim (Bool-cases s.1) [
                                    | inl changed ↦
                                        rw changed (with_absolute-Gives k s.0 anchor hq.0 hs ha)
                                    | inr kept ↦ rw kept (hq.1, hq.0, hs)
                                  ]

  smooth_action-Gives :
      (previous : Option (List F)) (k : Candidate F) (anchor : List F)
      → HasPrevious previous
      → IsCandidate k
      → HasLength 16 anchor
      → Gives IsCandidate (smooth_action fl c previous k anchor)
  unfolding smooth_action
  smooth_action-Gives none k anchor hp hk ha = hk
  smooth_action-Gives (some previous) k anchor hp hk ha =
      elim (Bool-cases (fl.less (zero_float fl) c.action_smoothing_alpha)) [
        | inr off ↦ rw off hk
        | inl on ↦ rw on (
            Gives-bind (HasLength 16) _
              (smooth_absolute_compact_action fl previous k.absolute c.action_smoothing_alpha) _
              (smooth_absolute_compact_action-Gives fl previous k.absolute c.action_smoothing_alpha
                hp hk.2)
              (λ smoothed hs. with_absolute-Gives k smoothed anchor hk.1 hs ha))
      ]

  pub stabilize_normalized_action-Gives :
      (previous : Option (List F)) (predicted anchor pose : List F)
      → HasPrevious previous
      → HasLength c.action_adapter.robot_action_dim predicted
      → HasLength 16 anchor
      → HasLength 16 pose
      → Gives
          (λ (r : List F × List F).
            HasLength c.action_adapter.robot_action_dim r.0 × HasLength 16 r.1)
          (stabilize_normalized_action fl c previous predicted anchor pose)
  unfolding stabilize_normalized_action
  stabilize_normalized_action-Gives previous predicted anchor pose hv h ha hp =
      Gives-bind IsCandidate _ (sanitize_action fl c predicted anchor pose) _
        (sanitize_action-Gives predicted anchor pose h ha hp)
        λ k hk.
          Gives-bind IsCandidate _ (smooth_action fl c previous k anchor) _
            (smooth_action-Gives previous k anchor hv hk ha) λ s hs. (hs.0, hs.2)
