-- ===== src/RobotTwin/Episode.antt =====
-- Whole episodes of the policy (elefant/evaluation/robotwin/server.py): a step fails only
-- where the network does, and the state shows the latest frames and poses.
use mathlib.Core.List.{append_assoc, append-nil}
use p2p_rdt.Common.{
  ℕ, zero, suc, ◌-◌, ◌<◌, ◌≡◌, ◌⊎◌, ◌==◌, refl, sym, ap, ◌∙◌, Bool, String, List, [], ◌∷◌, ◌++◌,
  Option, none, some, arith, length, map, replicate, get_elem?, All, Bool-cases, inl, inr,
  length-append, length-replicate, if◌then◌else◌,
}
use p2p_rdt.Common.Results.{
  Result, ok, raise, Error, ◌>>=◌, GivesOr, Gives-GivesOr, GivesOr-bind, GivesOr-cases,
}
use p2p_rdt.RobotTwin.Floats.{Floats, zero_float}
use p2p_rdt.RobotTwin.Lengths.{HasLength, QuaternionLaws, reshape_lem}
use p2p_rdt.RobotTwin.Observing.{Taken, observe-Gives}
use p2p_rdt.RobotTwin.Rolling.{latest, Window}
use p2p_rdt.RobotTwin.Sequence.{Config, Frames, State, Model, new, reset}
use p2p_rdt.RobotTwin.Steady.{IsConfig, Shows, ShowsFrames}
use p2p_rdt.RobotTwin.Step.{observe, frames_of, first_step, later_step, step}
use p2p_rdt.RobotTwin.Acting.{
  IsModel, Refuses, Acted, first_step-Gives, later_step-GivesOr, zero_rows-HasShape,
}

-- What a client sends for a step.
pub record Observation (F Frame Text : Type 0) : Type 0 where
  pub frame : Frame
  pub pose : List F
  pub prompt : Option String
  pub text : Option Text

module _ {F Frame Text : Type 0} (fl : Floats F) (laws : QuaternionLaws fl)
    (c : Config F Frame Text) (fit : IsConfig c) where
  -- What a step gives: a state that shows an episode, the oldest pose that it shows as the anchor,
  -- with its 16 numbers, and an action of every channel.
  abbrev pub Stepped :
      List ℕ → List Frame → List (List F) → State F Frame Text × List F × List F → Type 0
  Stepped sh frames poses r =
      Shows c sh r.0 frames poses
      × (get_elem? (latest c.seq_len poses) 0 ≡ some r.2)
      × HasLength c.action_adapter.robot_action_dim r.1
      × HasLength 16 r.2

  frames-length :
      (sh : List ℕ) (n : ℕ) (history : Option (Frames Frame)) (frames : List Frame)
      → ShowsFrames c sh n history frames
      → 0 < length frames
      → length (frames_of fl c history) ≡ c.seq_len
  frames-length sh n none frames h more = absurd (omega (arith, ap length h))
  frames-length sh n (some history) frames h more = h.1.0

  -- When the settings fit the adapter, and the network's predictions and its draws have the right size: from any state that
  -- shows an episode, and for any frame of its shape and pose of 16 numbers, a step returns, or it raises an
  -- exception that the network raises when it is asked with histories and a sample of the right size. If it
  -- returns, the new state shows the episode with the frame and the pose added, that is the
  -- latest `seq_len` frames and poses in order, the anchor that is returned is the oldest of
  -- these poses, and the action has a number for every channel.
  pub step_lem :
      (m : Model F Frame Text) (s : State F Frame Text) (frames : List Frame)
      (poses : List (List F)) (frame : Frame) (pose : List F) (prompt : Option String)
      (text : Option Text)
      → IsModel c m
      → Shows c (c.shape frame) s frames poses
      → HasLength 16 pose
      → GivesOr
          (Refuses c m)
          (Stepped (c.shape frame) (frames ++ (frame ∷ [])) (poses ++ (pose ∷ [])))
          (step fl c m s frame pose prompt text)
  unfolding step
  step_lem m s frames poses frame pose prompt text good h hp =
      let sh = c.shape frame in
      let frames' = frames ++ (frame ∷ []) in
      let poses' = poses ++ (pose ∷ []) in
      rw (step, reshape_lem 16 pose hp)
        (GivesOr-bind (Refuses c m) (Taken fl laws c fit sh frames' poses') _
          (observe fl c s frame pose prompt text) _
          (Gives-GivesOr (Refuses c m) (Taken fl laws c fit sh frames' poses')
            (observe fl c s frame pose prompt text)
            (observe-Gives fl laws c fit s frames poses frame pose prompt text h hp))
          λ r t.
            let more : 0 < length frames' = omega (arith, length-append frames (frame ∷ [])) in
            let lt : r.1 < c.seq_len = omega (arith, t.1, t.0.pose_history.1) in
            GivesOr-bind (Refuses c m) (Acted fl laws c fit r.0 sh frames' poses') _
              (if r.0.n_prior_frames == 1
                then first_step fl c r.0 pose r.1
                else later_step fl c m r.0 pose r.1)
              _
              (elim (Bool-cases (r.0.n_prior_frames == 1)) [
                | inl one ↦ rw one (
                    Gives-GivesOr (Refuses c m) (Acted fl laws c fit r.0 sh frames' poses')
                      (first_step fl c r.0 pose r.1)
                      (first_step-Gives fl laws c fit r.0 sh frames' poses' pose r.1 t.0 hp lt))
                | inr later ↦ rw later (
                    later_step-GivesOr fl laws c fit m r.0 sh frames' poses' pose r.1 good t.0
                      (frames-length sh r.0.n_prior_frames r.0.frame_history frames'
                        t.0.frame_history more)
                      t.3 hp lt)
              ])
              λ q hq. (hq.0, t.2 ∙ ap some (sym hq.1), hq.2, rw hq.1 t.3))

  Window-empty : (rows : List (List F)) → length rows ≡ c.seq_len → Window c.seq_len 0 rows []
  Window-empty rows h =
      let nothing : 0 - c.seq_len ≡ 0 = omega arith in (h, omega arith, rw nothing refl)

  -- Reset, whatever the episode before.
  pub reset-Shows :
      (sh sh' : List ℕ) (s : State F Frame Text) (frames : List Frame) (poses : List (List F))
      (prompt : Option String) (text : Option Text)
      → Shows c sh s frames poses
      → Shows c sh' (reset fl c s prompt text) [] []
  unfolding reset
  reset-Shows sh sh' s frames poses prompt text h =
      let zeros =
        zero_rows-HasShape fl c.seq_len 16 s.pose_history (h.pose_history.0, h.pose_size) in
      record {
        frame_history = refl;
        together = refl;
        pose_history = Window-empty _ zeros.0;
        pose_size = zeros.1;
        action_history =
            zero_rows-HasShape fl c.seq_len c.action_adapter.robot_action_dim s.action_history
              h.action_history;
        prev_action_preds = tt;
        prev_executed = tt;
      }

  All-replicate : (n k : ℕ) (row : List F) → HasLength n row → All (HasLength n) (replicate k row)
  All-replicate n zero row h = tt
  All-replicate n (suc k) row h = (h, All-replicate n k row h)

  pub new-Shows : (sh : List ℕ) (compile : Bool) → Shows c sh (new fl c compile) [] []
  unfolding new
  new-Shows sh compile = record {
    frame_history = refl;
    together = refl;
    pose_history = Window-empty _ (length-replicate c.seq_len (replicate 16 (zero_float fl)));
    pose_size = All-replicate 16 c.seq_len (replicate 16 (zero_float fl)) refl;
    action_history = (
      length-replicate c.seq_len (replicate c.action_dim (zero_float fl)),
      All-replicate c.action_adapter.robot_action_dim c.seq_len
          (replicate c.action_dim (zero_float fl))
          (length-replicate c.action_dim (zero_float fl) ∙ fit.action_dim),
    );
    prev_action_preds = tt;
    prev_executed = tt;
  }

  -- The steps of an episode, one after the other.
  abbrev pub run :
      Model F Frame Text
      → State F Frame Text
      → List (Observation F Frame Text)
      → Result (State F Frame Text)
  run m s [] = ok s
  run m s (o ∷ os) = do r ← step fl c m s o.frame o.pose o.prompt o.text; run m r.0 os

  -- Frames of one shape, and poses of 16 numbers.
  abbrev pub Fits : List ℕ → Observation F Frame Text → Type 0
  Fits sh o = (c.shape o.frame ≡ sh) × HasLength 16 o.pose

  abbrev pub frame_of : Observation F Frame Text → Frame
  frame_of o = o.frame

  abbrev pub pose_of : Observation F Frame Text → List F
  pose_of o = o.pose

  extend-Shows :
      (m : Model F Frame Text) (sh : List ℕ) (s : State F Frame Text) (frames : List Frame)
      (poses : List (List F)) (os : List (Observation F Frame Text))
      → IsModel c m
      → Shows c sh s frames poses
      → All (Fits sh) os
      → GivesOr
          (Refuses c m)
          (λ s'. Shows c sh s' (frames ++ map frame_of os) (poses ++ map pose_of os))
          (run m s os)
  extend-Shows m sh s frames poses [] good h fits = rw (append-nil frames, append-nil poses) h
  extend-Shows m sh s frames poses (o ∷ os) good h fits =
      GivesOr-bind (Refuses c m) (Stepped sh (frames ++ (o.frame ∷ [])) (poses ++ (o.pose ∷ []))) _
        (step fl c m s o.frame o.pose o.prompt o.text) _
        (rw (← fits.0.0)
          (step_lem m s frames poses o.frame o.pose o.prompt o.text good (rw fits.0.0 h) fits.0.1))
        λ r hr.
          rw
            (
              ← append_assoc frames (o.frame ∷ []) (map frame_of os),
              ← append_assoc poses (o.pose ∷ []) (map pose_of os),
            )
            (extend-Shows m sh r.0 (frames ++ (o.frame ∷ [])) (poses ++ (o.pose ∷ [])) os good hr.0
              fits.1)

  -- Whatever the episode before, and whatever the prompt: after a reset, a sequence of frames of one
  -- shape with poses of 16 numbers is taken in, and then the histories show
  -- the latest `seq_len` of exactly these frames and poses, in order; or a step raises an exception that the network
  -- raises when it is asked with histories and a sample of the right size, and no other exception is raised. This holds when the
  -- settings fit the adapter and the network's predictions and its draws have the right size.
  pub reset_run_lem :
      (m : Model F Frame Text) (sh sh' : List ℕ) (s : State F Frame Text) (frames : List Frame)
      (poses : List (List F)) (prompt : Option String) (text : Option Text)
      (os : List (Observation F Frame Text))
      → IsModel c m
      → Shows c sh' s frames poses
      → All (Fits sh) os
      → ((s' : State F Frame Text) × (run m (reset fl c s prompt text) os ≡ ok s')
          × Shows c sh s' (map frame_of os) (map pose_of os))
        ⊎ ((e : Error) × (run m (reset fl c s prompt text) os ≡ raise e) × Refuses c m e)
  reset_run_lem m sh sh' s frames poses prompt text os good h fits =
      GivesOr-cases (Refuses c m) (λ s'. Shows c sh s' (map frame_of os) (map pose_of os)) _
        (extend-Shows m sh (reset fl c s prompt text) [] [] os good
          (reset-Shows sh' sh s frames poses prompt text h) fits)
