-- ===== src/RobotTwin/Observing.antt =====
-- What a step takes in (elefant/evaluation/robotwin/server.py): the latest frames and poses.
use p2p_rdt.Common.{
  ℕ, ◌+◌, ◌-◌, ◌≤◌, ◌<◌, ◌≡◌, refl, sym, ap, ◌∙◌, Bool, true, false, String, List, [], ◌∷◌, ◌++◌,
  Option, none, some, arith, length, min, drop, get_elem?, ltb, ltb→lt, if◌then◌else◌, Bool-cases,
  inl, inr, length-append, length-replicate, str_eq, All-append,
}
use p2p_rdt.Common.Results.{Gives, Gives-bind, or_raise, index_error}
use p2p_rdt.RobotTwin.Floats.{Floats}
use p2p_rdt.RobotTwin.Histories.{
  get-Gives, roll-Gives, rebase_action_history_legacy-Gives, rebase_action_history-Gives,
  roll_warm_start-Gives,
}
use p2p_rdt.RobotTwin.Lengths.{HasLength, QuaternionLaws}
use p2p_rdt.RobotTwin.Rebasing.{HasShape}
use p2p_rdt.RobotTwin.Rolling.{
  latest, assign_lem, assign_last-roll, Window-append, Window-roll, Window-first, All-set, All-drop,
  All-get,
}
use p2p_rdt.RobotTwin.Sequence.{
  Config, Frames, State, roll, update_text, ensure_frame_history, shape_eq, zero_last,
  rebase_action_history_after_roll_legacy, rebase_action_history_after_roll,
  roll_warm_start_predictions,
}
use p2p_rdt.RobotTwin.Steady.{IsConfig, HasPreds, Shows, ShowsFrames}
use p2p_rdt.RobotTwin.Step.{append_frame, rebase_after_roll, roll_frame, observe}

module _ {F Frame Text : Type 0} (fl : Floats F) (laws : QuaternionLaws fl)
    (c : Config F Frame Text) (fit : IsConfig c) where
  update_text-Shows :
      (sh : List ℕ) (s : State F Frame Text) (frames : List Frame) (poses : List (List F))
      (prompt : Option String) (text : Option Text)
      → Shows c sh s frames poses
      → Shows c sh (update_text fl c s prompt text) frames poses
  unfolding update_text
  update_text-Shows sh s frames poses prompt (some text) h = record {
    frame_history = h.frame_history;
    together = h.together;
    pose_history = h.pose_history;
    pose_size = h.pose_size;
    action_history = h.action_history;
    prev_action_preds = h.prev_action_preds;
    prev_executed = h.prev_executed;
  }
  update_text-Shows sh s frames poses none none h = h
  update_text-Shows sh s frames poses (some prompt) none h =
      elim (Bool-cases (str_eq prompt s.current_prompt)) [
        | inl same ↦ rw same h
        | inr other ↦ rw other (record {
          frame_history = h.frame_history;
          together = h.together;
          pose_history = h.pose_history;
          pose_size = h.pose_size;
          action_history = h.action_history;
          prev_action_preds = h.prev_action_preds;
          prev_executed = h.prev_executed;
        })
      ]

  shape_eq_refl : (ns : List ℕ) → shape_eq fl c ns ns ≡ true
  shape_eq_refl [] = refl
  shape_eq_refl (n ∷ ns) = ground (arith, shape_eq_refl ns)

  ensure_frame_history-Shows :
      (frame : Frame) (n : ℕ) (history : Option (Frames Frame)) (frames : List Frame)
      → n ≡ min (length frames) c.seq_len
      → ShowsFrames c (c.shape frame) n history frames
      → ShowsFrames c (c.shape frame) n (some (ensure_frame_history fl c history frame)) frames
  unfolding ensure_frame_history
  ensure_frame_history-Shows frame n none frames count h =
      let none_yet : n ≡ 0 = omega (arith, count, ap length h) in
      let nothing : 0 - c.seq_len ≡ 0 = omega arith in
      rw h (
        refl,
        (
          length-replicate c.seq_len (c.zeros (c.shape frame)),
          omega arith,
          rw (none_yet, nothing) refl,
        ),
      )
  ensure_frame_history-Shows frame n (some history) frames count h =
      let same = shape_eq_refl (1 ∷ c.seq_len ∷ c.shape frame) in rw (h.0, same) (refl, h.1)

  -- The new state shows the frame and the pose too; the row that was written is the last of those
  -- in use, and the anchor is the oldest pose that is shown.
  abbrev pub Taken : List ℕ → List Frame → List (List F) → State F Frame Text × ℕ → Type 0
  Taken sh frames poses r =
      Shows c sh r.0 frames poses
      × (r.1 + 1 ≡ r.0.n_prior_frames)
      × (get_elem? (latest c.seq_len poses) 0 ≡ some r.0.anchor_pose_16d)
      × HasLength 16 r.0.anchor_pose_16d

  -- The same before the anchor is set.
  abbrev Moved : List ℕ → List Frame → List (List F) → State F Frame Text × ℕ → Type 0
  Moved sh frames poses r = Shows c sh r.0 frames poses × (r.1 + 1 ≡ r.0.n_prior_frames)

  append_frame-Gives :
      (sh : List ℕ) (s : State F Frame Text) (history : Frames Frame) (frames : List Frame)
      (poses : List (List F)) (frame : Frame) (pose : List F)
      → Shows c sh s frames poses
      → ShowsFrames c sh s.n_prior_frames (some history) frames
      → HasLength 16 pose
      → s.n_prior_frames < c.seq_len
      → Gives
          (Moved sh (frames ++ (frame ∷ [])) (poses ++ (pose ∷ [])))
          (append_frame fl c s history frame pose)
  unfolding append_frame
  append_frame-Gives sh s history frames poses frame pose h hf hp lt =
      rw
        (
          assign_lem history.rows s.n_prior_frames frame (omega (arith, hf.1.0)),
          assign_lem s.pose_history s.n_prior_frames pose (omega (arith, h.pose_history.0)),
        )
        (
          record {
            frame_history =
                (hf.0, Window-append c.seq_len s.n_prior_frames history.rows frames frame lt hf.1);
            together = omega (
              arith,
              h.together,
              length-append frames (frame ∷ []),
              length-append poses (pose ∷ []),
            );
            pose_history =
                Window-append c.seq_len s.n_prior_frames s.pose_history poses pose lt
                  h.pose_history;
            pose_size = All-set (HasLength 16) s.pose_history s.n_prior_frames pose hp h.pose_size;
            action_history = h.action_history;
            prev_action_preds = h.prev_action_preds;
            prev_executed = h.prev_executed;
          },
          refl,
        )

  rebase_after_roll-Gives :
      (legacy : Bool) (sh : List ℕ) (s : State F Frame Text) (frames : List Frame)
      (poses : List (List F)) (previous : List F)
      → Shows c sh s frames poses
      → c.seq_len ≤ s.n_prior_frames
      → HasLength 16 previous
      → Gives (Moved sh frames poses) (rebase_after_roll fl c legacy s previous)
  unfolding rebase_after_roll
  rebase_after_roll-Gives true sh s frames poses previous h full hv =
      Gives-bind (HasShape c.seq_len c.action_adapter.robot_action_dim) _
        (rebase_action_history_after_roll_legacy fl c s.action_history) _
        (rebase_action_history_legacy-Gives fl laws c fit s.action_history h.action_history)
        λ rebased hr. (
          record {
            frame_history = h.frame_history;
            together = h.together;
            pose_history = h.pose_history;
            pose_size = h.pose_size;
            action_history = hr;
            prev_action_preds = h.prev_action_preds;
            prev_executed = h.prev_executed;
          },
          omega (arith, fit.positive, h.pose_history.1),
        )
  rebase_after_roll-Gives false sh s frames poses previous h full hv =
      Gives-bind (HasLength 16) _ (or_raise (get_elem? s.pose_history 0) index_error) _
        (get-Gives c.seq_len 16 0 s.pose_history (h.pose_history.0, h.pose_size) fit.positive)
        λ new hn.
          Gives-bind (HasShape c.seq_len c.action_adapter.robot_action_dim) _
            (rebase_action_history_after_roll fl c s.action_history previous new) _
            (rebase_action_history-Gives fl laws c fit s.action_history previous new
              h.action_history hv hn)
            λ rebased hr.
              Gives-bind (HasPreds c) _
                (roll_warm_start_predictions fl c s.prev_action_preds previous new) _
                (roll_warm_start-Gives fl laws c fit s.prev_action_preds previous new
                  h.prev_action_preds hv hn)
                λ preds hq. (
                  record {
                    frame_history = h.frame_history;
                    together = h.together;
                    pose_history = h.pose_history;
                    pose_size = h.pose_size;
                    action_history = hr;
                    prev_action_preds = hq;
                    prev_executed = h.prev_executed;
                  },
                  omega (arith, fit.positive, h.pose_history.1),
                )

  roll_frame-Gives :
      (sh : List ℕ) (s : State F Frame Text) (history : Frames Frame) (frames : List Frame)
      (poses : List (List F)) (frame : Frame) (pose : List F)
      → Shows c sh s frames poses
      → ShowsFrames c sh s.n_prior_frames (some history) frames
      → HasLength 16 pose
      → c.seq_len ≤ s.n_prior_frames
      → Gives
          (Moved sh (frames ++ (frame ∷ [])) (poses ++ (pose ∷ [])))
          (roll_frame fl c s history frame pose)
  unfolding roll_frame
  roll_frame-Gives sh s history frames poses frame pose h hf hp full =
      Gives-bind (HasLength 16) _ (or_raise (get_elem? s.pose_history 0) index_error) _
        (get-Gives c.seq_len 16 0 s.pose_history (h.pose_history.0, h.pose_size) fit.positive)
        λ previous hv.
          rw
            (
              assign_last-roll history.rows frame (omega (arith, hf.1.0, fit.positive)),
              assign_last-roll s.pose_history pose (omega (arith, h.pose_history.0, fit.positive)),
            )
            (Gives-bind (HasShape c.seq_len c.action_adapter.robot_action_dim) _
              (zero_last fl c (roll s.action_history)) _
              (roll-Gives fl laws c fit s.action_history h.action_history)
              λ actions ha.
                rebase_after_roll-Gives c.legacy_inference sh _ (frames ++ (frame ∷ []))
                  (poses ++ (pose ∷ [])) previous
                  (record {
                    frame_history = (
                      hf.0,
                      Window-roll c.seq_len s.n_prior_frames history.rows frames frame fit.positive
                          full hf.1,
                    );
                    together = omega (
                      arith,
                      h.together,
                      length-append frames (frame ∷ []),
                      length-append poses (pose ∷ []),
                    );
                    pose_history =
                        Window-roll c.seq_len s.n_prior_frames s.pose_history poses pose
                          fit.positive full h.pose_history;
                    pose_size =
                        All-append (HasLength 16) (drop 1 s.pose_history) (pose ∷ [])
                          (All-drop (HasLength 16) s.pose_history 1 h.pose_size) (hp, tt);
                    action_history = ha;
                    prev_action_preds = h.prev_action_preds;
                    prev_executed = h.prev_executed;
                  })
                  full hv)

  pub observe-Gives :
      (s : State F Frame Text) (frames : List Frame) (poses : List (List F)) (frame : Frame)
      (pose : List F) (prompt : Option String) (text : Option Text)
      → Shows c (c.shape frame) s frames poses
      → HasLength 16 pose
      → Gives
          (Taken (c.shape frame) (frames ++ (frame ∷ [])) (poses ++ (pose ∷ [])))
          (observe fl c s frame pose prompt text)
  unfolding observe
  observe-Gives s frames poses frame pose prompt text h hp =
      let sh = c.shape frame in
      let told = update_text fl c s prompt text in
      let ht = update_text-Shows sh s frames poses prompt text h in
      let history = ensure_frame_history fl c told.frame_history frame in
      let hf =
        ensure_frame_history-Shows frame told.n_prior_frames told.frame_history frames
          (omega (arith, ht.pose_history.1, ht.together)) ht.frame_history in
      Gives-bind (Moved sh (frames ++ (frame ∷ [])) (poses ++ (pose ∷ []))) _
        (if ltb told.n_prior_frames c.seq_len
          then append_frame fl c told history frame pose
          else roll_frame fl c told history frame pose)
        _
        (elim (Bool-cases (ltb told.n_prior_frames c.seq_len)) [
          | inl room ↦ rw room (
              append_frame-Gives sh told history frames poses frame pose ht hf hp (ltb→lt _ _ room))
          | inr full ↦
              rw full
                (roll_frame-Gives sh told history frames poses frame pose ht hf hp (ground arith))
        ])
        λ r hr.
          let (anchor, e, ha) =
            All-get (HasLength 16) r.0.pose_history 0
              (omega (arith, hr.0.pose_history.0, fit.positive)) hr.0.pose_size in
          rw e (
            record {
              frame_history = hr.0.frame_history;
              together = hr.0.together;
              pose_history = hr.0.pose_history;
              pose_size = hr.0.pose_size;
              action_history = hr.0.action_history;
              prev_action_preds = hr.0.prev_action_preds;
              prev_executed = hr.0.prev_executed;
            },
            hr.1,
            sym (
                  Window-first c.seq_len r.0.n_prior_frames r.0.pose_history (poses ++ (pose ∷ []))
                    (omega (arith, hr.1)) hr.0.pose_history)
                ∙ e,
            ha,
          )
