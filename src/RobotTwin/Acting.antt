-- ===== src/RobotTwin/Acting.antt =====
-- What a step does with its frame (elefant/evaluation/robotwin/server.py) fails only where the network
-- does, and keeps the histories: the action of the first frame, and those that the network predicts.
use p2p_rdt.Common.{
  ℕ, ◌-◌, ◌<◌, ◌≡◌, refl, ◌∙◌, Bool, true, false, not, List, [], ◌∷◌, ◌++◌, Option, none, some,
  arith, length, map, all, slice, get_elem?, Bool-cases, inl, inr, length-append, length-slice,
  length-map, if◌then◌else◌,
}
use p2p_rdt.Common.Results.{
  Result, ok, raise, Error, Gives, GivesOr, Gives-GivesOr, GivesOr-bind, Gives-bind, or_raise,
  index_error,
}
use p2p_rdt.RobotTwin.Adapter.{compact_to_full_action}
use p2p_rdt.RobotTwin.Channels.{compact_to_zeros-Gives, normalize_action-Gives}
use p2p_rdt.RobotTwin.Floats.{Floats, reshape, zero_float, all_finite}
use p2p_rdt.RobotTwin.Histories.{get-Gives, assign-Gives}
use p2p_rdt.RobotTwin.Lengths.{HasLength, QuaternionLaws, reshape-Gives}
use p2p_rdt.RobotTwin.Memory.{ask_network_cases}
use p2p_rdt.RobotTwin.Rebasing.{HasShape, HasPrevious}
use p2p_rdt.RobotTwin.Sequence.{
  Config, State, Model, assign, identity_arm, identity_action, make_identity_relative_action,
  build_warm_start_sample,
}
use p2p_rdt.RobotTwin.Stabilizing.{stabilize_normalized_action-Gives}
use p2p_rdt.RobotTwin.WarmStart.{build_warm_start_sample-HasPreds}
use p2p_rdt.RobotTwin.Steady.{IsConfig, HasPreds, Shows}
use p2p_rdt.RobotTwin.Step.{
  frames_of, predict, first_step, act, later_step, stabilize_normalized_action,
}

module _ {F Frame Text : Type 0} (c : Config F Frame Text) where
  abbrev pub Actions : List (List F) → Type 0
  Actions = HasShape c.seq_len c.action_adapter.robot_action_dim

  -- What the network asserts before it returns: for histories and a sample of the right size, an action for
  -- each row; and that the draws of `torch.randn_like` have the size of what they are like.
  pub record IsModel (m : Model F Frame Text) : Type 0 where
    pub sized :
        (frames : List Frame) (actions : List (List F)) (text : Option Text)
        (initial : Option (List (List F))) (compile : Bool) (preds : List (List F))
        → length frames ≡ c.seq_len
        → Actions actions
        → HasPreds c initial
        → m.online_full_predict frames actions text initial compile ≡ ok preds
        → Actions preds
    pub randn_first : (rows : List (List F)) → Actions rows → Actions (m.randn_first rows)
    pub randn_second : (rows : List (List F)) → Actions rows → Actions (m.randn_second rows)

  -- The exceptions of the network, when it is asked with histories and a sample of the right size.
  abbrev pub Refuses : Model F Frame Text → Error → Type 0
  Refuses m e =
      (frames : List Frame) × (actions : List (List F)) × (text : Option Text) × (initial : Option
        (List (List F)))
      × (compile : Bool) × (length frames ≡ c.seq_len)
      × Actions actions
      × HasPreds c initial
      × (m.online_full_predict frames actions text initial compile ≡ raise e)

module _ {F : Type 0} (fl : Floats F) where
  length-finite_rows :
      (k n : ℕ) (rows : List (List F))
      → HasShape k n rows
      → HasShape k n (map (map fl.nan_to_num) rows)
  length-finite_rows k n [] h = h
  length-finite_rows k n (row ∷ rows) h =
      let rest = length-finite_rows (k - 1) n rows (omega (arith, h.0), h.1.1) in
      (omega (arith, h.0, rest.0), (length-map row fl.nan_to_num ∙ h.1.0, rest.1))

  pub zero_rows-HasShape :
      (k n : ℕ) (rows : List (List F))
      → HasShape k n rows
      → HasShape k n (map (map (λ x. zero_float fl)) rows)
  zero_rows-HasShape k n [] h = h
  zero_rows-HasShape k n (row ∷ rows) h =
      let rest = zero_rows-HasShape (k - 1) n rows (omega (arith, h.0), h.1.1) in
      (omega (arith, h.0, rest.0), (length-map row (λ x. zero_float fl) ∙ h.1.0, rest.1))

module _ {F Frame Text : Type 0} (fl : Floats F) (laws : QuaternionLaws fl)
    (c : Config F Frame Text) (fit : IsConfig c) where
  predict-GivesOr :
      (m : Model F Frame Text) (s : State F Frame Text)
      → IsModel c m
      → length (frames_of fl c s.frame_history) ≡ c.seq_len
      → Actions c s.action_history
      → HasPreds c s.prev_action_preds
      → GivesOr (Refuses c m) (λ (r : List (List F) × Bool). Actions c r.0) (predict fl c m s)
  unfolding predict
  predict-GivesOr m s good hf ha hp =
      let frames = frames_of fl c s.frame_history in
      let initial : Option (List (List F)) =
        if c.legacy_inference then none else build_warm_start_sample fl c m s.prev_action_preds in
      let hi : HasPreds c initial =
        sample c.legacy_inference (build_warm_start_sample fl c m s.prev_action_preds) (
          build_warm_start_sample-HasPreds fl c m s.prev_action_preds good.randn_first
            good.randn_second hp) in
      let ask : Bool → Result (List (List F)) =
        m.online_full_predict frames s.action_history s.text_tokens_embed initial in
      let refuses : (e : Error) (compile : Bool) → ask compile ≡ raise e → Refuses c m e =
        λ e compile h.
          (frames, s.action_history, s.text_tokens_embed, initial, compile, hf, ha, hi, h) in
      let sized = good.sized frames s.action_history s.text_tokens_embed initial in
      elim (ask_network_cases fl c c.device_is_cuda s.compile ask) [
        | inl (preds, h, e) ↦ rw e (sized s.compile preds hf ha hi h)
        | inr (inl (preds, compiled, cuda, oom, h, e)) ↦ rw e (sized false preds hf ha hi h)
        | inr (inr (e, raised, inl (h, why))) ↦ rw raised (refuses e s.compile h)
        | inr (inr (e, raised, inr (compiled, cuda, oom, h))) ↦ rw raised (refuses e false h)
      ]
    where
      sample :
          (legacy : Bool) (warm : Option (List (List F)))
          → HasPreds c warm
          → HasPreds c (if legacy then none else warm)
      sample true warm h = tt
      sample false warm h = h

  -- What an action leaves: the histories as they were, and an action of every channel.
  abbrev pub Acted :
      State F Frame Text
      → List ℕ
      → List Frame
      → List (List F)
      → State F Frame Text × List F
      → Type 0
  Acted s sh frames poses r =
      Shows c sh r.0 frames poses
      × (r.0.anchor_pose_16d ≡ s.anchor_pose_16d)
      × HasLength c.action_adapter.robot_action_dim r.1

  act-Gives :
      (legacy : Bool) (s : State F Frame Text) (sh : List ℕ) (frames : List Frame)
      (poses : List (List F)) (pose : List F) (i : ℕ) (preds : List (List F))
      → Shows c sh s frames poses
      → HasLength 16 s.anchor_pose_16d
      → HasLength 16 pose
      → i < c.seq_len
      → Actions c preds
      → Gives (Acted s sh frames poses) (act fl c legacy s pose i preds)
  unfolding act
  act-Gives true s sh frames poses pose i preds h ha hp lt hpr =
      let dim = c.action_adapter.robot_action_dim in
      Gives-bind (HasLength dim) _ (or_raise (get_elem? preds i) index_error) _
        (get-Gives c.seq_len dim i preds hpr lt)
        λ action hn.
          Gives-bind (Actions c) _ (assign s.action_history i action) _
            (assign-Gives c.seq_len dim i s.action_history action h.action_history lt hn)
            λ history hh. (
              record {
                frame_history = h.frame_history;
                together = h.together;
                pose_history = h.pose_history;
                pose_size = h.pose_size;
                action_history = hh;
                prev_action_preds = h.prev_action_preds;
                prev_executed = h.prev_executed;
              },
              refl,
              hn,
            )
  act-Gives false s sh frames poses pose i preds h ha hp lt hpr =
      let dim = c.action_adapter.robot_action_dim in
      let finite : List (List F) =
        if not (all (all_finite fl) preds) then map (map fl.nan_to_num) preds else preds in
      let hfin : Actions c finite = elim (Bool-cases (all (all_finite fl) preds)) [
        | inl fine ↦ rw fine hpr
        | inr bad ↦ rw bad (length-finite_rows fl c.seq_len dim preds hpr)
      ] in
      Gives-bind (HasLength dim) _ (or_raise (get_elem? finite i) index_error) _
        (get-Gives c.seq_len dim i finite hfin lt)
        λ action hn.
          Gives-bind (λ (r : List F × List F). HasLength dim r.0 × HasLength 16 r.1) _
            (stabilize_normalized_action fl c s.prev_executed_absolute_action_16d action
              s.anchor_pose_16d pose)
            _
            (stabilize_normalized_action-Gives fl laws c fit.is_adapter
              s.prev_executed_absolute_action_16d action s.anchor_pose_16d pose h.prev_executed hn
              ha hp)
            λ r hr.
              Gives-bind (Actions c) _ (assign s.action_history i r.0) _
                (assign-Gives c.seq_len dim i s.action_history r.0 h.action_history lt hr.0)
                λ history hh.
                  Gives-bind (Actions c) _ (assign finite i r.0) _
                    (assign-Gives c.seq_len dim i finite r.0 hfin lt hr.0)
                    λ preds' hq. (
                      record {
                        frame_history = h.frame_history;
                        together = h.together;
                        pose_history = h.pose_history;
                        pose_size = h.pose_size;
                        action_history = hh;
                        prev_action_preds = hq;
                        prev_executed = hr.1;
                      },
                      refl,
                      hr.0,
                    )

  make_identity-Gives :
      (pose : List F)
      → HasLength 16 pose
      → Gives
          (HasLength c.action_adapter.robot_action_dim)
          (make_identity_relative_action fl c pose)
  unfolding make_identity_relative_action
  make_identity-Gives pose hp =
      let dim = c.action_adapter.robot_action_dim in
      Gives-bind (HasLength 16) _ (reshape 16 pose) _ (reshape-Gives 16 pose hp) λ p h.
        Gives-bind (HasLength dim) _
          (compact_to_full_action fl c.action_adapter (identity_action fl c p) none) _
          (compact_to_zeros-Gives fl c.action_adapter fit.is_adapter (identity_action fl c p) (
            omega (
              arith,
              length-append (slice 7 8 p) (identity_arm fl c ++ slice 15 16 p),
              length-slice 7 8 p,
              length-slice 15 16 p,
              h,
            )))
          (normalize_action-Gives fl c.action_adapter fit.is_adapter)

  pub first_step-Gives :
      (s : State F Frame Text) (sh : List ℕ) (frames : List Frame) (poses : List (List F))
      (pose : List F) (i : ℕ)
      → Shows c sh s frames poses
      → HasLength 16 pose
      → i < c.seq_len
      → Gives (Acted s sh frames poses) (first_step fl c s pose i)
  unfolding first_step
  first_step-Gives s sh frames poses pose i h hp lt =
      let dim = c.action_adapter.robot_action_dim in
      Gives-bind (HasLength dim) _ (make_identity_relative_action fl c pose) _
        (make_identity-Gives pose hp)
        λ action hn.
          Gives-bind (Actions c) _ (assign s.action_history i action) _
            (assign-Gives c.seq_len dim i s.action_history action h.action_history lt hn)
            λ history hh. (
              record {
                frame_history = h.frame_history;
                together = h.together;
                pose_history = h.pose_history;
                pose_size = h.pose_size;
                action_history = hh;
                prev_action_preds = h.prev_action_preds;
                prev_executed = previous c.legacy_inference;
              },
              refl,
              hn,
            )
    where
      previous :
          (legacy : Bool)
          → HasPrevious (if not legacy then some pose else s.prev_executed_absolute_action_16d)
      previous true = h.prev_executed
      previous false = hp

  pub later_step-GivesOr :
      (m : Model F Frame Text) (s : State F Frame Text) (sh : List ℕ) (frames : List Frame)
      (poses : List (List F)) (pose : List F) (i : ℕ)
      → IsModel c m
      → Shows c sh s frames poses
      → length (frames_of fl c s.frame_history) ≡ c.seq_len
      → HasLength 16 s.anchor_pose_16d
      → HasLength 16 pose
      → i < c.seq_len
      → GivesOr (Refuses c m) (Acted s sh frames poses) (later_step fl c m s pose i)
  unfolding later_step
  later_step-GivesOr m s sh frames poses pose i good h hf ha hp lt =
      GivesOr-bind (Refuses c m) (λ (r : List (List F) × Bool). Actions c r.0) _ (predict fl c m s)
        _ (predict-GivesOr m s good hf h.action_history h.prev_action_preds)
        λ r hr.
          let asked = record s { compile = r.1 } in
          Gives-GivesOr (Refuses c m) (Acted asked sh frames poses)
            (act fl c c.legacy_inference asked pose i r.0)
            (act-Gives c.legacy_inference asked sh frames poses pose i r.0
              (record {
                frame_history = h.frame_history;
                together = h.together;
                pose_history = h.pose_history;
                pose_size = h.pose_size;
                action_history = h.action_history;
                prev_action_preds = h.prev_action_preds;
                prev_executed = h.prev_executed;
              })
              ha hp lt hr)
