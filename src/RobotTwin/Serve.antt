-- ===== src/RobotTwin/Serve.antt =====
-- The requests of `OpenP2PRobotTwinPolicy.infer` (elefant/evaluation/robotwin/server.py). The
-- images of an observation are the frame that was prepared of them.
use p2p_rdt.Common.{ℕ, ◌≡◌, ◌⊎◌, Bool, true, false, String, List, Option, none, some, get_elem?}
use p2p_rdt.Common.Results.{Result, ok, raise, Error, ◌>>=◌, or_raise, value_error}
use p2p_rdt.RobotTwin.Acting.{Refuses}
use p2p_rdt.RobotTwin.Adapter.{denormalize, to_compact_execution_action}
use p2p_rdt.RobotTwin.Floats.{Floats}
use p2p_rdt.RobotTwin.Lengths.{HasLength, QuaternionLaws}
use p2p_rdt.RobotTwin.Pose.{compose_compact_relative_action}
use p2p_rdt.RobotTwin.Rolling.{latest}
use p2p_rdt.RobotTwin.Sequence.{Config, State, Model, reset}
use p2p_rdt.RobotTwin.Steady.{IsConfig, Shows}
use p2p_rdt.RobotTwin.Step.{step}

pub record Request (F Frame Text : Type 0) : Type 0 where
  pub text_emb : Option Text
  pub text_embeddings : Option Text
  pub wants_reset : Bool
  pub obs : Option Frame
  pub ee_pose_16d : Option (List F)
  pub prompt : Option String

pub data Response (F : Type 0) : Type 0 where
  was_reset : String → Bool → Response F
  acted :
      (action action_16d action_16d_absolute action_reference_16d normalized_action : List F)
      → Response F

module _ {A : Type 0} where
  abbrev pub is_some : Option A → Bool
  is_some none = false
  is_some (some a) = true

module _ {F Frame Text : Type 0} (fl : Floats F) (c : Config F Frame Text) where
  -- `text_emb`, or else `text_embeddings`.
  abbrev pub request_text : Request F Frame Text → Option Text
  request_text q = elim q.text_emb [ none ↦ q.text_embeddings | some text ↦ some text ]

  -- The images and the pose, which a request without a reset has to give. This comes before anything is
  -- taken into the state.
  unfoldable pub observation_of : Request F Frame Text → Result (Frame × List F)
  observation_of q = do
    frame ← or_raise q.obs value_error
    current_pose_16d ← or_raise q.ee_pose_16d value_error
    ok (frame, current_pose_16d)

  -- A request with images: the action for the robot, of every channel and of both arms.
  unfoldable pub infer_action :
      Model F Frame Text
      → State F Frame Text
      → Request F Frame Text
      → Result (State F Frame Text × Response F)
  unfolding observation_of step denormalize to_compact_execution_action
      compose_compact_relative_action
  infer_action m s q = do
    (frame, current_pose_16d) ← observation_of q
    (s', normalized_action, anchor_pose_16d) ←
        step fl c m s frame current_pose_16d q.prompt (request_text q)
    full_action ← denormalize fl c.action_adapter normalized_action
    compact_action ← to_compact_execution_action fl c.action_adapter full_action
    absolute_compact_action ← compose_compact_relative_action fl compact_action anchor_pose_16d
    ok (
      s',
      acted full_action compact_action absolute_compact_action anchor_pose_16d normalized_action,
    )

  unfoldable pub infer :
      Model F Frame Text
      → State F Frame Text
      → Request F Frame Text
      → Result (State F Frame Text × Response F)
  unfolding reset infer_action
  infer m s q = elim q.wants_reset [
    | true ↦
        let s' = reset fl c s q.prompt (request_text q) in
        ok (s', was_reset s'.current_prompt (is_some (request_text q)))
    | false ↦ infer_action m s q
  ]

module _ {F Frame Text : Type 0} (fl : Floats F) (laws : QuaternionLaws fl)
    (c : Config F Frame Text) (fit : IsConfig c) where
  -- The answer to a request: what the step gave, its action for every channel and for both arms, and
  -- this one from the anchor on, with the anchor; each of its size.
  abbrev pub Answers :
      Result (State F Frame Text × List F × List F)
      → Result (State F Frame Text × Response F)
      → State F Frame Text
      → List F
      → Type 0
  Answers stepped answered s' anchor =
      (normalized : List F) × (full : List F) × (compact : List F) × (absolute : List F) × (answered
        ≡ ok (s', acted full compact absolute anchor normalized))
      × (stepped ≡ ok (s', normalized, anchor))
      × (denormalize fl c.action_adapter normalized ≡ ok full)
      × (to_compact_execution_action fl c.action_adapter full ≡ ok compact)
      × (compose_compact_relative_action fl compact anchor ≡ ok absolute)
      × HasLength c.action_adapter.robot_action_dim full
      × HasLength 16 compact
      × HasLength 16 absolute

  -- What a request with images and a pose gives, of `stepped`.
  abbrev pub Acts :
      Model F Frame Text
      → List ℕ
      → List Frame
      → List (List F)
      → Result (State F Frame Text × List F × List F)
      → Result (State F Frame Text × Response F)
      → Type 0
  Acts m sh frames poses stepped answered =
      ((s' : State F Frame Text) × (anchor : List F) × Answers stepped answered s' anchor
        × Shows c sh s' frames poses
        × (get_elem? (latest c.seq_len poses) 0 ≡ some anchor))
      ⊎ ((e : Error) × (answered ≡ raise e) × Refuses c m e)
