-- ===== src/RobotTwin/Steady.antt =====
-- What the state of an episode shows (elefant/evaluation/robotwin/server.py).
use p2p_rdt.Common.{ℕ, ◌<◌, ◌≡◌, List, [], ◌∷◌, Option, none, some, length, All}
use p2p_rdt.RobotTwin.Channels.{IsAdapter}
use p2p_rdt.RobotTwin.Lengths.{HasLength}
use p2p_rdt.RobotTwin.Rebasing.{HasShape, HasPrevious}
use p2p_rdt.RobotTwin.Rolling.{Window}
use p2p_rdt.RobotTwin.Sequence.{Config, Frames, State}

module _ {F Frame Text : Type 0} (c : Config F Frame Text) where
  -- The settings fit the adapter.
  pub record IsConfig : Type 0 where
    pub positive : 0 < c.seq_len
    pub is_adapter : IsAdapter c.action_adapter
    pub action_dim : c.action_dim ≡ c.action_adapter.robot_action_dim

  abbrev pub HasPreds : Option (List (List F)) → Type 0
  HasPreds none = Unit
  HasPreds (some preds) = HasShape c.seq_len c.action_adapter.robot_action_dim preds

  -- The tensor of the frames after those of `seen`, all of the shape `sh`.
  abbrev pub ShowsFrames : List ℕ → ℕ → Option (Frames Frame) → List Frame → Type 0
  ShowsFrames sh n none seen = seen ≡ []
  ShowsFrames sh n (some history) seen =
      (history.shape ≡ 1 ∷ c.seq_len ∷ sh) × Window c.seq_len n history.rows seen

  -- The state after an episode of the frames and poses of `frames` and `poses`, oldest first.
  pub record Shows (sh : List ℕ) (s : State F Frame Text) (frames : List Frame)
      (poses : List (List F)) : Type 0 where
    pub frame_history : ShowsFrames sh s.n_prior_frames s.frame_history frames
    pub together : length frames ≡ length poses
    pub pose_history : Window c.seq_len s.n_prior_frames s.pose_history poses
    pub pose_size : All (HasLength 16) s.pose_history
    pub action_history : HasShape c.seq_len c.action_adapter.robot_action_dim s.action_history
    pub prev_action_preds : HasPreds s.prev_action_preds
    pub prev_executed : HasPrevious s.prev_executed_absolute_action_16d
