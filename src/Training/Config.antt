-- ===== src/Training/Config.antt =====
-- The channels in the configuration of a dataset (elefant/policy_model/config.py).
use p2p_rdt.Common.{ℕ, suc, ◌+◌, ◌*◌, List, [], ◌∷◌, Option, none, some, length, replicate}
use p2p_rdt.Common.Results.{Result, ok, raise, ◌>>=◌, value_error}
use p2p_rdt.Lerobot.Channels.{Config, maximum, invert}

-- `robot_action_dim` that is not given becomes the dimension of actions.
abbrev pub or_dim : Option ℕ → ℕ → ℕ
or_dim none dim = dim
or_dim (some n) dim = n

-- `action_dim`, or the number of channels that the used ones need.
abbrev pub dim_of : Option ℕ → ℕ → List ℕ → ℕ
dim_of none k ks = maximum k ks + 1
dim_of (some dim) k ks = dim

-- `model_post_init` with the used ids `k ∷ ks`.
unfoldable pub complete : Config → ℕ → List ℕ → Result Config
unfolding maximum invert
complete c k ks = do
  let dim = dim_of c.action_dim k ks
  inverse_ids ← invert 0 (k ∷ ks) (replicate dim (suc (length ks)))
  ok (record {
    action_dim = some dim;
    robot_action_dim = some (or_dim c.robot_action_dim dim);
    inverse_used_action_channel_ids = inverse_ids;
    used_action_channel_ids = k ∷ ks;
  })

-- `DatasetConfig.model_post_init`.
unfoldable pub model_post_init : Config → Result Config
unfolding complete
model_post_init c = elim c.used_action_channel_ids [ [] ↦ ok c | k ∷ ks ↦ complete c k ks ]

-- `DatasetConfig.get_robot_action_dim`.
unfoldable pub get_robot_action_dim : Config → ℕ → Result ℕ
get_robot_action_dim c image_frame_stride = elim c.robot_action_dim [
  | some n ↦ ok n
  | none ↦ elim c.action_dim [
    | some n ↦ ok n
    | none ↦ elim c.inverse_used_action_channel_ids [
      | [] ↦ raise value_error
      | i ∷ is ↦ ok (suc (length is) * image_frame_stride)
    ]
  ]
]
