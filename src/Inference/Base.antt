-- ===== src/Inference/Base.antt =====
-- `BaseInferenceState` (elefant/policy_model/inference.py): what the thread that handles requests
-- uses of the state of the policy. An exception is a value beside the state that it leaves.
use p2p_rdt.Common.{String, Option}
use p2p_rdt.Common.Results.{Result}

pub record Inference (S Frame Action : Type 0) : Type 0 where
  pub reset : S → S
  pub get_action : S → Frame → Option String → S × Result Action
