-- ===== src/Inference/Cached.antt =====
-- `KVCacheInferenceState` (elefant/policy_model/inference.py): the policy with a key-value cache,
-- and the index of its next token, which starts anew after a maximal number of steps.
use p2p_rdt.Common.{
  ℕ, ◌+◌, ◌*◌, leb, Bool, true, false, String, List, [], ◌∷◌, ◌++◌, Option, none, some,
  if◌then◌else◌,
}
use p2p_rdt.Common.Results.{Result, ok, raise, not_implemented_error}
use p2p_rdt.Inference.Base.{Inference}
use p2p_rdt.Inference.Text.{Tokenizer, Torch, encode_text_tokens_for_inference}

-- The network, a tensor of random numbers for `use_manual_sampling`, and the decoder of actions.
pub record Network (Frame Tensor Cache Prediction Action : Type 0) : Type 0 where
  pub step_size : ℕ
  pub init_kv_cache_state : Cache
  pub tensor_to_action : Prediction → Result Action
  pub rand : ℕ → Tensor

-- A line of the log of the model's records.
pub record Entry (Frame Action : Type 0) : Type 0 where
  pub frame : Frame
  pub idx_out : ℕ
  pub idx_in : ℕ
  pub action : Action

-- `records` is the file of the records, if it exists.
pub record State (Frame Tensor Cache Action : Type 0) : Type 0 where
  pub idx : ℕ
  pub kv_cache_state : Cache
  pub virtual_idx_cpu : ℕ
  pub max_virtual_idx : ℕ
  pub use_manual_sampling : Bool
  pub record_model_data : Bool
  pub records : Option (List (Entry Frame Action))

module _ {Frame Action : Type 0} where
  abbrev pub lines : Option (List (Entry Frame Action)) → List (Entry Frame Action)
  lines none = []
  lines (some entries) = entries

  -- The file with one more line, if records are kept.
  abbrev pub written :
      Bool
      → Option (List (Entry Frame Action))
      → Entry Frame Action
      → Option (List (Entry Frame Action))
  written true records entry = some (lines records ++ (entry ∷ []))
  written false records entry = records

module _ {Frame Tensor Cache Prediction Action : Type 0} (torch : Torch Tensor)
    (tokenizer : Option (Tokenizer Tensor)) (text_embedding_dim get_seq_len : ℕ)
    (network : Network Frame Tensor Cache Prediction Action) where
  -- The policy's prediction with a cache, which is no longer supported.
  unfoldable pub online_kv_cache_predict :
      Frame → ℕ → Cache → Option Tensor → Tensor → Result (Prediction × ℕ × Cache)
  online_kv_cache_predict frame idx kv_cache_state unif_rand text_tokens_embed =
      raise not_implemented_error

  unfoldable pub reset : State Frame Tensor Cache Action → State Frame Tensor Cache Action
  reset s = record s {
    idx = 0;
    kv_cache_state = network.init_kv_cache_state;
    virtual_idx_cpu = 0;
    records = if s.record_model_data then none else s.records;
  }

  -- `__init__`, with the file of the records as it is found.
  unfoldable pub new :
      ℕ → Bool → Bool → Option (List (Entry Frame Action)) → State Frame Tensor Cache Action
  unfolding reset
  new max_virtual_steps use_manual_sampling record_model_data records = reset (record {
    idx = 0;
    kv_cache_state = network.init_kv_cache_state;
    virtual_idx_cpu = 0;
    max_virtual_idx = max_virtual_steps * network.step_size;
    use_manual_sampling = use_manual_sampling;
    record_model_data = record_model_data;
    records = records;
  })

  -- The count of the index, which starts anew at its maximum.
  unfoldable pub advance :
      State Frame Tensor Cache Action → ℕ → Cache → State Frame Tensor Cache Action
  advance s idx cache =
      let virtual_idx_cpu = s.virtual_idx_cpu + network.step_size in
      if leb s.max_virtual_idx virtual_idx_cpu
      then record s { idx = 0; kv_cache_state = cache; virtual_idx_cpu = 0 }
      else record s { idx = idx; kv_cache_state = cache; virtual_idx_cpu = virtual_idx_cpu }

  -- The log of an action; the index is read after it was moved on.
  unfoldable pub log :
      State Frame Tensor Cache Action → Frame → Action → State Frame Tensor Cache Action
  log s frame action =
      let entry : Entry Frame Action = record {
        frame = frame;
        idx_out = s.idx;
        idx_in = s.idx;
        action = action;
      } in
      record s { records = written s.record_model_data s.records entry }

  -- The network's answer, taken into the state and decoded.
  unfoldable pub take_in :
      State Frame Tensor Cache Action
      → Frame
      → Result (Prediction × ℕ × Cache)
      → State Frame Tensor Cache Action × Result Action
  unfolding advance log
  take_in s frame (raise e) = (s, raise e)
  take_in s frame (ok (prediction, idx, cache)) =
      let moved = advance s idx cache in
      elim (network.tensor_to_action prediction) [
        | raise e ↦ (moved, raise e)
        | ok action ↦ (log moved frame action, ok action)
      ]

  unfoldable pub get_action :
      State Frame Tensor Cache Action
      → Frame
      → Option String
      → State Frame Tensor Cache Action × Result Action
  unfolding take_in encode_text_tokens_for_inference online_kv_cache_predict
  get_action s frame text =
      let unif_rand = if s.use_manual_sampling then some (network.rand get_seq_len) else none in
      elim (encode_text_tokens_for_inference torch tokenizer text text_embedding_dim) [
        | raise e ↦ (s, raise e)
        | ok text_tokens_embed ↦
            take_in s frame
              (online_kv_cache_predict frame s.idx s.kv_cache_state unif_rand text_tokens_embed)
      ]

  -- What the thread that handles requests uses.
  abbrev pub inference : Inference (State Frame Tensor Cache Action) Frame Action
  inference = record { reset = reset; get_action = get_action }
