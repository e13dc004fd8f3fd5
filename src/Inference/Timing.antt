-- ===== src/Inference/Timing.antt =====
-- `TimingMetrics`, `SharedTextInputState` and the choice of a device
-- (elefant/policy_model/inference.py). Times are whole numbers of the clock's unit.
use p2p_rdt.Common.{
  ℕ, suc, ◌-◌, ◌==◌, Bool, String, List, [], ◌∷◌, ◌++◌, Option, none, some, length, leb,
  if◌then◌else◌,
}
use p2p_rdt.Common.Results.{Result, ok, raise, ◌>>◌, ensure, assertion_error, value_error}

-- `request_total_time` and `get_action_time` are the two deques of `metrics`.
pub record TimingMetrics : Type 0 where
  pub window_seconds : ℕ
  pub last_report_time : ℕ
  pub request_total_time : List ℕ
  pub get_action_time : List ℕ

pub data Metric : Type 0 where
  request_total_time get_action_time unknown : Metric

unfoldable pub new : ℕ → ℕ → TimingMetrics
new now window_seconds = record {
  window_seconds = window_seconds;
  last_report_time = now;
  request_total_time = [];
  get_action_time = [];
}

-- A name that is not known is ignored.
unfoldable pub record_metric : TimingMetrics → Metric → ℕ → TimingMetrics
record_metric t request_total_time value = record t {
  request_total_time = t.request_total_time ++ (value ∷ []);
}
record_metric t get_action_time value = record t {
  get_action_time = t.get_action_time ++ (value ∷ []);
}
record_metric t unknown value = t

unfoldable pub should_report : ℕ → TimingMetrics → Bool
should_report now t = leb t.window_seconds (now - t.last_report_time)

-- The statistics of the values of a metric, and their number; none for a metric without values.
pub record Stats (Values : Type 0) : Type 0 where
  pub values : Values
  pub count : ℕ

module _ {Values : Type 0} (calculate_stats : List ℕ → Values) where
  unfoldable pub stats_of : List ℕ → Option (Stats Values)
  stats_of [] = none
  stats_of (v ∷ vs) = some (record { values = calculate_stats (v ∷ vs); count = suc (length vs) })

  -- The statistics of `request_total_time` and of `get_action_time`.
  unfoldable pub report_and_reset :
      ℕ → TimingMetrics → TimingMetrics × Option (Stats Values) × Option (Stats Values)
  unfolding stats_of
  report_and_reset now t = (
    record t { last_report_time = now; request_total_time = []; get_action_time = [] },
    stats_of t.request_total_time,
    stats_of t.get_action_time,
  )

-- `SharedTextInputState`.
unfoldable pub shared_text : Bool → Option String
shared_text input_text = if input_text then some "" else none

unfoldable pub set_shared_text : Option String → String → Option String
set_shared_text text new_text = some new_text

-- The index of the first device that has the wanted name.
unfoldable pub first_wanted : (String → Bool) → ℕ → List String → Option ℕ
first_wanted wanted i [] = none
first_wanted wanted i (name ∷ names) =
    let later = first_wanted wanted (suc i) names in if wanted name then some i else later

-- `_setup_device`: `wanted` tests for "RTX 5090" in the name.
unfoldable pub setup_device : (String → Bool) → Bool → List String → Result ℕ
unfolding first_wanted
setup_device wanted is_available cuda_devices =
    ensure is_available assertion_error >> elim (first_wanted wanted 0 cuda_devices) [
      | some device_idx ↦ ok device_idx
      | none ↦ if length cuda_devices == 1 then ok 0 else raise value_error
    ]
