-- ===== src/Examples/Robot.antt =====
-- Runs of the evaluation on a robot (elefant/evaluation/robotwin): numbers in place of floats, of
-- which those from 90 on stand for infinities.
use mathlib.Core.Path.{subst}
use p2p_rdt.Common.{
  ap, ◌⊎◌, ℕ, zero, suc, ◌+◌, ◌-◌, ◌*◌, ◌<◌, ◌≡◌, refl, Bool, true, false, List, [], ◌∷◌, Option,
  none, some, arith, min, length, get_elem?, replicate, map, All, ltb, leb,
}
use p2p_rdt.Common.Results.{GivesOr, Result, Error, ok, raise, out_of_memory_error}
use p2p_rdt.Lerobot.Scatter.{NotIn, Distinct}
use p2p_rdt.RobotTwin.Acting.{IsModel, Refuses, Actions}
use p2p_rdt.RobotTwin.Adapter.{Adapter, compact_to_full_action, to_compact_execution_action}
use p2p_rdt.RobotTwin.Channels.{IsAdapter}
use p2p_rdt.RobotTwin.Compact.{to_compact-compact_to_full}
use p2p_rdt.RobotTwin.Episode.{Observation, Stepped, run, step_lem, reset_run_lem, new-Shows}
use p2p_rdt.RobotTwin.Floats.{Floats, all_finite}
use p2p_rdt.RobotTwin.Lengths.{HasLength, QuaternionLaws}
use p2p_rdt.RobotTwin.Memory.{Asked, ask_network_cases}
use p2p_rdt.RobotTwin.Pose.{sanitize_compact_pose_16d}
use p2p_rdt.RobotTwin.Sanitized.{FiniteLaws, sanitize_compact_pose_16d_lem}
use p2p_rdt.RobotTwin.Sequence.{Config, State, Model, new, reset}
use p2p_rdt.RobotTwin.Serve.{Request, Response, infer}
use p2p_rdt.RobotTwin.Steady.{IsConfig, Shows}
use p2p_rdt.RobotTwin.Step.{step}

abbrev quaternion : List ℕ
quaternion = 0 ∷ 0 ∷ 0 ∷ 1 ∷ []

abbrev pub numbers : Floats ℕ
numbers = record {
  float = λ n d. elim d [ suc zero ↦ n | _ ↦ 0 ];
  plus = λ a b. a + b;
  minus = λ a b. a - b;
  times = λ a b. a * b;
  over = λ a b. min a b;
  negated = λ a. a;
  less = ltb;
  less_equal = leb;
  isfinite = λ a. ltb a 90;
  nan_to_num = λ a. 0;
  norm = λ xs. length xs;
  dot = λ xs ys. length xs;
  clip = λ a lo hi. min a hi;
  arccos = λ a. a;
  sin = λ a. a;
  allclose = λ xs ys. true;
  rotate = λ a b. quaternion;
  rotate_back = λ a b. quaternion;
}

pub numbers_lem : QuaternionLaws numbers
numbers_lem = record { length-rotate = λ a b. refl; length-rotate_back = λ a b. refl }

over_norm_lem :
    (n : ℕ) (xs : List ℕ)
    → all_finite numbers xs ≡ true
    → all_finite numbers (map (λ x. min x n) xs) ≡ true
over_norm_lem n [] h = refl
over_norm_lem n (x ∷ xs) h = ground (arith, over_norm_lem n xs)

finite_lem : FiniteLaws numbers
finite_lem = record {
  zero_finite = refl;
  one_finite = refl;
  over_norm = λ quat h e t. over_norm_lem (length quat) quat h;
}

abbrev pub ids : List ℕ
ids = 1 ∷ 2 ∷ 3 ∷ 4 ∷ 5 ∷ 6 ∷ 7 ∷ 8 ∷ 9 ∷ 10 ∷ 11 ∷ 12 ∷ 13 ∷ 14 ∷ 15 ∷ 16 ∷ []

abbrev two_arms : Adapter ℕ
two_arms = record {
  robot_action_dim = 17;
  used_action_channel_ids = ids;
  q01 = replicate 17 0;
  q99 = replicate 17 1;
}

pub below_lem : All (λ i. i < 17) ids
below_lem = omega arith

two_arms_lem : IsAdapter two_arms
two_arms_lem = record { q01 = refl; q99 = refl; sixteen = refl; below = below_lem }

abbrev config : Config ℕ ℕ ℕ
config = record {
  seq_len = 2;
  action_dim = 17;
  device_is_cuda = true;
  legacy_inference = false;
  warm_start_blend = 1;
  warm_start_noise_std = 0;
  action_smoothing_alpha = 1;
  action_adapter = two_arms;
  text_tokenizer = none;
  ndim = λ t. 1;
  unsqueeze = λ t. t;
  shape = λ f. 3 ∷ [];
  zeros = λ s. 0;
}

config_lem : IsConfig config
config_lem = record { positive = omega arith; is_adapter = two_arms_lem; action_dim = refl }

abbrev predictions : List (List ℕ)
predictions = replicate 2 (replicate 17 1)

-- A network that is too large when it is compiled.
abbrev network : Model ℕ ℕ ℕ
network = record {
  online_full_predict = λ frames actions text initial compile. elim compile [
    | true ↦ raise out_of_memory_error
    | false ↦ ok predictions
  ];
  randn_first = λ rows. rows;
  randn_second = λ rows. rows;
}

abbrev taken : Result (List (List ℕ)) → List (List ℕ)
taken r = elim r [ ok preds ↦ preds | raise e ↦ predictions ]

network_sized :
    (compile : Bool) (preds : List (List ℕ))
    → network.online_full_predict [] [] none none compile ≡ ok preds
    → Actions config preds
network_sized true preds e = absurd (cc)
network_sized false preds e = subst (Actions config) (ap taken e) (refl, (refl, (refl, tt)))

network_lem : IsModel config network
network_lem = record {
  sized = λ frames actions text initial compile preds hf ha hi e. network_sized compile preds e;
  randn_first = λ rows h. h;
  randn_second = λ rows h. h;
}

abbrev pose : ℕ → List ℕ
pose n = replicate 16 n

abbrev observe : ℕ → Observation ℕ ℕ ℕ
observe n = record { frame = n; pose = pose n; prompt = some "stack"; text = none }

abbrev three_steps : List (Observation ℕ ℕ ℕ)
three_steps = observe 5 ∷ observe 6 ∷ observe 7 ∷ []

abbrev after_three : Result (State ℕ ℕ ℕ)
after_three =
    run numbers numbers_lem config config_lem network
      (reset numbers config (new numbers config true) (some "stack") none) three_steps

reset_run_lem_example :
    ((s : State ℕ ℕ ℕ) × (after_three ≡ ok s)
      × Shows config (3 ∷ []) s (5 ∷ 6 ∷ 7 ∷ []) (pose 5 ∷ pose 6 ∷ pose 7 ∷ []))
    ⊎ ((e : Error) × (after_three ≡ raise e) × Refuses config network e)
reset_run_lem_example =
    reset_run_lem numbers numbers_lem config config_lem network (3 ∷ []) (3 ∷ [])
      (new numbers config true) [] [] (some "stack") none three_steps network_lem
      (new-Shows numbers numbers_lem config config_lem (3 ∷ []) true)
      ((refl, refl), ((refl, refl), ((refl, refl), tt)))

step_lem_example :
    GivesOr
      (Refuses config network)
      (Stepped numbers numbers_lem config config_lem (3 ∷ []) (5 ∷ []) (pose 5 ∷ []))
      (step numbers config network (new numbers config true) 5 (pose 5) none none)
step_lem_example =
    step_lem numbers numbers_lem config config_lem network (new numbers config true) [] [] 5
      (pose 5) none none network_lem (new-Shows numbers numbers_lem config config_lem (3 ∷ []) true)
      refl

abbrev request : Bool → Option ℕ → Option (List ℕ) → Request ℕ ℕ ℕ
request wants obs ee = record {
  text_emb = none;
  text_embeddings = some 4;
  wants_reset = wants;
  obs = obs;
  ee_pose_16d = ee;
  prompt = some "stack";
}

abbrev ask : Bool → Option ℕ → Option (List ℕ) → Result (State ℕ ℕ ℕ × Response ℕ)
ask wants obs ee = infer numbers config network (new numbers config true) (request wants obs ee)

abbrev cleared : State ℕ ℕ ℕ
cleared = reset numbers config (new numbers config true) (some "stack") (some 4)

abbrev broken : List ℕ
broken = 99 ∷ replicate 15 2

sanitize_compact_pose_16d_lem_example :
    (clean : List ℕ) × (changed : Bool) × (sanitize_compact_pose_16d numbers broken (some (pose 7))
      ≡ ok (clean, changed))
    × HasLength 16 clean
    × (all_finite numbers clean ≡ true)
    × (changed ≡ false → clean ≡ broken)
sanitize_compact_pose_16d_lem_example =
    sanitize_compact_pose_16d_lem numbers finite_lem broken (pose 7) refl refl refl

abbrev pair : Adapter ℕ
pair = record {
  robot_action_dim = 4;
  used_action_channel_ids = 3 ∷ 1 ∷ [];
  q01 = replicate 4 0;
  q99 = replicate 4 1;
}

distinct_lem : Distinct (3 ∷ 1 ∷ [])
distinct_lem = (((λ e. omega arith), tt), (tt, tt))

to_compact-compact_to_full_example :
    (full : List ℕ) × (compact_to_full_action numbers pair
        (7 ∷ 8 ∷ [])
        (some (40 ∷ 41 ∷ 42 ∷ 43 ∷ []))
      ≡ ok full)
    × (length full ≡ 4)
    × (to_compact_execution_action numbers pair full ≡ ok (7 ∷ 8 ∷ []))
    × ((j : ℕ) → NotIn j (3 ∷ 1 ∷ []) → get_elem? full j ≡ get_elem? (40 ∷ 41 ∷ 42 ∷ 43 ∷ []) j)
to_compact-compact_to_full_example =
    to_compact-compact_to_full numbers pair (7 ∷ 8 ∷ []) (40 ∷ 41 ∷ 42 ∷ 43 ∷ []) distinct_lem
      (omega arith) refl refl

abbrev too_large : Bool → Result (List (List ℕ))
too_large compile = elim compile [ true ↦ raise out_of_memory_error | false ↦ ok predictions ]

ask_network_cases_example : Asked numbers config true true too_large
ask_network_cases_example = ask_network_cases numbers config true true too_large
