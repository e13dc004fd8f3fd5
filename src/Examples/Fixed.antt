-- ===== src/Examples/Fixed.antt =====
-- A run of the fixed length of samples (elefant/data/lerobot_latent_dataset.py), with numbers in place of
-- floats.
use p2p_rdt.Common.{ℕ, ◌<◌, refl, true, false, List, [], ◌∷◌, none, some, arith, replicate, All}
use p2p_rdt.Examples.Robot.{numbers, numbers_lem, ids, below_lem}
use p2p_rdt.Examples.Instances.{last_draw}
use p2p_rdt.Lerobot.Fixed.{HasRows, with_actions}
use p2p_rdt.Lerobot.Rebase.{ActionStats}
use p2p_rdt.Lerobot.Rebased.{IsStats}
use p2p_rdt.Lerobot.Sample.{Config, Item, Zeros}
use p2p_rdt.Lerobot.Scatter.{NotIn, Distinct}

abbrev two_rows : Config
two_rows = record { n_seq_timesteps = some 2; shuffle = true }

abbrev statistics : ActionStats ℕ
statistics = record { used_action_channel_ids = ids; q01 = replicate 17 0; q99 = replicate 17 1 }

NotIn-below : (i : ℕ) (js : List ℕ) → All (λ j. i < j) js → NotIn i js
NotIn-below i [] h = tt
NotIn-below i (j ∷ js) h = ((λ e. omega arith), NotIn-below i js h.1)

abbrev Ascends : List ℕ → Type 0
Ascends [] = Unit
Ascends (i ∷ js) = All (λ j. i < j) js × Ascends js

Ascends-Distinct : (js : List ℕ) → Ascends js → Distinct js
Ascends-Distinct [] h = tt
Ascends-Distinct (i ∷ js) h = (NotIn-below i js h.0, Ascends-Distinct js h.1)

ids-Distinct : Distinct ids
ids-Distinct = Ascends-Distinct ids (omega arith)

statistics_lem : IsStats 17 statistics
statistics_lem = record {
  sixteen = refl;
  distinct = ids-Distinct;
  below = below_lem;
  q01 = refl;
  q99 = refl;
}

abbrev zeros : Zeros ℕ (List ℕ) ℕ ℕ ℕ
zeros = record { frame = 0; action = replicate 17 0; env = 0; text = 0; mask = 0 }

-- Three rows in each tensor, of which the last two are the user's.
abbrev sample : Item ℕ (List ℕ) ℕ ℕ ℕ
sample = record {
  frames = 1 ∷ 2 ∷ 3 ∷ [];
  action_annotations = replicate 17 4 ∷ replicate 17 5 ∷ replicate 17 6 ∷ [];
  env_subenv_encoding = 0 ∷ 0 ∷ 0 ∷ [];
  user_action_mask = false ∷ true ∷ true ∷ [];
  text_embeddings = 7 ∷ 8 ∷ 9 ∷ [];
  system_action_mask = false ∷ false ∷ false ∷ [];
  valid_frame_mask = none;
  action_mask = 0 ∷ 1 ∷ 1 ∷ [];
}

abbrev sample_rows : HasRows 3 sample
sample_rows = record {
  frames = refl;
  action_annotations = refl;
  env_subenv_encoding = refl;
  user_action_mask = refl;
  text_embeddings = refl;
  system_action_mask = refl;
  valid_frame_mask = tt;
  action_mask = refl;
}

abbrev outcome : ℕ → List (List ℕ) → Item ℕ (List ℕ) ℕ ℕ ℕ
outcome =
    with_actions numbers numbers_lem 17 statistics statistics_lem two_rows last_draw zeros sample 2
