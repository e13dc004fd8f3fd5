-- ===== src/Lerobot/Fixed.antt =====
-- The fixed length of samples (elefant/data/lerobot_latent_dataset.py).
use p2p_rdt.Common.{ℕ, ◌≡◌, Bool, true, false, List, none, some, min, length, replicate, Option}
use p2p_rdt.Lerobot.Rebase.{ActionStats, and_rows}
use p2p_rdt.Lerobot.Rebased.{IsStats}
use p2p_rdt.RobotTwin.Floats.{Floats}
use p2p_rdt.RobotTwin.Lengths.{QuaternionLaws}
use p2p_rdt.Lerobot.Sample.{Config, Draw, Item, Zeros}
use p2p_rdt.Lerobot.Windows.{window, window_last}

-- A mask of `n` rows, if there is one.
abbrev pub HasMask : ℕ → Option (List Bool) → Type 0
HasMask n none = Unit
HasMask n (some mask) = length mask ≡ n

module _ {F A E X M : Type 0} where
  -- Every tensor of the item has `n` rows.
  pub record HasRows (n : ℕ) (item : Item F A E X M) : Type 0 where
    pub frames : length item.frames ≡ n
    pub action_annotations : length item.action_annotations ≡ n
    pub env_subenv_encoding : length item.env_subenv_encoding ≡ n
    pub user_action_mask : length item.user_action_mask ≡ n
    pub text_embeddings : length item.text_embeddings ≡ n
    pub system_action_mask : length item.system_action_mask ≡ n
    pub valid_frame_mask : HasMask n item.valid_frame_mask
    pub action_mask : length item.action_mask ≡ n

  -- The mask of valid frames, all valid if there is none.
  abbrev pub valid_of : Item F A E X M → List Bool
  valid_of item = elim item.valid_frame_mask [
    | none ↦ replicate (length item.frames) true
    | some mask ↦ mask
  ]

  -- The `m` rows from `start` of each tensor, and after them the last frame, environment and text
  -- again, and zeros for the rest.
  abbrev pub fixed_item : ℕ → ℕ → ℕ → Zeros F A E X M → Item F A E X M → Item F A E X M
  fixed_item target start m zeros item = record {
    frames = window_last target start m zeros.frame item.frames;
    action_annotations = window target start m zeros.action item.action_annotations;
    env_subenv_encoding = window_last target start m zeros.env item.env_subenv_encoding;
    user_action_mask = window target start m false item.user_action_mask;
    text_embeddings = window_last target start m zeros.text item.text_embeddings;
    system_action_mask = window target start m false item.system_action_mask;
    valid_frame_mask = some (window target start m false (valid_of item));
    action_mask = window target start m zeros.mask item.action_mask;
  }

module _ {N F E X M : Type 0} (fl : Floats N) (laws : QuaternionLaws fl) (n : ℕ)
    (st : ActionStats N) (is : IsStats n st) (c : Config) (draw : Draw)
    (zeros : Zeros F (List N) E X M) (item : Item F (List N) E X M) (target : ℕ) where
  -- The window of the sample, and in it the actions that `rows` are.
  abbrev pub with_actions : ℕ → List (List N) → Item F (List N) E X M
  with_actions start rows =
      record (fixed_item target start (min target (length item.frames)) zeros item) {
        action_annotations = rows;
      }

  -- The mask of the rows of the window that are the user's and valid.
  abbrev pub valid_rows : ℕ → List Bool
  valid_rows start =
      let m = min target (length item.frames) in
      and_rows (window target start m false item.user_action_mask)
        (window target start m false (valid_of item))
