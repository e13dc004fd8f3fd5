-- ===== src/Training/Agreement.antt =====
-- The configuration of a dataset and the dataset agree on its channels
-- (elefant/policy_model/config.py, elefant/data/lerobot_latent_dataset.py).
use p2p_rdt.Common.{
  ℕ, suc, ◌+◌, ◌≤◌, ◌<◌, ◌≡◌, refl, sym, ap, ◌∙◌, true, List, [], ◌∷◌, Option, none, some, arith,
  length, set, replicate, max, All, ltb, lt→ltb, length-set, length-replicate,
}
use p2p_rdt.Common.Results.{Result, ok, ◌>>=◌, Gives, Gives-ok}
use p2p_rdt.Lerobot.Channels.{
  Config, maximum, resolve_action_dim, invert, resolve_inverse_used_action_channel_ids,
}
use p2p_rdt.Training.Config.{or_dim, dim_of, complete, model_post_init, get_robot_action_dim}

invert-Gives :
    (n i : ℕ) (used inverse : List ℕ)
    → length inverse ≡ n
    → All (λ j. j < n) used
    → Gives (λ out. length out ≡ n) (invert i used inverse)
unfolding invert
invert-Gives n i [] inverse len below = len
invert-Gives n i (j ∷ used) inverse len below =
    let lt : ltb j (length inverse) ≡ true = lt→ltb j (length inverse) (omega (arith, below.0)) in
    rw lt (invert-Gives n (i + 1) used (set inverse j i) (length-set inverse j i ∙ len) below.1)

le-maximum : (m : ℕ) (ks : List ℕ) → m ≤ maximum m ks
unfolding maximum
le-maximum m [] = omega arith
le-maximum m (k ∷ ks) = omega (arith, le-maximum (max m k) ks)

below-maximum : (m : ℕ) (ks : List ℕ) → All (λ j. j < maximum m ks + 1) ks
unfolding maximum
below-maximum m [] = tt
below-maximum m (k ∷ ks) = (omega (arith, le-maximum (max m k) ks), below-maximum (max m k) ks)

-- What has to hold of a dimension that is given.
abbrev pub FitsDim : Option ℕ → List ℕ → Type 0
FitsDim none used = Unit
FitsDim (some dim) used = All (λ j. j < dim) used

FitsDim-below :
    (given : Option ℕ) (k : ℕ) (ks : List ℕ)
    → FitsDim given (k ∷ ks)
    → All (λ j. j < dim_of given k ks) (k ∷ ks)
FitsDim-below none k ks h = (omega (arith, le-maximum k ks), below-maximum k ks)
FitsDim-below (some dim) k ks h = h

complete-ok :
    (c : Config) (k : ℕ) (ks : List ℕ) {inverse : List ℕ}
    → invert 0 (k ∷ ks) (replicate (dim_of c.action_dim k ks) (suc (length ks))) ≡ ok inverse
    → complete c k ks
      ≡ ok (record {
        action_dim = some (dim_of c.action_dim k ks);
        robot_action_dim = some (or_dim c.robot_action_dim (dim_of c.action_dim k ks));
        inverse_used_action_channel_ids = inverse;
        used_action_channel_ids = k ∷ ks;
      })
unfolding complete
complete-ok c k ks {inverse} e =
    ap
      (λ (r : Result (List ℕ)). r >>= λ ids. ok (record {
        action_dim = some (dim_of c.action_dim k ks);
        robot_action_dim = some (or_dim c.robot_action_dim (dim_of c.action_dim k ks));
        inverse_used_action_channel_ids = ids;
        used_action_channel_ids = k ∷ ks;
      }))
      e

-- A configuration with used channels, which are below the dimension of actions if that is given, is
-- completed without an exception. The dataset computes from it the same inverse channel ids that it
-- holds, and their number as the dimension of actions. The dimension of a robot's actions is the
-- one that was given, or else the same.
pub model_post_init_lem :
    (c : Config) (k : ℕ) (ks : List ℕ) (stride : ℕ)
    → c.used_action_channel_ids ≡ k ∷ ks
    → FitsDim c.action_dim (k ∷ ks)
    → (full : Config) × (model_post_init c ≡ ok full)
      × (resolve_inverse_used_action_channel_ids full ≡ ok full.inverse_used_action_channel_ids)
      × (resolve_action_dim full ≡ ok (length full.inverse_used_action_channel_ids))
      × (get_robot_action_dim full stride
          ≡ ok (or_dim c.robot_action_dim (length full.inverse_used_action_channel_ids)))
unfolding model_post_init resolve_inverse_used_action_channel_ids resolve_action_dim
    get_robot_action_dim
model_post_init_lem c k ks stride used fits =
    let dim = dim_of c.action_dim k ks in
    let blank = replicate dim (suc (length ks)) in
    let (inverse, e, len) =
      Gives-ok (λ out. length out ≡ dim) _
        (invert-Gives dim 0 (k ∷ ks) blank (length-replicate dim (suc (length ks)))
          (FitsDim-below c.action_dim k ks fits)) in
    (
      record {
        action_dim = some dim;
        robot_action_dim = some (or_dim c.robot_action_dim dim);
        inverse_used_action_channel_ids = inverse;
        used_action_channel_ids = k ∷ ks;
      },
      opened ∙ complete-ok c k ks e,
      e,
      ap ok (sym len),
      ap (λ n. ok (or_dim c.robot_action_dim n)) (sym len),
    )
  where
    opened : model_post_init c ≡ complete c k ks
    opened = rw (model_post_init, used) refl
