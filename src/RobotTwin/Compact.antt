-- ===== src/RobotTwin/Compact.antt =====
-- A compact action that is put into an action of every channel can be taken out again
-- (elefant/evaluation/robotwin/common.py).
use p2p_rdt.Common.{
  ℕ, ◌<◌, ◌≡◌, ◌==◌, refl, sym, ◌∙◌, true, List, [], ◌∷◌, some, arith, length, get_elem?, set, All,
  ltb, lt→ltb, length-set, get_elem?-set_self, get_elem?-set_ne,
}
use p2p_rdt.Common.Results.{ok}
use p2p_rdt.Lerobot.Channels.{select}
use p2p_rdt.Lerobot.Scatter.{NotIn, Distinct}
use p2p_rdt.RobotTwin.Adapter.{
  Adapter, scatter, template_or_zeros, compact_to_full_action, to_compact_execution_action,
}
use p2p_rdt.RobotTwin.Floats.{Floats}

module _ {A : Type 0} where
  -- The values stand at their ids, and all else as it was.
  pub record Placed (ids : List ℕ) (values row out : List A) : Type 0 where
    pub length_lem : length out ≡ length row
    pub kept : (j : ℕ) → NotIn j ids → get_elem? out j ≡ get_elem? row j
    pub selected : select ids out ≡ ok values

  pub scatter-Placed :
      (ids : List ℕ) (values row : List A)
      → Distinct ids
      → All (λ i. i < length row) ids
      → length values ≡ length ids
      → (out : List A) × (scatter ids values row ≡ ok out) × Placed ids values row out
  unfolding scatter select
  scatter-Placed [] [] row distinct below same =
      (row, refl, record { length_lem = refl; kept = λ j h. refl; selected = refl })
  scatter-Placed [] (v ∷ values) row distinct below same = absurd (omega arith)
  scatter-Placed (i ∷ ids) [] row distinct below same = absurd (omega arith)
  scatter-Placed (i ∷ ids) (v ∷ values) row distinct below same =
      let lt : ltb i (length row) ≡ true = lt→ltb i (length row) below.0 in
      let (out, e, p) =
        scatter-Placed ids values (set row i v) distinct.1 (rw (length-set row i v) below.1)
          (omega arith) in
      let at : get_elem? out i ≡ some v =
        p.kept i distinct.0 ∙ get_elem?-set_self row i v below.0 in
      (
        out,
        rw lt e,
        record {
          length_lem = p.length_lem ∙ length-set row i v;
          kept = λ j h. p.kept j h.1 ∙ get_elem?-set_ne row i j v (λ z. h.0 (sym z));
          selected = rw (at, p.selected) refl;
        },
      )

module _ {F : Type 0} (fl : Floats F) where
  -- For used channels that are distinct and below the dimension of actions, a compact action of their
  -- number, and a template of every channel: the full action exists and has a number for every
  -- channel, the compact action is read from it again, and every channel that is not used holds
  -- what the template has there.
  pub to_compact-compact_to_full :
      (ad : Adapter F) (compact template : List F)
      → Distinct ad.used_action_channel_ids
      → All (λ i. i < ad.robot_action_dim) ad.used_action_channel_ids
      → length compact ≡ length ad.used_action_channel_ids
      → length template ≡ ad.robot_action_dim
      → (full : List F) × (compact_to_full_action fl ad compact (some template) ≡ ok full)
        × (length full ≡ ad.robot_action_dim)
        × (to_compact_execution_action fl ad full ≡ ok compact)
        × ((j : ℕ) → NotIn j ad.used_action_channel_ids → get_elem? full j ≡ get_elem? template j)
  unfolding compact_to_full_action template_or_zeros to_compact_execution_action
  to_compact-compact_to_full ad compact template distinct below same len =
      let (full, e, p) =
        scatter-Placed ad.used_action_channel_ids compact template distinct (rw len below) same in
      let fits : (length compact == length ad.used_action_channel_ids) ≡ true = ground arith in
      let whole : (length template == ad.robot_action_dim) ≡ true = ground arith in
      (full, rw (fits, whole) e, p.length_lem ∙ len, rw (p.selected, fits) refl, p.kept)
