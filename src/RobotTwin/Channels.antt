-- ===== src/RobotTwin/Channels.antt =====
-- The channels of an action (elefant/evaluation/robotwin/common.py): what is written at the used
-- channels can be read there, and an adapter that was made never refuses an action of its size.
use p2p_rdt.Common.{
  ℕ, suc, ◌<◌, ◌≡◌, ◌==◌, refl, ap, ◌∙◌, true, List, [], ◌∷◌, none, some, arith, length, map, set,
  replicate, All, ltb, lt→ltb, length-set, length-map, length-replicate, get_elem?_of_lt,
}
use p2p_rdt.Common.Results.{Gives, Gives-bind, ensure, ensure-Gives, value_error}
use p2p_rdt.Lerobot.Channels.{select}
use p2p_rdt.RobotTwin.Adapter.{
  Adapter, scatter, norm_scale, normalize_action, denormalize, template_or_zeros,
  compact_to_full_action, to_compact_execution_action,
}
use p2p_rdt.RobotTwin.Floats.{Floats, zip_with, zero_float, one_float}
use p2p_rdt.RobotTwin.Lengths.{HasLength, length-zip_with}

-- The statistics have a number for each channel, and the used channels are the 16 of a pose.
pub record IsAdapter {F : Type 0} (ad : Adapter F) : Type 0 where
  pub q01 : length ad.q01 ≡ ad.robot_action_dim
  pub q99 : length ad.q99 ≡ ad.robot_action_dim
  pub sixteen : length ad.used_action_channel_ids ≡ 16
  pub below : All (λ i. i < ad.robot_action_dim) ad.used_action_channel_ids

module _ {A : Type 0} where
  pub scatter-Gives :
      (n : ℕ) (ids : List ℕ) (values row : List A)
      → length values ≡ length ids
      → HasLength n row
      → All (λ i. i < n) ids
      → Gives (HasLength n) (scatter ids values row)
  unfolding scatter
  scatter-Gives n [] values row same h below = h
  scatter-Gives n (i ∷ ids) [] row same h below = absurd (omega arith)
  scatter-Gives n (i ∷ ids) (v ∷ values) row same h below =
      let lt : ltb i (length row) ≡ true = lt→ltb i (length row) (omega (arith, below.0)) in
      rw lt
        (scatter-Gives n ids values (set row i v) (omega arith) (length-set row i v ∙ h) below.1)

  pub select-Gives :
      (n : ℕ) (ids : List ℕ) (row : List A)
      → HasLength n row
      → All (λ i. i < n) ids
      → Gives (HasLength (length ids)) (select ids row)
  unfolding select
  select-Gives n [] row h below = refl
  select-Gives n (i ∷ ids) row h below =
      let (a, e) = get_elem?_of_lt row i (omega (arith, below.0)) in
      rw e (
        Gives-bind (HasLength (length ids)) _ (select ids row) _ (select-Gives n ids row h below.1)
          (λ rest hr. ap suc hr))

module _ {F : Type 0} (fl : Floats F) (ad : Adapter F) (is : IsAdapter ad) where
  abbrev Full : List F → Type 0
  Full = HasLength ad.robot_action_dim

  length-norm_scale : HasLength ad.robot_action_dim (norm_scale fl ad)
  unfolding norm_scale
  length-norm_scale =
      let difference = zip_with fl.minus ad.q99 ad.q01 in
      omega (
        arith,
        length-map difference (λ x. fl.plus x (fl.float 1 1000000)),
        length-zip_with fl.minus ad.q99 ad.q01,
        is.q01,
        is.q99,
      )

  pub normalize_action-Gives :
      (action : List F)
      → HasLength ad.robot_action_dim action
      → Gives (HasLength ad.robot_action_dim) (normalize_action fl ad action)
  unfolding normalize_action
  normalize_action-Gives action h =
      let moved = zip_with fl.minus action ad.q01 in
      let scaled = zip_with fl.over moved (norm_scale fl ad) in
      Gives-bind (λ u. Unit {0}) _ (ensure (length action == length ad.q01) value_error) _
        (ensure-Gives _ value_error (ground (arith, is.q01)))
        λ u t. omega (
          arith,
          length-map scaled (λ x. fl.minus (fl.times x (fl.float 2 1)) (one_float fl)),
          length-zip_with fl.over moved (norm_scale fl ad),
          length-zip_with fl.minus action ad.q01,
          length-norm_scale,
          is.q01,
        )

  pub denormalize-Gives :
      (action : List F)
      → HasLength ad.robot_action_dim action
      → Gives (HasLength ad.robot_action_dim) (denormalize fl ad action)
  unfolding denormalize
  denormalize-Gives action h =
      let half = map (λ x. fl.times (fl.plus x (one_float fl)) (fl.float 1 2)) action in
      let scaled = zip_with fl.times half (norm_scale fl ad) in
      Gives-bind (λ u. Unit {0}) _ (ensure (length action == ad.robot_action_dim) value_error) _
        (ensure-Gives _ value_error (ground arith))
        λ u t. omega (
          arith,
          length-zip_with fl.plus scaled ad.q01,
          length-zip_with fl.times half (norm_scale fl ad),
          length-map action (λ x. fl.times (fl.plus x (one_float fl)) (fl.float 1 2)),
          length-norm_scale,
          is.q01,
        )

  pub compact_to_full_action-Gives :
      (compact : List F) (template : List F)
      → HasLength 16 compact
      → HasLength ad.robot_action_dim template
      → Gives (HasLength ad.robot_action_dim) (compact_to_full_action fl ad compact (some template))
  unfolding compact_to_full_action template_or_zeros
  compact_to_full_action-Gives compact template h ht =
      let fits : (length compact == length ad.used_action_channel_ids) ≡ true =
        ground (arith, is.sixteen) in
      let full : (length template == ad.robot_action_dim) ≡ true = ground arith in
      rw (fits, full)
        (scatter-Gives ad.robot_action_dim ad.used_action_channel_ids compact template
          (omega (arith, is.sixteen)) ht is.below)

  pub compact_to_zeros-Gives :
      (compact : List F)
      → HasLength 16 compact
      → Gives (HasLength ad.robot_action_dim) (compact_to_full_action fl ad compact none)
  unfolding compact_to_full_action template_or_zeros
  compact_to_zeros-Gives compact h =
      let fits : (length compact == length ad.used_action_channel_ids) ≡ true =
        ground (arith, is.sixteen) in
      rw fits (
        scatter-Gives ad.robot_action_dim ad.used_action_channel_ids compact
          (replicate ad.robot_action_dim (zero_float fl)) (omega (arith, is.sixteen))
          (length-replicate ad.robot_action_dim (zero_float fl)) is.below)

  pub to_compact_execution_action-Gives :
      (action : List F)
      → HasLength ad.robot_action_dim action
      → Gives (HasLength 16) (to_compact_execution_action fl ad action)
  unfolding to_compact_execution_action
  to_compact_execution_action-Gives action h =
      Gives-bind (HasLength (length ad.used_action_channel_ids)) _
        (select ad.used_action_channel_ids action) _
        (select-Gives ad.robot_action_dim ad.used_action_channel_ids action h is.below)
        λ compact hc.
          let fits : (length compact == length ad.used_action_channel_ids) ≡ true = ground arith in
          rw fits (omega (arith, is.sixteen))
