-- ===== src/RobotTwin/Rebasing.antt =====
-- Actions that move to a new anchor (elefant/evaluation/robotwin/common.py) keep their number and
-- their size.
use p2p_rdt.Common.{
  ℕ, ◌-◌, ◌<◌, ◌≡◌, ◌==◌, refl, true, not, List, [], ◌∷◌, Option, some, none, arith, length, all,
  All,
}
use p2p_rdt.Common.Results.{Gives, Gives-bind, ensure, ensure-Gives, value_error}
use p2p_rdt.RobotTwin.Adapter.{
  Adapter, normalize_action, denormalize, compact_to_full_action, to_compact_execution_action,
  rebase_one, rebase_each, rebase_normalized_actions, rebase_normalized_actions_to_observed_anchor,
}
use p2p_rdt.RobotTwin.Channels.{
  IsAdapter, normalize_action-Gives, denormalize-Gives, compact_to_full_action-Gives,
  compact_to_zeros-Gives, to_compact_execution_action-Gives,
}
use p2p_rdt.RobotTwin.Floats.{Floats}
use p2p_rdt.RobotTwin.Lengths.{
  HasLength, QuaternionLaws, rebase_compact_relative_action-Gives,
  absolute_to_relative_compact_action-Gives,
}
use p2p_rdt.RobotTwin.Pose.{rebase_compact_relative_action, absolute_to_relative_compact_action}

module _ {A : Type 0} where
  -- A tensor of `k` rows of `n` numbers.
  abbrev pub HasShape : ℕ → ℕ → List (List A) → Type 0
  HasShape k n rows = (length rows ≡ k) × All (HasLength n) rows

  -- The action executed before, if there is one, has 16 numbers.
  abbrev pub HasPrevious : Option (List A) → Type 0
  HasPrevious none = Unit
  HasPrevious (some previous) = HasLength 16 previous

  pub all_of_All :
      (n : ℕ) (rows : List (List A))
      → All (HasLength n) rows
      → all (λ row. length row == n) rows ≡ true
  all_of_All n [] h = refl
  all_of_All n (row ∷ rows) h = let rest = all_of_All n rows h.1 in ground arith

module _ {F : Type 0} (fl : Floats F) (laws : QuaternionLaws fl) (ad : Adapter F)
    (is : IsAdapter ad) where
  rebase_one-Gives :
      (anchor action : List F)
      → HasLength 16 anchor
      → HasLength ad.robot_action_dim action
      → Gives (HasLength ad.robot_action_dim) (rebase_one fl ad anchor action)
  unfolding rebase_one
  rebase_one-Gives anchor action ha h =
      Gives-bind (HasLength ad.robot_action_dim) _ (denormalize fl ad action) _
        (denormalize-Gives fl ad is action h)
        λ full hf.
          Gives-bind (HasLength 16) _ (to_compact_execution_action fl ad full) _
            (to_compact_execution_action-Gives fl ad is full hf)
            λ compact hc.
              Gives-bind (HasLength 16) _ (rebase_compact_relative_action fl compact anchor) _
                (rebase_compact_relative_action-Gives fl laws compact anchor hc ha)
                λ rebased hr.
                  Gives-bind (HasLength ad.robot_action_dim) _
                    (compact_to_full_action fl ad rebased (some full)) _
                    (compact_to_full_action-Gives fl ad is rebased full hr hf)
                    (normalize_action-Gives fl ad is)

  rebase_each-Gives :
      (k : ℕ) (anchor : List F) (actions : List (List F))
      → HasLength 16 anchor
      → HasShape k ad.robot_action_dim actions
      → Gives (HasShape k ad.robot_action_dim) (rebase_each fl ad anchor actions)
  unfolding rebase_each
  rebase_each-Gives k anchor [] ha h = h
  rebase_each-Gives k anchor (action ∷ actions) ha h =
      Gives-bind (HasLength ad.robot_action_dim) _ (rebase_one fl ad anchor action) _
        (rebase_one-Gives anchor action ha h.1.0)
        λ rebased hr.
          Gives-bind (HasShape (k - 1) ad.robot_action_dim) _ (rebase_each fl ad anchor actions) _
            (rebase_each-Gives (k - 1) anchor actions ha (omega arith, h.1.1))
            λ rest hs. (omega arith, (hr, hs.1))

  pub rebase_normalized_actions-Gives :
      (k : ℕ) (actions : List (List F)) (anchor : List F)
      → 0 < k
      → HasShape k ad.robot_action_dim actions
      → HasLength ad.robot_action_dim anchor
      → Gives (HasShape k ad.robot_action_dim) (rebase_normalized_actions fl ad actions anchor)
  unfolding rebase_normalized_actions
  rebase_normalized_actions-Gives k actions anchor pos h ha =
      Gives-bind (λ u. Unit {0}) _
        (ensure (all (λ action. length action == ad.robot_action_dim) actions) value_error) _
        (ensure-Gives _ value_error (all_of_All ad.robot_action_dim actions h.1))
        λ u t.
          Gives-bind (λ u. Unit {0}) _ (ensure (length anchor == ad.robot_action_dim) value_error) _
            (ensure-Gives _ value_error (ground arith))
            λ u t.
              Gives-bind (HasLength ad.robot_action_dim) _ (denormalize fl ad anchor) _
                (denormalize-Gives fl ad is anchor ha)
                λ full hf.
                  Gives-bind (HasLength 16) _ (to_compact_execution_action fl ad full) _
                    (to_compact_execution_action-Gives fl ad is full hf)
                    λ compact hc.
                      Gives-bind (HasShape k ad.robot_action_dim) _
                        (rebase_each fl ad compact actions) _
                        (rebase_each-Gives k compact actions hc h)
                        λ rebased hr.
                          Gives-bind (λ u. Unit {0}) _
                            (ensure (not (length rebased == 0)) value_error) _
                            (ensure-Gives _ value_error (ground arith)) λ u t. hr

  pub rebase_to_observed_anchor-Gives :
      (k : ℕ) (actions : List (List F)) (previous new : List F)
      → 0 < k
      → HasShape k ad.robot_action_dim actions
      → HasLength 16 previous
      → HasLength 16 new
      → Gives
          (HasShape k ad.robot_action_dim)
          (rebase_normalized_actions_to_observed_anchor fl ad actions previous new)
  unfolding rebase_normalized_actions_to_observed_anchor
  rebase_to_observed_anchor-Gives k actions previous new pos h hp hn =
      Gives-bind (HasLength 16) _ (absolute_to_relative_compact_action fl new previous) _
        (absolute_to_relative_compact_action-Gives fl laws new previous hn hp)
        λ compact hc.
          Gives-bind (HasLength ad.robot_action_dim) _ (compact_to_full_action fl ad compact none) _
            (compact_to_zeros-Gives fl ad is compact hc)
            λ full hf.
              Gives-bind (HasLength ad.robot_action_dim) _ (normalize_action fl ad full) _
                (normalize_action-Gives fl ad is full hf)
                λ anchor ha. rebase_normalized_actions-Gives k actions anchor pos h ha
