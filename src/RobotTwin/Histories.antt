-- ===== src/RobotTwin/Histories.antt =====
-- The history of actions keeps its shape when it moves on (elefant/evaluation/robotwin/server.py).
use p2p_rdt.Common.{
  ℕ, ◌+◌, ◌-◌, ◌<◌, ◌==◌, ◌∙◌, List, [], ◌∷◌, ◌++◌, Option, none, some, arith, length, min, set,
  take, drop, map, get_elem?, leb, Bool-cases, inl, inr, length-append, length-set, length-drop,
  length-take, length-map, All-append,
}
use p2p_rdt.Common.Results.{
  Gives, Gives-bind, ensure, ensure-Gives, or_raise, index_error, value_error,
}
use p2p_rdt.RobotTwin.Floats.{Floats, zero_float}
use p2p_rdt.RobotTwin.Adapter.{
  rebase_normalized_actions, rebase_normalized_actions_to_observed_anchor,
}
use p2p_rdt.RobotTwin.Lengths.{HasLength, QuaternionLaws}
use p2p_rdt.RobotTwin.Rebasing.{
  HasShape, rebase_normalized_actions-Gives, rebase_to_observed_anchor-Gives,
}
use p2p_rdt.RobotTwin.Rolling.{assign_lem, All-set, All-drop, All-take, All-get}
use p2p_rdt.RobotTwin.Sequence.{
  Config, roll, assign, assign_last, zero_last, write_front,
  rebase_action_history_after_roll_legacy, rebase_action_history_after_roll, shifted,
  roll_warm_start_predictions,
}
use p2p_rdt.RobotTwin.Steady.{IsConfig, HasPreds}

module _ {A : Type 0} where
  HasShape-roll : (k n : ℕ) (rows : List (List A)) → HasShape k n rows → HasShape k n (roll rows)
  unfolding roll
  HasShape-roll k n [] h = h
  HasShape-roll k n (x ∷ xs) h = (
    omega (arith, length-append xs (x ∷ [])),
    All-append (HasLength n) xs (x ∷ []) h.1.1 (h.1.0, tt),
  )

  pub HasShape-set :
      (k n i : ℕ) (rows : List (List A)) (row : List A)
      → HasShape k n rows
      → HasLength n row
      → HasShape k n (set rows i row)
  HasShape-set k n i rows row h hr =
      (length-set rows i row ∙ h.0, All-set (HasLength n) rows i row hr h.1)

  -- A row that is in range.
  pub get-Gives :
      (k n i : ℕ) (rows : List (List A))
      → HasShape k n rows
      → i < k
      → Gives (HasLength n) (or_raise (get_elem? rows i) index_error)
  get-Gives k n i rows h lt =
      let (row, e, hr) = All-get (HasLength n) rows i (omega (arith, h.0)) h.1 in rw e hr

  pub assign-Gives :
      (k n i : ℕ) (rows : List (List A)) (row : List A)
      → HasShape k n rows
      → i < k
      → HasLength n row
      → Gives (HasShape k n) (assign rows i row)
  assign-Gives k n i rows row h lt hr =
      rw (assign_lem rows i row (omega (arith, h.0))) (HasShape-set k n i rows row h hr)

  pub HasShape-take :
      (k n i : ℕ) (rows : List (List A)) → HasShape k n rows → HasShape (min i k) n (take i rows)
  HasShape-take k n i rows h =
      (omega (arith, length-take i rows, h.0), All-take (HasLength n) rows i h.1)

  HasShape-shifted :
      (k n : ℕ) (rows : List (List A)) → HasShape k n rows → HasShape k n (shifted rows)
  unfolding shifted
  HasShape-shifted k n rows h = (
    omega (
      arith,
      length-append (drop 1 rows) (drop (length rows - 1) rows),
      length-drop 1 rows,
      length-drop (length rows - 1) rows,
      h.0,
    ),
    All-append (HasLength n) (drop 1 rows) (drop (length rows - 1) rows)
        (All-drop (HasLength n) rows 1 h.1) (All-drop (HasLength n) rows (length rows - 1) h.1),
  )

module _ {F Frame Text : Type 0} (fl : Floats F) (laws : QuaternionLaws fl)
    (c : Config F Frame Text) (fit : IsConfig c) where
  abbrev Actions : List (List F) → Type 0
  Actions = HasShape c.seq_len c.action_adapter.robot_action_dim

  zero_last-Gives : (rows : List (List F)) → Actions rows → Gives Actions (zero_last fl c rows)
  unfolding assign_last
  zero_last-Gives rows h =
      let dim = c.action_adapter.robot_action_dim in
      let at : length rows - 1 < c.seq_len = omega (arith, h.0, fit.positive) in
      Gives-bind (HasLength dim) _ (or_raise (get_elem? rows (length rows - 1)) index_error) _
        (get-Gives c.seq_len dim (length rows - 1) rows h at)
        λ last hl.
          assign-Gives c.seq_len dim (length rows - 1) rows (map (λ x. zero_float fl) last) h at
            (length-map last (λ x. zero_float fl) ∙ hl)

  pub roll-Gives :
      (rows : List (List F)) → Actions rows → Gives Actions (zero_last fl c (roll rows))
  roll-Gives rows h =
      zero_last-Gives (roll rows) (HasShape-roll c.seq_len c.action_adapter.robot_action_dim rows h)

  write_front-Gives :
      (history rebased : List (List F))
      → Actions history
      → HasShape (c.seq_len - 1) c.action_adapter.robot_action_dim rebased
      → Gives Actions (write_front fl c history rebased)
  write_front-Gives history rebased h hr =
      let dim = c.action_adapter.robot_action_dim in
      Gives-bind (λ u. Unit {0}) _ (ensure (length rebased + 1 == length history) value_error) _
        (ensure-Gives _ value_error (ground (arith, h.0, hr.0, fit.positive)))
        λ u t.
          Gives-bind (HasLength dim) _
            (or_raise (get_elem? history (length history - 1)) index_error) _
            (get-Gives c.seq_len dim (length history - 1) history h
              (omega (arith, h.0, fit.positive)))
            λ last hl. zero_last-Gives (rebased ++ (last ∷ [])) (
              omega (arith, length-append rebased (last ∷ []), hr.0, fit.positive),
              All-append (HasLength dim) rebased (last ∷ []) hr.1 (hl, tt),
            )

  front-HasShape :
      (history : List (List F))
      → Actions history
      → HasShape (c.seq_len - 1) c.action_adapter.robot_action_dim (take (c.seq_len - 1) history)
  front-HasShape history h =
      let s = HasShape-take c.seq_len c.action_adapter.robot_action_dim (c.seq_len - 1) history h in
      (omega (arith, s.0), s.1)

  pub rebase_action_history_legacy-Gives :
      (history : List (List F))
      → Actions history
      → Gives Actions (rebase_action_history_after_roll_legacy fl c history)
  unfolding rebase_action_history_after_roll_legacy
  rebase_action_history_legacy-Gives history h =
      let dim = c.action_adapter.robot_action_dim in
      elim (Bool-cases (leb c.seq_len 1)) [
        | inl short ↦ rw short h
        | inr long ↦ rw long (
            Gives-bind (HasLength dim) _ (or_raise (get_elem? history 0) index_error) _
              (get-Gives c.seq_len dim 0 history h (ground arith))
              λ reference hr.
                Gives-bind (HasShape (c.seq_len - 1) dim) _
                  (rebase_normalized_actions fl c.action_adapter (take (c.seq_len - 1) history)
                    reference)
                  _
                  (rebase_normalized_actions-Gives fl laws c.action_adapter fit.is_adapter
                    (c.seq_len - 1) (take (c.seq_len - 1) history) reference (ground arith)
                    (front-HasShape history h) hr)
                  (λ rebased hs. write_front-Gives history rebased h hs))
      ]

  pub rebase_action_history-Gives :
      (history : List (List F)) (previous new : List F)
      → Actions history
      → HasLength 16 previous
      → HasLength 16 new
      → Gives Actions (rebase_action_history_after_roll fl c history previous new)
  unfolding rebase_action_history_after_roll
  rebase_action_history-Gives history previous new h hp hn = elim (Bool-cases (leb c.seq_len 1)) [
    | inl short ↦ rw short h
    | inr long ↦ rw long (
        Gives-bind (HasShape (c.seq_len - 1) c.action_adapter.robot_action_dim) _
          (rebase_normalized_actions_to_observed_anchor fl c.action_adapter
            (take (c.seq_len - 1) history) previous new)
          _
          (rebase_to_observed_anchor-Gives fl laws c.action_adapter fit.is_adapter (c.seq_len - 1)
            (take (c.seq_len - 1) history) previous new (ground arith) (front-HasShape history h) hp
            hn)
          (λ rebased hs. write_front-Gives history rebased h hs))
  ]

  pub roll_warm_start-Gives :
      (preds : Option (List (List F))) (previous new : List F)
      → HasPreds c preds
      → HasLength 16 previous
      → HasLength 16 new
      → Gives (HasPreds c) (roll_warm_start_predictions fl c preds previous new)
  unfolding roll_warm_start_predictions
  roll_warm_start-Gives none previous new h hp hn = tt
  roll_warm_start-Gives (some preds) previous new h hp hn =
      let dim = c.action_adapter.robot_action_dim in
      Gives-bind (HasShape c.seq_len dim) _
        (rebase_normalized_actions_to_observed_anchor fl c.action_adapter (shifted preds) previous
          new)
        _
        (rebase_to_observed_anchor-Gives fl laws c.action_adapter fit.is_adapter c.seq_len
          (shifted preds) previous new fit.positive (HasShape-shifted c.seq_len dim preds h) hp hn)
        λ rebased hr. hr
