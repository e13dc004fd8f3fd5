-- ===== src/Lerobot/Channels.antt =====
-- `_resolve_action_dim` and `_resolve_inverse_used_action_channel_ids`
-- (elefant/data/lerobot_latent_dataset.py), and the row of channels that the inverse selects.
use p2p_rdt.Common.{
  ℕ, suc, ◌+◌, List, [], ◌∷◌, Option, none, some, length, get_elem?, set, replicate, max, ltb,
}
use p2p_rdt.Common.Results.{
  Result, ok, raise, ◌>>=◌, ◌>>◌, ensure, or_raise, value_error, index_error,
}

-- The fields of the configuration that decide the channels; a missing list is the empty one.
pub record Config : Type 0 where
  pub action_dim : Option ℕ
  pub robot_action_dim : Option ℕ
  pub inverse_used_action_channel_ids : List ℕ
  pub used_action_channel_ids : List ℕ

-- `max(ids)`, of a list that is not empty.
unfoldable pub maximum : ℕ → List ℕ → ℕ
maximum m [] = m
maximum m (k ∷ ks) = maximum (max m k) ks

unfoldable pub resolve_action_dim : Config → Result ℕ
unfolding maximum
resolve_action_dim c = elim c.action_dim [
  | some n ↦ ok n
  | none ↦ elim c.robot_action_dim [
    | some n ↦ ok n
    | none ↦ elim c.inverse_used_action_channel_ids [
      | i ∷ is ↦ ok (suc (length is))
      | [] ↦ elim c.used_action_channel_ids [
        | k ∷ ks ↦ ok (maximum k ks + 1)
        | [] ↦ raise value_error
      ]
    ]
  ]
]

-- `for i, j in enumerate(used_ids): inverse_ids[j] = i`
unfoldable pub invert : ℕ → List ℕ → List ℕ → Result (List ℕ)
invert i [] inverse_ids = ok inverse_ids
invert i (j ∷ used_ids) inverse_ids = do
  ensure (ltb j (length inverse_ids)) index_error
  invert (i + 1) used_ids (set inverse_ids j i)

unfoldable pub resolve_inverse_used_action_channel_ids : Config → Result (List ℕ)
unfolding resolve_action_dim invert
resolve_inverse_used_action_channel_ids c = elim c.used_action_channel_ids [
  | k ∷ ks ↦ (do
    action_dim ← resolve_action_dim c
    invert 0 (k ∷ ks) (replicate action_dim (suc (length ks))))
  | [] ↦ elim c.inverse_used_action_channel_ids [ i ∷ is ↦ ok (i ∷ is) | [] ↦ raise value_error ]
]

-- `padded[:, inverse_ids]` of one row, that a last channel `pad` was appended to.
unfoldable pub select : {A : Type 0} → List ℕ → List A → Result (List A)
select [] row = ok []
select (i ∷ inverse_ids) row = do
  a ← or_raise (get_elem? row i) index_error
  rest ← select inverse_ids row
  ok (a ∷ rest)
