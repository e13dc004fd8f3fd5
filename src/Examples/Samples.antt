-- ===== src/Examples/Samples.antt =====
-- Runs of the LeRobot dataset (elefant/data/lerobot_latent_dataset.py).
use p2p_rdt.Common.{
  ℕ, ◌+◌, ◌<◌, ◌≡◌, ◌⊎◌, refl, true, false, List, [], ◌∷◌, none, some, arith, length, take,
  get_elem?, replicate,
}
use p2p_rdt.Common.Int.{pos, ◌≤ℤ◌, ◌<ℤ◌}
use p2p_rdt.Common.Results.{key_error, ok, raise, assertion_error}
use p2p_rdt.Lerobot.Alignment.{arange, strided, group, align_actions}
use p2p_rdt.Lerobot.Channels as Channels
use p2p_rdt.Lerobot.Channels.{resolve_action_dim, resolve_inverse_used_action_channel_ids, select}
use p2p_rdt.Lerobot.Groups.{align_actions_lem}
use p2p_rdt.Lerobot.Index.{Dataset, total, get_item, get_item_lem, get_item_cases}
use p2p_rdt.Lerobot.Meta.{Episode, Meta, Latents, get_episode_chunk, parse_meta}
use p2p_rdt.Lerobot.Usable.{IsUsable, parse_meta-IsUsable, parse_meta_total}
use p2p_rdt.Common.{All, ◌==◌}
use p2p_rdt.Common.Results.{IsOk}
use p2p_rdt.Lerobot.Scatter.{NotIn, select_inverse}

abbrev two : Dataset ℕ
two = record { len = 2; item = λ i. ok (10 + i) }

abbrev three : Dataset ℕ
three = record { len = 3; item = λ i. ok (20 + i) }

get_item_lem_example :
    get_item (two ∷ three ∷ []) (pos (total (take 1 (two ∷ three ∷ [])) + 2)) ≡ ok 22
get_item_lem_example = get_item_lem (two ∷ three ∷ []) 1 2 refl (omega arith)

get_item_cases_example :
    ((d : ℕ) × (i : ℕ) × (x : Dataset ℕ) × (get_elem? (two ∷ three ∷ []) d ≡ some x)
      × (i < x.len)
      × (pos 4 ≡ pos (total (take d (two ∷ three ∷ [])) + i))
      × (get_item (two ∷ three ∷ []) (pos 4) ≡ x.item i))
    ⊎ (((pos (total (two ∷ three ∷ [])) ≤ℤ pos 4)
          × (get_item (two ∷ three ∷ []) (pos 4) ≡ raise assertion_error))
        ⊎ ((pos 4 <ℤ pos 0) × (get_item (two ∷ three ∷ []) (pos 4) ≡ raise key_error)))
get_item_cases_example = get_item_cases (two ∷ three ∷ []) (pos 4)

abbrev two_of_four : Channels.Config
two_of_four = record {
  action_dim = some 4;
  robot_action_dim = none;
  inverse_used_action_channel_ids = [];
  used_action_channel_ids = 3 ∷ 1 ∷ [];
}

resolve_action_dim_lem : resolve_action_dim two_of_four ≡ ok 4
unfolding resolve_action_dim
resolve_action_dim_lem = refl

unused_lem : NotIn 3 (1 ∷ [])
unused_lem = ((λ e. omega arith), tt)

select_inverse_example :
    (inv : List ℕ) × (out : List ℕ) × (resolve_inverse_used_action_channel_ids two_of_four ≡ ok inv)
    × (select inv (70 ∷ 80 ∷ 0 ∷ []) ≡ ok out)
    × (length out ≡ 4)
    × ((i j : ℕ) → get_elem? (3 ∷ 1 ∷ []) i ≡ some j → get_elem? out j ≡ get_elem? (70 ∷ 80 ∷ []) i)
    × ((j : ℕ) → j < 4 → NotIn j (3 ∷ 1 ∷ []) → get_elem? out j ≡ some 0)
select_inverse_example =
    select_inverse two_of_four 3 (1 ∷ []) 4 (70 ∷ 80 ∷ []) 0 refl resolve_action_dim_lem
      (unused_lem, (tt, tt)) (omega arith, (omega arith, tt)) refl

align_actions_lem_example :
    (align_actions {R = ℕ} 0 2 (arange 40 5) (1 ∷ 2 ∷ 3 ∷ 4 ∷ 5 ∷ [])
      ≡ ok (
        (0 ∷ 0 ∷ []) ∷ group 2 2 (1 ∷ 2 ∷ 3 ∷ 4 ∷ []),
        (false ∷ false ∷ []) ∷ replicate 2 (true ∷ true ∷ []),
      ))
    × (length (strided {A = ℕ} 0 2 (6 ∷ 7 ∷ 8 ∷ 9 ∷ 10 ∷ [])) ≡ 3)
align_actions_lem_example =
    align_actions_lem {R = ℕ} 0 {F = ℕ} (6 ∷ 7 ∷ 8 ∷ 9 ∷ 10 ∷ []) 40 2 (1 ∷ 2 ∷ 3 ∷ 4 ∷ 5 ∷ [])
      (omega arith) (omega arith) refl

abbrev demo : Episode
demo = record {
  episode_index = 7;
  tasks = "pick" ∷ [];
  action_config =
      record { start_frame = 0; end_frame = 9 } ∷ record { start_frame = 9; end_frame = 20 } ∷ [];
}

-- The files of the first segment only.
abbrev first_latents : Latents
first_latents = λ chunk key episode start end. end == 9

abbrev first_segment : Meta
first_segment = record { episode_index = 7; tasks = "pick" ∷ []; start_frame = 0; end_frame = 9 }

parsed : parse_meta first_latents ("top" ∷ []) ((7, 0) ∷ []) (demo ∷ []) ≡ ok (first_segment ∷ [])
unfolding parse_meta
parsed = refl

chunk_known : IsOk (get_episode_chunk ((7, 0) ∷ []) 7)
unfolding get_episode_chunk
chunk_known = tt

parse_meta-IsUsable_example :
    All (IsUsable first_latents ("top" ∷ []) ((7, 0) ∷ [])) (first_segment ∷ [])
parse_meta-IsUsable_example =
    parse_meta-IsUsable first_latents ("top" ∷ []) ((7, 0) ∷ []) (demo ∷ []) parsed

parse_meta_total_example : IsOk (parse_meta first_latents ("top" ∷ []) ((7, 0) ∷ []) (demo ∷ []))
parse_meta_total_example =
    parse_meta_total first_latents ("top" ∷ []) ((7, 0) ∷ []) (demo ∷ []) (chunk_known, tt)
