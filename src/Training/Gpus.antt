-- ===== src/Training/Gpus.antt =====
-- The choice of GPUs (elefant/policy_model/stage3_finetune.py). The probe of a device runs a
-- process, and nvidia-smi gives the inventory: both are parameters.
use p2p_rdt.Common.{
  ℕ, ◌*◌, ◌==◌, Bool, false, not, ◌&&◌, ◌||◌, String, List, [], ◌∷◌, Option, none, some, length,
  max, leb, str_eq, if◌then◌else◌, map,
}
use p2p_rdt.Common.Results.{Result, ok, raise, ◌>>=◌, value_error, runtime_error}

pub record Gpu : Type 0 where
  pub index : ℕ
  pub uuid : String
  pub free_mb : ℕ
  pub total_mb : ℕ

-- The accelerator and number of devices that are returned; `exported` is CUDA_VISIBLE_DEVICES when
-- it is written.
pub data Selection : Type 0 where
  auto : Selection
  gpu : ℕ → Option (List ℕ) → Selection

-- `int(part)` of each part of CUDA_VISIBLE_DEVICES; `none` is a part that is no number, and
-- no number is negative.
unfoldable pub requested_indices : List (Option ℕ) → Result (List ℕ)
requested_indices [] = ok []
requested_indices (none ∷ parts) = raise value_error
requested_indices (some index ∷ parts) = do indices ← requested_indices parts; ok (index ∷ indices)

-- `_probe_requested_gpu_indices`: the indices that pass.
unfoldable pub usable_indices : (ℕ → Bool) → List ℕ → List ℕ
usable_indices probe [] = []
usable_indices probe (index ∷ indices) =
    let rest = usable_indices probe indices in if probe index then index ∷ rest else rest

-- What becomes of the indices that pass the probe, out of the requested ones.
unfoldable pub select_usable : List ℕ → List ℕ → Result Selection
select_usable requested usable =
    if length usable == 0
    then raise runtime_error
    else if length usable == length requested
    then ok (gpu (max (length requested) 1) none)
    else ok (gpu (max (length usable) 1) (some usable))

-- The part of `_select_training_gpus` for a CUDA_VISIBLE_DEVICES that is set.
unfoldable pub select_requested : (ℕ → Bool) → List (Option ℕ) → Result Selection
unfolding requested_indices usable_indices select_usable
select_requested probe parts = do
  requested ← requested_indices parts
  select_usable requested (usable_indices probe requested)

abbrev pub mem_str : String → List String → Bool
mem_str s [] = false
mem_str s (t ∷ ts) = str_eq s t || mem_str s ts

-- Not busy, at least 8 GiB free, and at least half of its memory.
unfoldable pub is_free : List String → Gpu → Bool
is_free busy g =
    not (mem_str g.uuid busy)
    && (leb (8 * 1024) g.free_mb && leb (max g.total_mb 1) (2 * g.free_mb))

unfoldable pub free_gpus : List String → List Gpu → List Gpu
unfolding is_free
free_gpus busy [] = []
free_gpus busy (g ∷ gs) = let rest = free_gpus busy gs in if is_free busy g then g ∷ rest else rest

abbrev pub index_of : Gpu → ℕ
index_of g = g.index

-- The part of `_select_training_gpus` for an inventory.
unfoldable pub select_free : List Gpu → List String → Selection
unfolding free_gpus
select_free inventory busy =
    let free = free_gpus busy inventory in
    if length free == 0
    then auto
    else if length free == length inventory
    then gpu (length free) none
    else gpu (length free) (some (map index_of free))

-- `_select_training_gpus`, of CUDA_VISIBLE_DEVICES if it is set and not empty, and of the inventory with the busy
-- GPUs if nvidia-smi gives it.
unfoldable pub select_training_gpus :
    (ℕ → Bool) → Option (List (Option ℕ)) → Option (List Gpu × List String) → Result Selection
unfolding select_requested select_free
select_training_gpus probe (some parts) inventory = select_requested probe parts
select_training_gpus probe none none = ok auto
select_training_gpus probe none (some (inventory, busy)) = ok (select_free inventory busy)
