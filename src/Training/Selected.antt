-- ===== src/Training/Selected.antt =====
-- Which GPUs a training run sees (elefant/policy_model/stage3_finetune.py).
use p2p_rdt.Common.{
  ℕ, ◌≤◌, ◌<◌, ◌≡◌, ◌⊎◌, refl, sym, ap, ◌∙◌, Bool, true, false, ◌==◌, String, List, [], ◌∷◌, Option,
  none, some, arith, length, map, max, All, Bool-cases, inl, inr, length-map,
}
use p2p_rdt.Common.Results.{ok, raise, runtime_error}
use p2p_rdt.Training.Gpus.{
  Gpu, auto, gpu, requested_indices, usable_indices, select_requested, select_usable, is_free,
  free_gpus, index_of, select_free, select_training_gpus,
}

-- The devices that are visible after the choice: those exported, or those before.
abbrev pub visible : List ℕ → Option (List ℕ) → List ℕ
visible before none = before
visible before (some exported) = exported

requested-map : (indices : List ℕ) → requested_indices (map some indices) ≡ ok indices
unfolding requested_indices
requested-map [] = refl
requested-map (i ∷ indices) = rw (requested-map indices) refl

usable-All :
    (probe : ℕ → Bool) (indices : List ℕ) → All (λ i. probe i ≡ true) (usable_indices probe indices)
unfolding usable_indices
usable-All probe [] = tt
usable-All probe (i ∷ indices) = elim (Bool-cases (probe i)) [
  | inl good ↦ rw (good) (good, usable-All probe indices)
  | inr bad ↦ rw bad (usable-All probe indices)
]

length-usable :
    (probe : ℕ → Bool) (indices : List ℕ) → length (usable_indices probe indices) ≤ length indices
unfolding usable_indices
length-usable probe [] = omega arith
length-usable probe (i ∷ indices) = ground (arith, length-usable probe indices)

usable_all :
    (probe : ℕ → Bool) (indices : List ℕ)
    → length (usable_indices probe indices) ≡ length indices
    → usable_indices probe indices ≡ indices
unfolding usable_indices
usable_all probe [] e = refl
usable_all probe (i ∷ indices) e = elim (Bool-cases (probe i)) [
  | inl good ↦ rw good (ap (◌∷◌ i) (usable_all probe indices (ground (arith, good, e))))
  | inr bad ↦ absurd (ground (arith, bad, e, length-usable probe indices))
]

usable_none :
    (probe : ℕ → Bool) (indices : List ℕ)
    → length (usable_indices probe indices) ≡ 0
    → All (λ i. probe i ≡ false) indices
unfolding usable_indices
usable_none probe [] e = tt
usable_none probe (i ∷ indices) e = elim (Bool-cases (probe i)) [
  | inl good ↦ absurd (ground (arith, good, e))
  | inr bad ↦ (bad, usable_none probe indices (ground (arith, bad, e)))
]

-- When CUDA_VISIBLE_DEVICES lists numbers: a number of devices is returned that is positive and that of the
-- devices visible afterwards, which are exactly the requested ones that pass the probe, in order, and
-- all of them pass; or none of the requested ones passes, and it raises RuntimeError.
pub select_requested_cases :
    (probe : ℕ → Bool) (indices : List ℕ) (inventory : Option (List Gpu × List String))
    → ((n : ℕ) × (exported : Option (List ℕ)) × (select_training_gpus probe
            (some (map some indices))
            inventory
          ≡ ok (gpu n exported))
        × (0 < n)
        × (n ≡ length (visible indices exported))
        × (visible indices exported ≡ usable_indices probe indices)
        × All (λ i. probe i ≡ true) (visible indices exported))
      ⊎ ((select_training_gpus probe (some (map some indices)) inventory ≡ raise runtime_error)
          × All (λ i. probe i ≡ false) indices)
unfolding select_training_gpus select_requested select_usable
select_requested_cases probe indices inventory =
    let usable = usable_indices probe indices in
    let passes = usable-All probe indices in
    elim (Bool-cases (length usable == 0)) [
      | inl zero' ↦
          inr (rw (requested-map indices, zero') refl, usable_none probe indices (ground arith))
      | inr some' ↦ elim (Bool-cases (length usable == length indices)) [
        | inl all' ↦
            let same : usable ≡ indices = usable_all probe indices (ground arith) in
            inl (
              max (length indices) 1,
              none,
              rw (requested-map indices, some', all') refl,
              omega arith,
              ground arith,
              sym same,
              rw (← same) passes,
            )
        | inr fewer ↦ inl (
          max (length usable) 1,
          some usable,
          rw (requested-map indices, some', fewer) refl,
          omega arith,
          ground arith,
          refl,
          passes,
        )
      ]
    ]

free-All :
    (busy : List String) (gs : List Gpu) → All (λ g. is_free busy g ≡ true) (free_gpus busy gs)
unfolding free_gpus
free-All busy [] = tt
free-All busy (g ∷ gs) = elim (Bool-cases (is_free busy g)) [
  | inl free ↦ rw free (free, free-All busy gs)
  | inr taken ↦ rw taken (free-All busy gs)
]

free_none :
    (busy : List String) (gs : List Gpu)
    → length (free_gpus busy gs) ≡ 0
    → All (λ g. is_free busy g ≡ false) gs
unfolding free_gpus
free_none busy [] e = tt
free_none busy (g ∷ gs) e = elim (Bool-cases (is_free busy g)) [
  | inl free ↦ absurd (ground (arith, free, e))
  | inr taken ↦ (taken, free_none busy gs (ground (arith, taken, e)))
]

length-free : (busy : List String) (gs : List Gpu) → length (free_gpus busy gs) ≤ length gs
unfolding free_gpus
length-free busy [] = omega arith
length-free busy (g ∷ gs) = ground (arith, length-free busy gs)

free_all :
    (busy : List String) (gs : List Gpu)
    → length (free_gpus busy gs) ≡ length gs
    → free_gpus busy gs ≡ gs
unfolding free_gpus
free_all busy [] e = refl
free_all busy (g ∷ gs) e = elim (Bool-cases (is_free busy g)) [
  | inl free ↦ rw free (ap (◌∷◌ g) (free_all busy gs (ground (arith, free, e))))
  | inr taken ↦ absurd (ground (arith, taken, e, length-free busy gs))
]

-- When CUDA_VISIBLE_DEVICES is not set and nvidia-smi gives an inventory: a number of devices is returned that
-- is positive and that of the devices visible afterwards, which are GPUs of the
-- inventory that are all free; or no GPU of the inventory is free, and the choice is left open.
pub select_free_cases :
    (probe : ℕ → Bool) (inventory : List Gpu) (busy : List String)
    → ((n : ℕ) × (exported : Option (List ℕ)) × (chosen : List Gpu) × (select_training_gpus probe
            none
            (some (inventory, busy))
          ≡ ok (gpu n exported))
        × (0 < n)
        × (n ≡ length (visible (map index_of inventory) exported))
        × (visible (map index_of inventory) exported ≡ map index_of chosen)
        × (chosen ≡ free_gpus busy inventory)
        × All (λ g. is_free busy g ≡ true) chosen)
      ⊎ ((select_training_gpus probe none (some (inventory, busy)) ≡ ok auto)
          × All (λ g. is_free busy g ≡ false) inventory)
unfolding select_training_gpus select_free
select_free_cases probe inventory busy =
    let free = free_gpus busy inventory in
    elim (Bool-cases (length free == 0)) [
      | inl zero' ↦ inr (rw zero' refl, free_none busy inventory (ground arith))
      | inr some' ↦ elim (Bool-cases (length free == length inventory)) [
        | inl all' ↦
            let same : free ≡ inventory = free_all busy inventory (ground arith) in
            inl (
              length free,
              none,
              free,
              rw (some', all') refl,
              ground arith,
              ap length same ∙ sym (length-map inventory index_of),
              ap (map index_of) (sym same),
              refl,
              free-All busy inventory,
            )
        | inr fewer ↦ inl (
          length free,
          some (map index_of free),
          free,
          rw (some', fewer) refl,
          ground arith,
          sym (length-map free index_of),
          refl,
          refl,
          free-All busy inventory,
        )
      ]
    ]
