-- ===== src/Lerobot/Index.antt =====
-- `MultiLatentLeRobotDataset` (elefant/data/lerobot_latent_dataset.py).
use p2p_rdt.Common.{
  ◌⊎◌, inl, inr, Bool-cases, ltb→lt, ℕ, zero, suc, ◌+◌, ◌-◌, ◌≤◌, ◌<◌, ◌≡◌, refl, ap, ◌∙◌, true,
  List, [], ◌∷◌, ◌++◌, Option, none, some, arith, length, get_elem?, take, replicate, ltb,
  length-replicate, get_elem?-replicate, get_elem?-append_left, get_elem?-append_right,
  get_elem?-take,
}
use p2p_rdt.Common.Int.{ℤ, pos, negsuc, ltb_ℤ, ◌≤ℤ◌, ◌<ℤ◌}
use p2p_rdt.Common.Results.{
  Result, raise, ◌>>=◌, ◌>>◌, ensure, or_raise, assertion_error, key_error, index_error,
}

-- One of the datasets: its length and its items.
pub record Dataset (A : Type 0) : Type 0 where
  pub len : ℕ
  pub item : ℕ → Result A

module _ {A : Type 0} where
  -- `__len__`
  unfoldable pub total : List (Dataset A) → ℕ
  total [] = 0
  total (d ∷ ds) = d.len + total ds

  -- `item_id_to_dataset_id`, as the list of its values; `id` is the next dataset's number.
  unfoldable pub item_id_to_dataset_id : ℕ → List (Dataset A) → List ℕ
  item_id_to_dataset_id id [] = []
  item_id_to_dataset_id id (d ∷ ds) = replicate d.len id ++ item_id_to_dataset_id (id + 1) ds

  unfoldable pub acc_nums : ℕ → List (Dataset A) → List ℕ
  acc_nums acc [] = acc ∷ []
  acc_nums acc (d ∷ ds) = acc ∷ acc_nums (acc + d.len) ds

  unfoldable pub acc_dset_num : List (Dataset A) → List ℕ
  unfolding acc_nums
  acc_dset_num ds = take (length ds) (acc_nums 0 ds)

  -- `__getitem__`. A negative index is below the length, and no key of `item_id_to_dataset_id`.
  unfoldable pub get_item : List (Dataset A) → ℤ → Result A
  unfolding total item_id_to_dataset_id acc_dset_num
  get_item ds (negsuc n) = do
    ensure (ltb_ℤ (negsuc n) (pos (total ds))) assertion_error
    raise key_error
  get_item ds (pos idx) = do
    ensure (ltb idx (total ds)) assertion_error
    dset_id ← or_raise (get_elem? (item_id_to_dataset_id 0 ds) idx) key_error
    cur_dset ← or_raise (get_elem? ds dset_id) index_error
    acc ← or_raise (get_elem? (acc_dset_num ds) dset_id) key_error
    cur_dset.item (idx - acc)

  len_lem : {y x : Dataset A} → some y ≡ some x → y.len ≡ x.len
  len_lem {y} e = ap (λ (o : Option (Dataset A)). elim o [ none ↦ y.len | some d ↦ d.len ]) e

  dataset_id_lem :
      (ds : List (Dataset A)) (id d i : ℕ) {x : Dataset A}
      → get_elem? ds d ≡ some x
      → i < x.len
      → get_elem? (item_id_to_dataset_id id ds) (total (take d ds) + i) ≡ some (id + d)
  unfolding total item_id_to_dataset_id
  dataset_id_lem [] id d i e h = cc
  dataset_id_lem (y ∷ ds) id zero i e h =
      let lt : 0 + i < y.len = omega (arith, len_lem e) in
      let z : id ≡ id + 0 = omega arith in
      get_elem?-append_left (replicate y.len id) (item_id_to_dataset_id (id + 1) ds) (0 + i)
        (omega (arith, length-replicate y.len id))
      ∙ get_elem?-replicate y.len (0 + i) id lt
      ∙ ap some z
  dataset_id_lem (y ∷ ds) id (suc d) i e h =
      let z : id + 1 + d ≡ id + suc d = omega arith in
      get_elem?-append_right (replicate y.len id) (item_id_to_dataset_id (id + 1) ds)
        (y.len + total (take d ds) + i) (total (take d ds) + i)
        (omega (arith, length-replicate y.len id))
      ∙ dataset_id_lem ds (id + 1) d i e h
      ∙ ap some z

  acc_nums_lem :
      (ds : List (Dataset A)) (acc d : ℕ) {x : Dataset A}
      → get_elem? ds d ≡ some x
      → get_elem? (acc_nums acc ds) d ≡ some (acc + total (take d ds))
  unfolding total acc_nums
  acc_nums_lem [] acc d e = cc
  acc_nums_lem (y ∷ ds) acc zero e = let z : acc ≡ acc + 0 = omega arith in ap some z
  acc_nums_lem (y ∷ ds) acc (suc d) e =
      let z : acc + y.len + total (take d ds) ≡ acc + (y.len + total (take d ds)) = omega arith in
      acc_nums_lem ds (acc + y.len) d e ∙ ap some z

  total_lem :
      (ds : List (Dataset A)) (d i : ℕ) {x : Dataset A}
      → get_elem? ds d ≡ some x
      → i < x.len
      → (total (take d ds) + i < total ds) × (d < length ds)
  unfolding total
  total_lem [] d i e h = cc
  total_lem (y ∷ ds) zero i e h = let same = len_lem e in (omega arith, omega arith)
  total_lem (y ∷ ds) (suc d) i e h = let (a, b) = total_lem ds d i e h in (omega arith, omega arith)

  -- Item `i` of dataset `d` has the index that the sizes of the datasets before `d` leave for it.
  pub get_item_lem :
      (ds : List (Dataset A)) (d i : ℕ) {x : Dataset A}
      → get_elem? ds d ≡ some x
      → i < x.len
      → get_item ds (pos (total (take d ds) + i)) ≡ x.item i
  unfolding get_item
  get_item_lem ds d i {x} e h =
      let (lt, inside) = total_lem ds d i e h in
      let below : ltb (total (take d ds) + i) (total ds) ≡ true = ground arith in
      let z : 0 + d ≡ d = omega arith in
      let local : total (take d ds) + i - (0 + total (take d ds)) ≡ i = omega arith in
      rw
        (
          below,
          dataset_id_lem ds 0 d i e h ∙ ap some z,
          e,
          get_elem?-take (length ds) d (acc_nums 0 ds) inside ∙ acc_nums_lem ds 0 d e,
        )
        (ap x.item local)

  -- Every index below the length is that of an item of one of the datasets.
  locate :
      (ds : List (Dataset A)) (idx : ℕ)
      → idx < total ds
      → (d : ℕ) × (i : ℕ) × (x : Dataset A) × (get_elem? ds d ≡ some x)
        × (i < x.len)
        × (idx ≡ total (take d ds) + i)
  unfolding total
  locate [] idx h = elim h [ ]
  locate (y ∷ ds) idx h = elim (Bool-cases (ltb idx y.len)) [
    | inl lt ↦ (0, idx, y, refl, ltb→lt idx y.len lt, omega arith)
    | inr ge ↦
        let le : y.len ≤ idx = ground arith in
        let (d, i, x, e, inside, z) = locate ds (idx - y.len) (omega arith) in
        (suc d, i, x, e, inside, omega arith)
  ]

  -- An index that is negative raises KeyError, one that is not below the length is refused by the
  -- assertion, and every other is that of an item of one dataset, which is returned.
  pub get_item_cases :
      (ds : List (Dataset A)) (idx : ℤ)
      → ((d : ℕ) × (i : ℕ) × (x : Dataset A) × (get_elem? ds d ≡ some x)
          × (i < x.len)
          × (idx ≡ pos (total (take d ds) + i))
          × (get_item ds idx ≡ x.item i))
        ⊎ (((pos (total ds) ≤ℤ idx) × (get_item ds idx ≡ raise assertion_error))
            ⊎ ((idx <ℤ pos 0) × (get_item ds idx ≡ raise key_error)))
  unfolding get_item
  get_item_cases ds (negsuc n) =
      let below : ltb_ℤ (negsuc n) (pos (total ds)) ≡ true = ground arith in
      inr (inr (omega arith, rw below refl))
  get_item_cases ds (pos idx) = elim (Bool-cases (ltb idx (total ds))) [
    | inl lt ↦
        let (d, i, x, e, h, z) = locate ds idx (ltb→lt idx (total ds) lt) in
        inl (d, i, x, e, h, ap pos z, ap (λ k. get_item ds (pos k)) z ∙ get_item_lem ds d i e h)
    | inr ge ↦ inr (inl (ground arith, rw ge refl))
  ]
