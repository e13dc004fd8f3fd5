-- ===== src/Lerobot/Rebased.antt =====
-- Actions that become relative to the first valid one (elefant/data/lerobot_latent_dataset.py) keep their sizes
-- and their other channels.
use p2p_rdt.Common.{
  ℕ, zero, ◌+◌, ◌<◌, ◌≡◌, refl, sym, ap, ◌∙◌, Bool, true, false, ◌==◌, List, [], ◌∷◌, ◌++◌, Option,
  none, some, arith, length, map, slice, get_elem?, get_elem?_of_lt, leb, ◌≤◌, ◌-◌, suc, All,
  if◌then◌else◌, length-append, length-map, length-slice, Option-cases, inl, inr,
}
use p2p_rdt.Common.Results.{ok, Gives-ok}
use p2p_rdt.Lerobot.Channels.{select}
use p2p_rdt.Lerobot.Rebase.{
  ActionStats, valid_mask, first_valid, and_rows, normalize_quaternion_np, rebase_compact_action,
  used_stats, to_compact, from_compact, rebase_row, rebase_rows, rebase_actions,
  rebase_to_slice_start,
}
use p2p_rdt.Lerobot.Scatter.{Distinct}
use p2p_rdt.RobotTwin.Channels.{select-Gives}
use p2p_rdt.RobotTwin.Compact.{Placed, scatter-Placed}
use p2p_rdt.RobotTwin.Floats.{Floats, zip_with, one_float}
use p2p_rdt.RobotTwin.Lengths.{
  HasLength, QuaternionLaws, length-zip_with, length-append3, slice-HasLength, reshape_lem,
}
use p2p_rdt.RobotTwin.Pose.{identity_quaternion}

-- The used channels are 16 distinct ones of the `n` for which there are statistics.
pub record IsStats {F : Type 0} (n : ℕ) (st : ActionStats F) : Type 0 where
  pub sixteen : length st.used_action_channel_ids ≡ 16
  pub distinct : Distinct st.used_action_channel_ids
  pub below : All (λ i. i < n) st.used_action_channel_ids
  pub q01 : HasLength n st.q01
  pub q99 : HasLength n st.q99

module _ {F : Type 0} (fl : Floats F) (laws : QuaternionLaws fl) where
  minus-HasLength :
      (n : ℕ) (xs ys : List F)
      → HasLength n xs
      → HasLength n ys
      → HasLength n (zip_with fl.minus xs ys)
  minus-HasLength n xs ys hx hy = omega (arith, length-zip_with fl.minus xs ys)

  normalize-Gives :
      (quat : List F) → HasLength 4 quat → (q : List F) × (normalize_quaternion_np fl quat ≡ ok q)
  unfolding normalize_quaternion_np
  normalize-Gives quat h =
      let q =
        if fl.less (fl.norm quat) (fl.float 1 100000000)
        then identity_quaternion fl
        else map (λ x. fl.over x (fl.norm quat)) quat in
      (q, rw (reshape_lem 4 quat h) refl)

  rebase-Gives :
      (compact reference : List F)
      → HasLength 16 compact
      → HasLength 16 reference
      → (out : List F) × (rebase_compact_action fl compact reference ≡ ok out) × HasLength 16 out
  unfolding rebase_compact_action
  rebase-Gives compact reference hc hr =
      let part : (i j : ℕ) (xs : List F)
          → j ≤ 16
          → i ≤ j
          → HasLength 16 xs
          → HasLength (j - i) (slice i j xs) =
        λ i j xs le below h. slice-HasLength 16 i j xs le below h in
      let quarter : (i : ℕ) (xs : List F)
          → i + 4 ≤ 16
          → HasLength 16 xs
          → HasLength 4 (slice i (i + 4) xs) =
        λ i xs le h. omega (arith, length-slice i (i + 4) xs) in
      let (lr, elr) =
        normalize-Gives (slice 3 7 reference) (quarter 3 reference (omega arith) hr) in
      let (rr, err) =
        normalize-Gives (slice 11 15 reference) (quarter 11 reference (omega arith) hr) in
      let (l, el) = normalize-Gives (slice 3 7 compact) (quarter 3 compact (omega arith) hc) in
      let (r, er) = normalize-Gives (slice 11 15 compact) (quarter 11 compact (omega arith) hc) in
      let left =
        length-append3 3 4 1 (zip_with fl.minus (slice 0 3 compact) (slice 0 3 reference))
          (fl.rotate_back lr l) (slice 7 8 compact)
          (minus-HasLength 3 (slice 0 3 compact) (slice 0 3 reference)
            (part 0 3 compact (omega arith) (omega arith) hc)
            (part 0 3 reference (omega arith) (omega arith) hr))
          (laws.length-rotate_back lr l) (part 7 8 compact (omega arith) (omega arith) hc) in
      let right =
        length-append3 3 4 1 (zip_with fl.minus (slice 8 11 compact) (slice 8 11 reference))
          (fl.rotate_back rr r) (slice 15 16 compact)
          (minus-HasLength 3 (slice 8 11 compact) (slice 8 11 reference)
            (part 8 11 compact (omega arith) (omega arith) hc)
            (part 8 11 reference (omega arith) (omega arith) hr))
          (laws.length-rotate_back rr r) (part 15 16 compact (omega arith) (omega arith) hc) in
      let left_arm =
        zip_with fl.minus (slice 0 3 compact) (slice 0 3 reference)
        ++ (fl.rotate_back lr l ++ slice 7 8 compact) in
      let right_arm =
        zip_with fl.minus (slice 8 11 compact) (slice 8 11 reference)
        ++ (fl.rotate_back rr r ++ slice 15 16 compact) in
      (
        left_arm ++ right_arm,
        rw (elr, err, el, er) refl,
        length-append left_arm right_arm ∙ omega (arith, left, right),
      )

  length-to_compact :
      (q01 scale row : List F)
      → HasLength 16 q01
      → HasLength 16 scale
      → HasLength 16 row
      → HasLength 16 (to_compact fl q01 scale row)
  unfolding to_compact
  length-to_compact q01 scale row hq hs h =
      let half = map (λ x. fl.times (fl.plus x (one_float fl)) (fl.float 1 2)) row in
      let scaled = zip_with fl.times half scale in
      omega (
        arith,
        length-zip_with fl.plus scaled q01,
        length-zip_with fl.times half scale,
        length-map row (λ x. fl.times (fl.plus x (one_float fl)) (fl.float 1 2)),
      )

  length-from_compact :
      (q01 scale row : List F)
      → HasLength 16 q01
      → HasLength 16 scale
      → HasLength 16 row
      → HasLength 16 (from_compact fl q01 scale row)
  unfolding from_compact
  length-from_compact q01 scale row hq hs h =
      let moved = zip_with fl.minus row q01 in
      let scaled = zip_with fl.over moved scale in
      omega (
        arith,
        length-map scaled (λ x. fl.minus (fl.times x (fl.float 2 1)) (one_float fl)),
        length-zip_with fl.over moved scale,
        length-zip_with fl.minus row q01,
      )

module _ {F : Type 0} (fl : Floats F) (laws : QuaternionLaws fl) (n : ℕ) (st : ActionStats F)
    (is : IsStats n st) where
  picked :
      (row : List F)
      → HasLength n row
      → (out : List F) × (select st.used_action_channel_ids row ≡ ok out) × HasLength 16 out
  picked row h =
      let (out, e, len) =
        Gives-ok (HasLength (length st.used_action_channel_ids))
          (select st.used_action_channel_ids row)
          (select-Gives n st.used_action_channel_ids row h is.below) in
      (out, e, len ∙ is.sixteen)

  -- The used channels of a row as the numbers of a pose.
  abbrev pub Compact : List F → List F → List F → List F → Type 0
  Compact q01 scale row compact =
      (out : List F) × (select st.used_action_channel_ids row ≡ ok out)
      × (compact ≡ to_compact fl q01 scale out)

  -- The new row has the old one's other channels, and in the used ones its pose, which is relative to the
  -- reference from row `first` on.
  abbrev pub Moved : List F → List F → List F → Bool → List F → List F → Type 0
  Moved q01 scale reference later row row' =
      (compact : List F) × (moved : List F) × Compact q01 scale row compact
      × ((if later then rebase_compact_action fl compact reference else ok compact) ≡ ok moved)
      × Placed st.used_action_channel_ids (from_compact fl q01 scale moved) row row'

  abbrev pub RowsMoved : List F → List F → List F → ℕ → ℕ → List (List F) → List (List F) → Type 0
  RowsMoved q01 scale reference first i [] [] = Unit
  RowsMoved q01 scale reference first i [] (row' ∷ rows') = ⊥
  RowsMoved q01 scale reference first i (row ∷ rows) [] = ⊥
  RowsMoved q01 scale reference first i (row ∷ rows) (row' ∷ rows') =
      Moved q01 scale reference (leb first i) row row'
      × RowsMoved q01 scale reference first (i + 1) rows rows'

  moved_cases :
      (later : Bool) (compact reference : List F)
      → HasLength 16 compact
      → HasLength 16 reference
      → (moved : List F) × ((if later
            then rebase_compact_action fl compact reference
            else ok compact)
          ≡ ok moved)
        × HasLength 16 moved
  moved_cases true compact reference hc hr = rebase-Gives fl laws compact reference hc hr
  moved_cases false compact reference hc hr = (compact, refl, hc)

  rebase_row-Moved :
      (q01 scale reference row : List F) (later : Bool)
      → HasLength 16 q01
      → HasLength 16 scale
      → HasLength 16 reference
      → HasLength n row
      → (row' : List F) × (rebase_row fl st q01 scale reference later row ≡ ok row')
        × Moved q01 scale reference later row row'
  unfolding rebase_row
  rebase_row-Moved q01 scale reference row later hq hs hr h =
      let (out, e, len) = picked row h in
      let compact = to_compact fl q01 scale out in
      let (moved, em, hm) =
        moved_cases later compact reference (length-to_compact fl laws q01 scale out hq hs len)
          hr in
      let (row', er, placed) =
        scatter-Placed st.used_action_channel_ids (from_compact fl q01 scale moved) row is.distinct
          (rw h is.below) (length-from_compact fl laws q01 scale moved hq hs hm ∙ sym is.sixteen) in
      (row', rw (e, em) er, (compact, moved, (out, e, refl), em, placed))

  rebase_rows-Moved :
      (q01 scale reference : List F) (first i : ℕ) (rows : List (List F))
      → HasLength 16 q01
      → HasLength 16 scale
      → HasLength 16 reference
      → All (HasLength n) rows
      → (rows' : List (List F)) × (rebase_rows fl st q01 scale reference first i rows ≡ ok rows')
        × RowsMoved q01 scale reference first i rows rows'
  unfolding rebase_rows
  rebase_rows-Moved q01 scale reference first i [] hq hs hr h = ([], refl, tt)
  rebase_rows-Moved q01 scale reference first i (row ∷ rows) hq hs hr h =
      let (row', e, moved) = rebase_row-Moved q01 scale reference row (leb first i) hq hs hr h.0 in
      let (rows', es, more) =
        rebase_rows-Moved q01 scale reference first (i + 1) rows hq hs hr h.1 in
      (row' ∷ rows', rw (e, es) refl, (moved, more))

  -- The rows are moved relative to row `first`.
  abbrev pub Rebased : ℕ → List (List F) → List (List F) → Type 0
  Rebased first rows rows' =
      (q01 : List F) × (scale : List F) × (row : List F) × (reference : List F) × (used_stats fl st
        ≡ ok (q01, scale))
      × (get_elem? rows first ≡ some row)
      × Compact q01 scale row reference
      × RowsMoved q01 scale reference first 0 rows rows'

  used_stats-Gives :
      (q01 : List F) × (scale : List F) × (used_stats fl st ≡ ok (q01, scale))
      × HasLength 16 q01
      × HasLength 16 scale
  unfolding used_stats
  used_stats-Gives =
      let (q01, e, h) = picked st.q01 is.q01 in
      let (q99, e', h') = picked st.q99 is.q99 in
      let difference = zip_with fl.minus q99 q01 in
      (
        q01,
        map (λ x. fl.plus x (fl.float 1 1000000)) difference,
        rw (e, e') refl,
        h,
        length-map difference (λ x. fl.plus x (fl.float 1 1000000))
            ∙ omega (arith, length-zip_with fl.minus q99 q01),
      )

  All-get :
      (rows : List (List F)) (i : ℕ) {row : List F}
      → All (HasLength n) rows
      → get_elem? rows i ≡ some row
      → HasLength n row
  All-get [] i h e = absurd (cc)
  All-get (first ∷ rows) zero {row} h e =
      sym (ap (λ (o : Option (List F)). length (elim o [ none ↦ first | some r ↦ r ])) e) ∙ h.0
  All-get (first ∷ rows) (suc i) h e = All-get rows i h.1 e

  rebase_actions-Rebased :
      (first : ℕ) (rows : List (List F))
      → first < length rows
      → All (HasLength n) rows
      → (rows' : List (List F)) × (rebase_actions fl st first rows ≡ ok rows')
        × Rebased first rows rows'
  unfolding rebase_actions
  rebase_actions-Rebased first rows inside h =
      let (q01, scale, e, hq, hs) = used_stats-Gives in
      let (row, found) = get_elem?_of_lt rows first inside in
      let (out, ep, len) = picked row (All-get rows first h found) in
      let reference = to_compact fl q01 scale out in
      let hr = length-to_compact fl laws q01 scale out hq hs len in
      let (rows', er, moved) = rebase_rows-Moved q01 scale reference first 0 rows hq hs hr h in
      (
        rows',
        rw (e, found, ep, reshape_lem 16 reference hr) er,
        (q01, scale, row, reference, e, found, (out, ep, refl), moved),
      )

  first_valid-lt :
      (i : ℕ) (mask : List Bool) {first : ℕ}
      → first_valid i mask ≡ some first
      → first < i + length mask
  unfolding first_valid
  first_valid-lt i [] e = absurd (cc)
  first_valid-lt i (true ∷ mask) e =
      let same = ap (λ (o : Option ℕ). elim o [ none ↦ i | some k ↦ k ]) e in omega (arith, same)
  first_valid-lt i (false ∷ mask) e = omega (arith, first_valid-lt (i + 1) mask e)

  length-and_rows :
      (xs ys : List Bool) → length xs ≡ length ys → length (and_rows xs ys) ≡ length xs
  length-and_rows [] ys h = refl
  length-and_rows (x ∷ xs) [] h = absurd (omega arith)
  length-and_rows (x ∷ xs) (y ∷ ys) h = omega (arith, length-and_rows xs ys (omega arith))

  -- What becomes of the rows: nothing when no row is valid, or relative to the first valid one.
  abbrev pub FromFirst : Option ℕ → List (List F) → List (List F) → Type 0
  FromFirst none rows rows' = rows' ≡ rows
  FromFirst (some first) rows rows' = Rebased first rows rows'

  pub rebase_to_slice_start-FromFirst :
      (user valid : List Bool) (rows : List (List F))
      → length user ≡ length rows
      → length valid ≡ length rows
      → All (HasLength n) rows
      → (rows' : List (List F)) × (rebase_to_slice_start fl st user (some valid) rows ≡ ok rows')
        × FromFirst (first_valid 0 (and_rows user valid)) rows rows'
  unfolding rebase_to_slice_start valid_mask
  rebase_to_slice_start-FromFirst user valid rows hu hv h =
      let mask = and_rows user valid in
      let used : (length st.used_action_channel_ids == 0) ≡ false = ground (arith, is.sixteen) in
      let same : (length user == length valid) ≡ true = ground arith in
      let opened : rebase_to_slice_start fl st user (some valid) rows ≡ elim (first_valid 0 mask) [
        | none ↦ ok rows
        | some first ↦ rebase_actions fl st first rows
      ] =
        rw (used, same) refl in
      elim (Option-cases (first_valid 0 mask)) [
        | inl none' ↦ (rows, opened ∙ rw none' refl, rw none' refl)
        | inr (first, e) ↦
            let inside : first < length rows =
              omega (arith, first_valid-lt 0 mask e, length-and_rows user valid (hu ∙ sym hv)) in
            let (rows', er, moved) = rebase_actions-Rebased first rows inside h in
            (rows', opened ∙ rw e er, rw e moved)
      ]

  pub length-RowsMoved :
      (q01 scale reference : List F) (first i : ℕ) (rows rows' : List (List F))
      → RowsMoved q01 scale reference first i rows rows'
      → length rows' ≡ length rows
  length-RowsMoved q01 scale reference first i [] [] h = refl
  length-RowsMoved q01 scale reference first i [] (row' ∷ rows') h = absurd h
  length-RowsMoved q01 scale reference first i (row ∷ rows) [] h = absurd h
  length-RowsMoved q01 scale reference first i (row ∷ rows) (row' ∷ rows') h =
      omega (arith, length-RowsMoved q01 scale reference first (i + 1) rows rows' h.1)

  pub length-FromFirst :
      (first : Option ℕ) (rows rows' : List (List F))
      → FromFirst first rows rows'
      → length rows' ≡ length rows
  length-FromFirst none rows rows' h = ap length h
  length-FromFirst (some first) rows rows' (q01, scale, row, reference, e, found, c, moved) =
      length-RowsMoved q01 scale reference first 0 rows rows' moved
