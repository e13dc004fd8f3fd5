-- ===== src/ActionMapping/Bins.antt =====
-- The bins of mouse motion: what `tensor_to_action` makes of a bin falls back into the same bin.
use native.Mathlib.Nat.{mul-le-mul_right}
use p2p_rdt.ActionMapping.Encode.{Bucketize, IsAscending}
use p2p_rdt.ActionMapping.Mouse.{round, round-ge, round-le}
use p2p_rdt.Common.{
  ℕ, zero, suc, ◌+◌, ◌*◌, ◌/◌, ◌≤◌, ◌<◌, ◌≡◌, ◌⊎◌, inl, inr, Bool, true, false, ◌&&◌, List, none,
  some, arith, get_elem?, get_elem?_of_lt, length, Option-cases,
}
use p2p_rdt.Common.Int.{ℤ, pos, negsuc, neg, ◌*ℤ◌, ◌≤ℤ◌, ltb_ℤ, leb_ℤ}

-- The edge before bin `b` lies below `v`, and the edge after it does not.
above_lower : List ℤ → ℤ → ℕ → Bool
above_lower edges v zero = true
above_lower edges v (suc i) = elim (get_elem? edges i) [ none ↦ false | some e ↦ ltb_ℤ e v ]

below_upper : List ℤ → ℤ → ℕ → Bool
below_upper edges v b = elim (get_elem? edges b) [ none ↦ true | some e ↦ leb_ℤ v e ]

-- `v`, in tenths of a pixel, lies in bin `b`.
unfoldable pub in_bin : List ℤ → ℤ → ℕ → Bool
unfolding above_lower below_upper
in_bin edges v b = above_lower edges v b && below_upper edges v b

module _ (torch : Bucketize) (edges : List ℤ) (asc : IsAscending edges) where
  not-below : (v : ℤ) (b : ℕ) → above_lower edges v b ≡ true → b ≤ torch.bucketize v edges
  unfolding above_lower
  not-below v zero h = omega arith
  not-below v (suc i) h = elim (Option-cases (get_elem? edges i)) [
    | inl e ↦ absurd (ground arith)
    | inr (a, e) ↦ ground (arith, torch.edge_above v edges i {e = a} asc)
  ]

  not-above :
      (v : ℤ) (b : ℕ)
      → below_upper edges v b ≡ true
      → torch.bucketize v edges ≤ b ⊎ length edges ≤ b
  unfolding below_upper
  not-above v b h = elim (Option-cases (get_elem? edges b)) [
    | inl e ↦ inr (ground (arith, get_elem?_of_lt edges b))
    | inr (a, e) ↦ inl (ground (arith, torch.edge_below v edges b {e = a} asc))
  ]

  pub bucketize_of_in_bin :
      (v : ℤ) (b : ℕ) → b ≤ length edges → in_bin edges v b ≡ true → torch.bucketize v edges ≡ b
  unfolding in_bin
  bucketize_of_in_bin v b h k =
      ground (arith, not-below v b, not-above v b, torch.bucketize-le v edges)

≤ℤ_trans : (a b c : ℤ) → a ≤ℤ b → b ≤ℤ c → a ≤ℤ c
≤ℤ_trans a b c h k = omega arith

tenfold_mono : (a b : ℤ) → a ≤ℤ b → a *ℤ pos 10 ≤ℤ b *ℤ pos 10
unfolding ◌*ℤ◌
tenfold_mono a b h = ground arith

-- A bin is an interval.
in_bin_between :
    (edges : List ℤ) (lo v hi : ℤ) (b : ℕ)
    → in_bin edges lo b ≡ true
    → in_bin edges hi b ≡ true
    → lo ≤ℤ v
    → v ≤ℤ hi
    → in_bin edges v b ≡ true
unfolding in_bin
in_bin_between edges lo v hi zero p q h k = ground arith
in_bin_between edges lo v hi (suc i) p q h k = ground arith

-- The whole pixels at or below, and at or above, a number of tenths.
floor_tenths : ℤ → ℤ
floor_tenths (pos n) = pos (n / 10)
floor_tenths (negsuc n) = negsuc (n / 10)

ceil_tenths : ℤ → ℤ
ceil_tenths (pos n) = pos ((n + 9) / 10)
ceil_tenths (negsuc n) = neg ((n + 1) / 10)

-- Where a number of tenths between `a` and `b` is rounded to.
unfoldable pub rounds_into : List ℤ → ℕ → ℤ → ℤ → Bool
unfolding floor_tenths ceil_tenths
rounds_into edges bin a b =
    leb_ℤ a b
    && (in_bin edges (floor_tenths a *ℤ pos 10) bin && in_bin edges (ceil_tenths b *ℤ pos 10) bin)

tenfold-le : (s m n : ℕ) → m * 10 ≤ n → m * (10 * s) ≤ n * s
tenfold-le s m n h = let p : m * 10 * s ≤ n * s = mul-le-mul_right s h in omega arith

tenfold-ge : (s m n : ℕ) → n ≤ m * 10 → n * s ≤ m * (10 * s)
tenfold-ge s m n h = let p : n * s ≤ m * 10 * s = mul-le-mul_right s h in omega arith

scaled_le : (scale : ℕ) (x y : ℤ) → x *ℤ pos 10 ≤ℤ y → x *ℤ pos (10 * scale) ≤ℤ y *ℤ pos scale
unfolding ◌*ℤ◌
scaled_le scale (pos m) (pos n) h = ground (arith, tenfold-le scale m n)
scaled_le scale (pos m) (negsuc n) h = ground arith
scaled_le scale (negsuc m) (pos n) h = ground arith
scaled_le scale (negsuc m) (negsuc n) h = ground (arith, tenfold-ge scale (suc m) (suc n))

scaled_ge : (scale : ℕ) (x y : ℤ) → y ≤ℤ x *ℤ pos 10 → y *ℤ pos scale ≤ℤ x *ℤ pos (10 * scale)
unfolding ◌*ℤ◌
scaled_ge scale (pos m) (pos n) h = ground (arith, tenfold-ge scale m n)
scaled_ge scale (pos m) (negsuc n) h = ground arith
scaled_ge scale (negsuc m) (pos n) h = ground arith
scaled_ge scale (negsuc m) (negsuc n) h = ground (arith, tenfold-le scale (suc m) (suc n))

floor_tenths-le : (a : ℤ) → floor_tenths a *ℤ pos 10 ≤ℤ a
unfolding floor_tenths ◌*ℤ◌
floor_tenths-le (pos n) = ground arith
floor_tenths-le (negsuc n) = ground arith

ceil_tenths-ge : (a : ℤ) → a ≤ℤ ceil_tenths a *ℤ pos 10
unfolding ceil_tenths ◌*ℤ◌
ceil_tenths-ge (pos n) = ground arith
ceil_tenths-ge (negsuc n) = ground arith

pub scale_mono : (s : ℕ) (a b : ℤ) → a ≤ℤ b → a *ℤ pos s ≤ℤ b *ℤ pos s
unfolding ◌*ℤ◌
scale_mono s (pos m) (pos n) h = ground (arith, mul-le-mul_right {m = m} {n = n} s)
scale_mono s (pos m) (negsuc n) h = ground arith
scale_mono s (negsuc m) (pos n) h = ground arith
scale_mono s (negsuc m) (negsuc n) h = ground (arith, mul-le-mul_right {m = suc n} {n = suc m} s)

-- A draw between two bounds that round into a bin rounds into that bin.
pub round-in_bin :
    (edges : List ℤ) (bin scale : ℕ) (a b v : ℤ)
    → 0 < scale
    → rounds_into edges bin a b ≡ true
    → a *ℤ pos scale ≤ℤ v
    → v ≤ℤ b *ℤ pos scale
    → in_bin edges (round (10 * scale) v *ℤ pos 10) bin ≡ true
unfolding rounds_into
round-in_bin edges bin scale a b v h p lo hi =
    let d = round (10 * scale) v in
    let ge : floor_tenths a ≤ℤ d = round-ge (10 * scale) (floor_tenths a) v (omega arith) (
      ≤ℤ_trans (floor_tenths a *ℤ pos (10 * scale)) (a *ℤ pos scale) v
        (scaled_le scale (floor_tenths a) a (floor_tenths-le a)) lo) in
    let le : d ≤ℤ ceil_tenths b = round-le (10 * scale) (ceil_tenths b) v (omega arith) (
      ≤ℤ_trans v (b *ℤ pos scale) (ceil_tenths b *ℤ pos (10 * scale)) hi
        (scaled_ge scale (ceil_tenths b) b (ceil_tenths-ge b))) in
    in_bin_between edges (floor_tenths a *ℤ pos 10) (d *ℤ pos 10) (ceil_tenths b *ℤ pos 10) bin
      (ground arith) (ground arith) (tenfold_mono (floor_tenths a) d ge)
      (tenfold_mono d (ceil_tenths b) le)
