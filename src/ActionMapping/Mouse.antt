-- ===== src/ActionMapping/Mouse.antt =====
-- The bins of mouse motion: their edges and centres, and the interval that `truncated_normal`
-- samples from (elefant/data/action_mapping.py). An edge is given in tenths of a pixel, at which all
-- of them are whole; a centre is in pixels.
use p2p_rdt.Common.{
  ℕ, suc, ◌+◌, ◌*◌, ◌/◌, ◌%◌, ◌≤◌, ◌<◌, ◌≡◌, ap, ◌&&◌, List, [], ◌∷◌, arith, ◌==◌, ltb, length,
  if◌then◌else◌,
}
use native.Mathlib.Nat.{le-div_iff_mul-le, div-le_of_le-mul, div-add-mod', mul_comm}
use p2p_rdt.Common.Int.{ℤ, pos, negsuc, neg, ◌+ℤ◌, ltb_ℤ, eq_ℤ, ◌-ℤ◌, ◌≤ℤ◌, ◌*ℤ◌}

unfoldable pub mouse_x_bin_edges : List ℤ
mouse_x_bin_edges =
    negsuc 5000
    ∷ negsuc 1440
    ∷ negsuc 760
    ∷ negsuc 460
    ∷ negsuc 290
    ∷ negsuc 180
    ∷ negsuc 110
    ∷ negsuc 60
    ∷ negsuc 30
    ∷ negsuc 10
    ∷ negsuc 0
    ∷ pos 0
    ∷ pos 10
    ∷ pos 30
    ∷ pos 60
    ∷ pos 110
    ∷ pos 180
    ∷ pos 290
    ∷ pos 460
    ∷ pos 760
    ∷ pos 1440
    ∷ pos 5000
    ∷ []

unfoldable pub mouse_x_bin_centers : List ℤ
mouse_x_bin_centers =
    negsuc 500
    ∷ negsuc 321
    ∷ negsuc 109
    ∷ negsuc 60
    ∷ negsuc 37
    ∷ negsuc 23
    ∷ negsuc 14
    ∷ negsuc 8
    ∷ negsuc 4
    ∷ negsuc 1
    ∷ negsuc 0
    ∷ pos 0
    ∷ pos 1
    ∷ pos 2
    ∷ pos 5
    ∷ pos 9
    ∷ pos 15
    ∷ pos 24
    ∷ pos 38
    ∷ pos 61
    ∷ pos 110
    ∷ pos 322
    ∷ pos 501
    ∷ []

unfoldable pub mouse_x_bin_conservative_centers : List ℤ
mouse_x_bin_conservative_centers =
    negsuc 500
    ∷ negsuc 144
    ∷ negsuc 76
    ∷ negsuc 46
    ∷ negsuc 29
    ∷ negsuc 18
    ∷ negsuc 11
    ∷ negsuc 6
    ∷ negsuc 3
    ∷ negsuc 1
    ∷ negsuc 0
    ∷ pos 0
    ∷ pos 1
    ∷ pos 2
    ∷ pos 4
    ∷ pos 7
    ∷ pos 12
    ∷ pos 19
    ∷ pos 30
    ∷ pos 47
    ∷ pos 77
    ∷ pos 145
    ∷ pos 501
    ∷ []

unfoldable pub mouse_y_bin_edges : List ℤ
mouse_y_bin_edges =
    negsuc 1500
    ∷ negsuc 240
    ∷ negsuc 120
    ∷ negsuc 70
    ∷ negsuc 40
    ∷ negsuc 30
    ∷ negsuc 10
    ∷ negsuc 0
    ∷ pos 0
    ∷ pos 10
    ∷ pos 30
    ∷ pos 40
    ∷ pos 70
    ∷ pos 120
    ∷ pos 240
    ∷ pos 1500
    ∷ []

unfoldable pub mouse_y_bin_centers : List ℤ
mouse_y_bin_centers =
    negsuc 150
    ∷ negsuc 86
    ∷ negsuc 17
    ∷ negsuc 9
    ∷ negsuc 5
    ∷ negsuc 3
    ∷ negsuc 1
    ∷ negsuc 0
    ∷ pos 0
    ∷ pos 1
    ∷ pos 2
    ∷ pos 4
    ∷ pos 6
    ∷ pos 10
    ∷ pos 18
    ∷ pos 87
    ∷ pos 151
    ∷ []

unfoldable pub mouse_y_bin_conservative_centers : List ℤ
mouse_y_bin_conservative_centers =
    negsuc 150
    ∷ negsuc 24
    ∷ negsuc 12
    ∷ negsuc 7
    ∷ negsuc 4
    ∷ negsuc 3
    ∷ negsuc 1
    ∷ negsuc 0
    ∷ pos 0
    ∷ pos 1
    ∷ pos 2
    ∷ pos 4
    ∷ pos 5
    ∷ pos 8
    ∷ pos 13
    ∷ pos 25
    ∷ pos 151
    ∷ []

abbrev pub mouse_x_std : ℕ
mouse_x_std = 96

abbrev pub mouse_y_std : ℕ
mouse_y_std = 22

unfoldable pub get_n_mouse_x_bins : ℕ
unfolding mouse_x_bin_edges
get_n_mouse_x_bins = length mouse_x_bin_edges + 1

unfoldable pub get_n_mouse_y_bins : ℕ
unfolding mouse_y_bin_edges
get_n_mouse_y_bins = length mouse_y_bin_edges + 1

-- `obtain_lower_upper_bound`, in tenths: 0.1 is 1 and 1 is 10.
unfoldable pub obtain_lower_upper_bound : ℤ → ℤ → ℤ × ℤ
unfolding ◌+ℤ◌ ◌-ℤ◌
obtain_lower_upper_bound lb ub =
    if ltb_ℤ lb (pos 0) && ltb_ℤ ub (pos 0)
    then (lb +ℤ pos 1, ub +ℤ pos 1 -ℤ pos 10)
    else (if ltb_ℤ lb (pos 0) && eq_ℤ ub (pos 0)
        then (pos 0, pos 0)
        else (if eq_ℤ lb (pos 0) && ltb_ℤ (pos 0) ub
            then (lb +ℤ pos 10, ub)
            else (lb +ℤ pos 10, ub)))

-- `round(n / u)`: a tie goes to the even neighbour.
round_nat : ℕ → ℕ → ℕ
round_nat u n =
    let q = n / u in
    let r = n % u in
    if ltb (2 * r) u
    then q
    else (if ltb u (2 * r) then q + 1 else (if q % 2 == 0 then q else q + 1))

unfoldable pub round : ℕ → ℤ → ℤ
unfolding round_nat
round u (pos n) = pos (round_nat u n)
round u (negsuc n) = neg (round_nat u (suc n))

round_nat-ge : (u n lo : ℕ) → 0 < u → lo * u ≤ n → lo ≤ round_nat u n
unfolding round_nat
round_nat-ge u n lo h a = let below : lo ≤ n / u = (le-div_iff_mul-le h).1 a in ground arith

-- At the upper bound nothing is left over, so nothing is rounded up.
round_nat-le : (u n hi : ℕ) → 0 < u → n ≤ hi * u → round_nat u n ≤ hi
unfolding round_nat
round_nat-le u n hi h b =
    let below : n / u ≤ hi = div-le_of_le-mul u (rw (mul_comm u hi) b) in
    let whole : n / u ≡ hi → n % u ≡ 0 =
      λ e. ground (arith, div-add-mod' n u, ap (λ (q : ℕ). q * u) e) in
    ground arith

-- Rounding stays between whole bounds.
pub round-ge : (u : ℕ) (lo v : ℤ) → 0 < u → lo *ℤ pos u ≤ℤ v → lo ≤ℤ round u v
unfolding round ◌*ℤ◌
round-ge u (pos l) (pos n) h a = ground (arith, round_nat-ge u n l h)
round-ge u (pos l) (negsuc n) h a = ground (arith, round_nat-le u (suc n) 0 h)
round-ge u (negsuc l) (pos n) h a = ground arith
round-ge u (negsuc l) (negsuc n) h a = ground (arith, round_nat-le u (suc n) (suc l) h)

pub round-le : (u : ℕ) (hi v : ℤ) → 0 < u → v ≤ℤ hi *ℤ pos u → round u v ≤ℤ hi
unfolding round ◌*ℤ◌
round-le u (pos l) (pos n) h a = ground (arith, round_nat-le u n l h)
round-le u (pos l) (negsuc n) h a = ground arith
round-le u (negsuc l) (pos n) h a = ground arith
round-le u (negsuc l) (negsuc n) h a = ground (arith, round_nat-ge u (suc n) (suc l) h)
