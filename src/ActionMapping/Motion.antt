-- ===== src/ActionMapping/Motion.antt =====
-- `mouse_delta` for every sampling approach: it gives a motion for each bin, and one in that bin.
use p2p_rdt.ActionMapping.Bins.{in_bin, rounds_into, round-in_bin, scale_mono}
use p2p_rdt.ActionMapping.Decode.{TruncNormal, between, sample_bin, mouse_delta}
use p2p_rdt.ActionMapping.Mouse.{
  mouse_x_bin_edges, mouse_x_bin_centers, mouse_x_bin_conservative_centers, mouse_y_bin_edges,
  mouse_y_bin_centers, mouse_y_bin_conservative_centers, mouse_x_std, mouse_y_std,
  get_n_mouse_x_bins, get_n_mouse_y_bins, obtain_lower_upper_bound, round,
}
use p2p_rdt.Common.{
  ℕ, ◌+◌, ◌-◌, ◌*◌, ◌<◌, ◌≡◌, refl, ◌⊎◌, inl, inr, Bool, true, String, List, none, some, arith,
  get_elem?, get_elem?_of_lt, length, ◌==◌, str_eq, if◌then◌else◌, Bool-cases,
}
use p2p_rdt.Common.Int.{ℤ, pos, ◌+ℤ◌, ◌-ℤ◌, ◌*ℤ◌, leb_ℤ}
use p2p_rdt.Common.Table.{all_below, all_below_sound}
use p2p_rdt.Common.Results.{ok, IsOk}

-- The centre of a bin lies in the bin.
centered : List ℤ → List ℤ → ℕ → Bool
centered edges centers b = elim (get_elem? centers b) [
  | none ↦ true
  | some d ↦ in_bin edges (d *ℤ pos 10) b
]

-- What `sample_bin` draws for an inner bin is rounded into that bin.
inner_check : List ℤ → ℕ → ℤ × ℤ → Bool
inner_check edges bin (lb, ub) = rounds_into edges bin lb (if leb_ℤ ub lb then lb else ub)

spread : List ℤ → ℕ → ℕ → Bool
spread edges n_bins bin =
    if bin == 0
    then elim (get_elem? edges 0) [
      | none ↦ true
      | some e ↦ rounds_into edges bin (e -ℤ pos 10) (e -ℤ pos 10)
    ]
    else (if bin == n_bins - 1
        then elim (get_elem? edges (length edges - 1)) [
          | none ↦ true
          | some e ↦ rounds_into edges bin (e +ℤ pos 10) (e +ℤ pos 10)
        ]
        else elim (get_elem? edges (bin - 1)) [
          | none ↦ true
          | some lb ↦ elim (get_elem? edges bin) [
            | none ↦ true
            | some ub ↦ inner_check edges bin (obtain_lower_upper_bound lb ub)
          ]
        ])

-- The sampling approaches that `tensor_to_action` knows.
abbrev pub IsApproach : String → Type 0
IsApproach a =
    (str_eq a "mean" ≡ true)
    ⊎ (str_eq a "conservative" ≡ true)
    ⊎ (str_eq a "truncated_normal" ≡ true)

module _ (torch : TruncNormal) (std : ℕ) (edges : List ℤ) where
  between-in_bin :
      (bin : ℕ) (bounds : ℤ × ℤ)
      → inner_check edges bin bounds ≡ true
      → in_bin edges (round (10 * torch.scale) (between torch std bounds) *ℤ pos 10) bin ≡ true
  unfolding between inner_check
  between-in_bin bin (lb, ub) h = elim (Bool-cases (leb_ℤ ub lb)) [
    | inl one ↦
        ground
          (arith, round-in_bin edges bin torch.scale lb lb (lb *ℤ pos torch.scale) torch.scale-pos)
    | inr many ↦
        let a = lb *ℤ pos torch.scale in
        let b = ub *ℤ pos torch.scale in
        ground (
          arith,
          scale_mono torch.scale lb ub,
          torch.draw-ge std a b,
          torch.draw-le std a b,
          round-in_bin edges bin torch.scale lb ub (torch.draw std a b) torch.scale-pos,
        )
  ]

  -- An outer bin stands for the one number past its edge.
  outer-in_bin :
      (bin : ℕ) (v : ℤ)
      → rounds_into edges bin v v ≡ true
      → in_bin edges (round (10 * torch.scale) (v *ℤ pos torch.scale) *ℤ pos 10) bin ≡ true
  outer-in_bin bin v h =
      round-in_bin edges bin torch.scale v v (v *ℤ pos torch.scale) torch.scale-pos h (omega arith)
        (omega arith)

  sample_bin-in_bin :
      (n_bins bin : ℕ) (v : ℤ)
      → spread edges n_bins bin ≡ true
      → sample_bin torch std edges n_bins bin ≡ ok v
      → in_bin edges (round (10 * torch.scale) v *ℤ pos 10) bin ≡ true
  unfolding spread sample_bin
  sample_bin-in_bin n_bins bin v h e = grind (arith, outer-in_bin, between-in_bin)

  sample_bin_total :
      (n_bins bin : ℕ)
      → n_bins ≡ length edges + 1
      → 0 < length edges
      → bin < n_bins
      → (v : ℤ) × (sample_bin torch std edges n_bins bin ≡ ok v)
  unfolding sample_bin
  sample_bin_total n_bins bin e h k = elim (Bool-cases (bin == 0)) [
    | inl first ↦
        let (a, ea) = get_elem?_of_lt edges 0 h in
        ((a -ℤ pos 10) *ℤ pos torch.scale, rw (first, ea))
    | inr later ↦ elim (Bool-cases (bin == n_bins - 1)) [
      | inl last ↦
          let (a, ea) = get_elem?_of_lt edges (length edges - 1) (omega arith) in
          ((a +ℤ pos 10) *ℤ pos torch.scale, rw (later, last, ea))
      | inr inner ↦
          let (a, ea) = get_elem?_of_lt edges (bin - 1) (ground arith) in
          let (b, eb) = get_elem?_of_lt edges bin (ground arith) in
          (between torch std (obtain_lower_upper_bound a b), rw (later, inner, ea, eb))
    ]
  ]

x_table :
    (all_below get_n_mouse_x_bins (centered mouse_x_bin_edges mouse_x_bin_centers) ≡ true)
    × (all_below get_n_mouse_x_bins (centered mouse_x_bin_edges mouse_x_bin_conservative_centers)
        ≡ true)
    × (all_below get_n_mouse_x_bins (spread mouse_x_bin_edges get_n_mouse_x_bins) ≡ true)
unfolding all_below inner_check rounds_into in_bin obtain_lower_upper_bound ◌*ℤ◌ ◌+ℤ◌ ◌-ℤ◌
    get_n_mouse_x_bins centered spread mouse_x_bin_centers mouse_x_bin_conservative_centers
x_table = (refl, refl, refl)

y_table :
    (all_below get_n_mouse_y_bins (centered mouse_y_bin_edges mouse_y_bin_centers) ≡ true)
    × (all_below get_n_mouse_y_bins (centered mouse_y_bin_edges mouse_y_bin_conservative_centers)
        ≡ true)
    × (all_below get_n_mouse_y_bins (spread mouse_y_bin_edges get_n_mouse_y_bins) ≡ true)
unfolding all_below inner_check rounds_into in_bin obtain_lower_upper_bound ◌*ℤ◌ ◌+ℤ◌ ◌-ℤ◌
    get_n_mouse_y_bins centered spread mouse_y_bin_centers mouse_y_bin_conservative_centers
y_table = (refl, refl, refl)

-- There is one centre of each kind to a bin, and one bin more than edges.
pub lengths :
    (get_n_mouse_x_bins ≡ length mouse_x_bin_edges + 1)
    × (0 < length mouse_x_bin_edges)
    × (length mouse_x_bin_centers ≡ get_n_mouse_x_bins)
    × (length mouse_x_bin_conservative_centers ≡ get_n_mouse_x_bins)
    × (get_n_mouse_y_bins ≡ length mouse_y_bin_edges + 1)
    × (0 < length mouse_y_bin_edges)
    × (length mouse_y_bin_centers ≡ get_n_mouse_y_bins)
    × (length mouse_y_bin_conservative_centers ≡ get_n_mouse_y_bins)
unfolding get_n_mouse_x_bins mouse_x_bin_centers mouse_x_bin_conservative_centers get_n_mouse_y_bins
    mouse_y_bin_centers mouse_y_bin_conservative_centers
lengths = omega arith

module _ (torch : TruncNormal) (approach : String) where
  -- Whatever the approach, each motion lies in the bin that it was made from.
  pub mouse_delta-in_bin :
      (x y : ℕ) {dx dy : ℤ}
      → mouse_delta torch approach x y ≡ ok (dx, dy)
      → x < get_n_mouse_x_bins
      → y < get_n_mouse_y_bins
      → (in_bin mouse_x_bin_edges (dx *ℤ pos 10) x ≡ true)
        × (in_bin mouse_y_bin_edges (dy *ℤ pos 10) y ≡ true)
  unfolding mouse_delta centered
  mouse_delta-in_bin x y {dx} {dy} e hx hy =
      let mean_x =
        all_below_sound get_n_mouse_x_bins (centered mouse_x_bin_edges mouse_x_bin_centers) x
          x_table.0 hx in
      let mean_y =
        all_below_sound get_n_mouse_y_bins (centered mouse_y_bin_edges mouse_y_bin_centers) y
          y_table.0 hy in
      let conservative_x =
        all_below_sound get_n_mouse_x_bins
          (centered mouse_x_bin_edges mouse_x_bin_conservative_centers) x x_table.1 hx in
      let conservative_y =
        all_below_sound get_n_mouse_y_bins
          (centered mouse_y_bin_edges mouse_y_bin_conservative_centers) y y_table.1 hy in
      let spread_x =
        all_below_sound get_n_mouse_x_bins (spread mouse_x_bin_edges get_n_mouse_x_bins) x x_table.2
          hx in
      let spread_y =
        all_below_sound get_n_mouse_y_bins (spread mouse_y_bin_edges get_n_mouse_y_bins) y y_table.2
          hy in
      grind (
        arith,
        sample_bin-in_bin torch mouse_x_std mouse_x_bin_edges get_n_mouse_x_bins x,
        sample_bin-in_bin torch mouse_y_std mouse_y_bin_edges get_n_mouse_y_bins y,
      )

  pub mouse_delta_total :
      (x y : ℕ)
      → IsApproach approach
      → x < get_n_mouse_x_bins
      → y < get_n_mouse_y_bins
      → IsOk (mouse_delta torch approach x y)
  unfolding mouse_delta
  mouse_delta_total x y known hx hy = ground (
    arith,
    get_elem?_of_lt mouse_x_bin_centers x,
    get_elem?_of_lt mouse_y_bin_centers y,
    get_elem?_of_lt mouse_x_bin_conservative_centers x,
    get_elem?_of_lt mouse_y_bin_conservative_centers y,
    sample_bin_total torch mouse_x_std mouse_x_bin_edges get_n_mouse_x_bins x,
    sample_bin_total torch mouse_y_std mouse_y_bin_edges get_n_mouse_y_bins y,
    lengths,
  )
