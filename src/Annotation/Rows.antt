-- ===== src/Annotation/Rows.antt =====
-- Rows written one after the other, and masks compared (for
-- elefant/data/action_label_video_proto_dataset.py).
use p2p_rdt.Common.{
  ℕ, zero, suc, ◌+◌, ◌-◌, ◌≤◌, ◌≡◌, refl, ap, ◌∙◌, Bool, true, false, List, [], ◌∷◌, ◌++◌, arith,
  length, set, replicate, all, ◌==◌, length-append, length-replicate,
}
use p2p_rdt.Common.Results.{ok}
use p2p_rdt.Annotation.Parser.{zip_ge, ge_mask, or_mask}

-- The values written at `i`, `i + 1`, and so on.
abbrev pub fill {ℓ} : {A : Type ℓ} → ℕ → List A → List A → List A
fill i [] rows = rows
fill i (v ∷ vs) rows = fill (i + 1) vs (set rows i v)

module _ {ℓ} {A : Type ℓ} where
  fill_cons :
      (i : ℕ) (vs : List A) (r : A) (rows : List A)
      → fill (suc i) vs (r ∷ rows) ≡ r ∷ fill i vs rows
  fill_cons i [] r rows = refl
  fill_cons i (v ∷ vs) r rows =
      let e : suc i + 1 ≡ suc (i + 1) = omega arith in rw e (fill_cons (i + 1) vs r (set rows i v))

  -- Written from the first row on, the values take the place of as many rows.
  pub fill-replicate :
      (vs : List A) (n : ℕ) (d : A)
      → length vs ≤ n
      → fill 0 vs (replicate n d) ≡ vs ++ replicate (n - length vs) d
  fill-replicate [] n d h = let e : n ≡ n - 0 = omega arith in ap (λ k. replicate k d) e
  fill-replicate (v ∷ vs) zero d h = absurd (omega arith)
  fill-replicate (v ∷ vs) (suc n) d h =
      let e : n - length vs ≡ suc n - suc (length vs) = omega arith in
      fill_cons 0 vs v (replicate n d)
      ∙ ap (◌∷◌ v) (fill-replicate vs n d (omega arith) ∙ ap (λ k. vs ++ replicate k d) e)

length-or_mask : (us ss : List Bool) → length us ≡ length ss → length (or_mask us ss) ≡ length us
unfolding or_mask
length-or_mask [] ss h = refl
length-or_mask (u ∷ us) [] h = absurd (omega arith)
length-or_mask (u ∷ us) (s ∷ ss) h = ap suc (length-or_mask us ss (omega arith))

unknown_lem :
    (valid : List Bool) (k : ℕ)
    → all (λ b. b) (zip_ge valid (or_mask (replicate k false) (replicate k false))) ≡ true
unfolding zip_ge or_mask
unknown_lem [] k = refl
unknown_lem (v ∷ valid) zero = refl
unknown_lem (true ∷ valid) (suc k) = unknown_lem valid k
unknown_lem (false ∷ valid) (suc k) = unknown_lem valid k

known_lem :
    (us ss : List Bool) (v w k : ℕ)
    → length us ≡ length ss
    → length us ≤ v
    → all
        (λ b. b)
        (zip_ge
          (replicate v true ++ replicate w false)
          (or_mask (us ++ replicate k false) (ss ++ replicate k false)))
      ≡ true
unfolding zip_ge or_mask
known_lem [] [] v w k same le = unknown_lem (replicate v true ++ replicate w false) k
known_lem [] (s ∷ ss) v w k same le = absurd (omega arith)
known_lem (u ∷ us) [] v w k same le = absurd (omega arith)
known_lem (u ∷ us) (s ∷ ss) zero w k same le = absurd (omega arith)
known_lem (u ∷ us) (s ∷ ss) (suc v) w k same le = known_lem us ss v w k (omega arith) (omega arith)

-- No frame counts as known but not valid, when only the first `v` frames have annotations.
pub ge_mask_known :
    (us ss : List Bool) (v w k : ℕ)
    → length us ≡ length ss
    → length us ≤ v
    → v + w ≡ length us + k
    → (ge : List Bool) × (ge_mask
          (replicate v true ++ replicate w false)
          (or_mask (us ++ replicate k false) (ss ++ replicate k false))
        ≡ ok ge)
      × (all (λ b. b) ge ≡ true)
unfolding ge_mask
ge_mask_known us ss v w k same le total =
    let valid = replicate v true ++ replicate w false in
    let known = or_mask (us ++ replicate k false) (ss ++ replicate k false) in
    let e : length valid ≡ length known = omega (
      arith,
      length-append (replicate v true) (replicate w false),
      length-replicate v true,
      length-replicate w false,
      length-append us (replicate k false),
      length-append ss (replicate k false),
      length-replicate k false,
      length-or_mask (us ++ replicate k false) (ss ++ replicate k false),
    ) in
    let t : (length valid == length known) ≡ true = ground arith in
    (zip_ge valid known, rw t refl, known_lem us ss v w k same le)
