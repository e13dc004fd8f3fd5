-- ===== src/ActionMapping/Names.antt =====
-- Rows of codes and the names that they stand for: `codes_down` undoes `names_down`.
use mathlib.Core.Bool.{not}
use text.Mathlib.TextEquality.{path_by_compare}
use p2p_rdt.ActionMapping.Decode.{insert_name, names_down}
use p2p_rdt.ActionMapping.Encode.{add_code, codes_down, fit}
use p2p_rdt.ActionMapping.Keymap.{lookup, name_of}
use p2p_rdt.Common.{
  ℕ, zero, suc, ◌-◌, ◌≤◌, ◌<◌, ◌≡◌, ap, ◌∙◌, Bool, false, ◌&&◌, ◌||◌, String, List, [], ◌∷◌, ◌++◌,
  Option, none, some, arith, length, length-append, length-replicate, replicate, All, All-append,
  ◌==◌, str_eq, if◌then◌else◌,
}
use p2p_rdt.Common.Ascending.{
  contains, From, contains-insert, insert-From, From-ext, not-contains_of_lt,
}
use p2p_rdt.Common.Results.{Result, ok, raise, ◌>>=◌, IsOk}

add_code-From : (o : Option (Option ℕ)) (l : List ℕ) → From 0 l → From 0 (add_code o l)
unfolding add_code
add_code-From none l f = f
add_code-From (some none) l f = f
add_code-From (some (some v)) l f = insert-From 0 v l (omega arith) f

pub codes_down-From : (d : List (String × Option ℕ)) (ks : List String) → From 0 (codes_down d ks)
unfolding codes_down
codes_down-From d [] = tt
codes_down-From d (k ∷ ks) = add_code-From (lookup k d) (codes_down d ks) (codes_down-From d ks)

-- A row of `m` codes as the encoder writes it: ascending, below `n`, and zeros up to `m`.
pub record IsRow (n m : ℕ) (row : List ℕ) : Type 0 where
  pub pressed : List ℕ
  pub ascending : From 1 pressed
  pub below : All (λ v. v < n) pressed
  pub within : length pressed ≤ m
  pub padded : row ≡ pressed ++ replicate (m - length pressed) 0

contains-add_code :
    (c : ℕ) (o : Option (Option ℕ)) (xs ys : List ℕ) (b : Bool)
    → contains c xs ≡ (b || contains c ys)
    → contains c (add_code o xs) ≡ (b || contains c (add_code o ys))
unfolding add_code
contains-add_code c none xs ys b h = h
contains-add_code c (some none) xs ys b h = h
contains-add_code c (some (some v)) xs ys b h =
    ground (arith, contains-insert c v xs, contains-insert c v ys)

contains-pad :
    (c k : ℕ) (xs : List ℕ)
    → From 1 xs
    → (not (c == 0) && contains c (xs ++ replicate k 0)) ≡ contains c xs
contains-pad c k xs f = strip xs (not-contains_of_lt 1 c xs f) k
  where
    zeros : (j : ℕ) → (not (c == 0) && contains c (replicate j 0)) ≡ false
    zeros zero = ground arith
    zeros (suc j) = ground (arith, zeros j)

    strip :
        (ys : List ℕ)
        → (c < 1 → contains c ys ≡ false)
        → (j : ℕ) → (not (c == 0) && contains c (ys ++ replicate j 0)) ≡ contains c ys
    strip [] h j = zeros j
    strip (y ∷ ys) h j = ground (arith, strip ys (λ lt. ground (arith, h lt)) j, h)

All-replicate : (n k : ℕ) → 0 < n → All (λ v. v < n) (replicate k 0)
All-replicate n zero h = tt
All-replicate n (suc k) h = (h, All-replicate n k h)

pub row-below : {n m : ℕ} {row : List ℕ} → 0 < n → IsRow n m row → All (λ v. v < n) row
row-below {n} {m} h w = rw (w.padded) (
    All-append (λ v. v < n) w.pressed (replicate (m - length w.pressed) 0) w.below
      (All-replicate n (m - length w.pressed) h))

pub length-row : {n m : ℕ} {row : List ℕ} → IsRow n m row → length row ≡ m
length-row {n} {m} w = rw (w.padded) (
    omega (
      arith,
      length-append w.pressed (replicate (m - length w.pressed) 0),
      length-replicate {A = ℕ} (m - length w.pressed) 0,
      w.within,
    ))

-- `nothing` is the name of code 0; every code below `n` has a name, and the name has that code.
module _ (d : List (String × Option ℕ)) (r : List (ℕ × String)) (nothing : String) (n : ℕ)
    (inverse : (v : ℕ)
      → v < n
      → (k : String) × (name_of v r ≡ some k)
        × (lookup k d ≡ some (some v))
        × (str_eq k nothing ≡ (v == 0))) where
  contains-insert_name :
      (c v : ℕ) (k : String) (names : List String)
      → lookup k d ≡ some (some v)
      → contains c (codes_down d (insert_name k names))
        ≡ ((c == v) || contains c (codes_down d names))
  unfolding codes_down insert_name add_code
  contains-insert_name c v k [] e = ground (arith, contains-insert c v [])
  contains-insert_name c v k (j ∷ names) e = ground (
    arith,
    path_by_compare k j,
    lookup_same,
    contains-insert c v (codes_down d (j ∷ names)),
    contains-insert c v (codes_down d names),
    contains-add_code c (lookup j d) (codes_down d (insert_name k names)) (codes_down d names)
        (c == v),
    contains-insert_name c v k names e,
  )
    where
      lookup_same : k ≡ j → lookup k d ≡ lookup j d
      lookup_same p = ap (λ s. lookup s d) p

  -- Encoding the names of a row gives the codes of the row, without the zeros.
  abbrev Encodes : ℕ → List ℕ → Result (List String) → Type 0
  Encodes c codes (ok names) = contains c (codes_down d names) ≡ (not (c == 0) && contains c codes)
  Encodes c codes (raise e) = Unit

  Encodes-cons :
      (c v : ℕ) (k : String) (codes : List ℕ) (rest : Result (List String))
      → lookup k d ≡ some (some v)
      → str_eq k nothing ≡ (v == 0)
      → Encodes c codes rest
      → Encodes c
          (v ∷ codes)
          (do names ← rest; ok (if str_eq k nothing then names else insert_name k names))
  Encodes-cons c v k codes (raise e) coded zero_name h = tt
  Encodes-cons c v k codes (ok names) coded zero_name h =
      ground (arith, contains-insert_name c v k names coded)

  names_down-Encodes :
      (c : ℕ) (codes : List ℕ)
      → All (λ v. v < n) codes
      → Encodes c codes (names_down r nothing codes)
  unfolding names_down codes_down
  names_down-Encodes c [] h = ground arith
  names_down-Encodes c (v ∷ codes) h =
      let (k, named, coded, zero_name) = inverse v h.0 in
      rw named (
        Encodes-cons c v k codes (names_down r nothing codes) coded zero_name
          (names_down-Encodes c codes h.1))

  pub names_down_total :
      (codes : List ℕ) → All (λ v. v < n) codes → IsOk (names_down r nothing codes)
  unfolding names_down
  names_down_total [] h = tt
  names_down_total (v ∷ codes) h = ground (arith, inverse v h.0, names_down_total codes h.1)

  -- Encoding the names of a row gives the row.
  pub fit-names_down :
      (m : ℕ) {row : List ℕ} {names : List String}
      → 0 < n
      → IsRow n m row
      → names_down r nothing row ≡ ok names
      → fit m (codes_down d names) ≡ row
  unfolding fit
  fit-names_down m {row} {names} h w e = rw same (ground (arith, w.padded, w.within))
    where
      decoded : (c : ℕ) → contains c (codes_down d names) ≡ (not (c == 0) && contains c row)
      decoded c = rw e at (names_down-Encodes c row (row-below h w))

      same : codes_down d names ≡ w.pressed
      same = From-ext 0 1 (codes_down d names) w.pressed (codes_down-From d names) w.ascending (λ c.
          decoded c ∙ rw w.padded (contains-pad c (m - length w.pressed) w.pressed w.ascending))
