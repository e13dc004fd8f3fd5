-- ===== src/Common/Ascending.antt =====
-- A Python set of numbers whose one use is `sorted(list(s))`, kept as the ascending list of its
-- elements: `insert` is `s.add`. Two such lists with the same elements are equal.
use Prim.Native.Nat.{compare, Ordering}
use p2p_rdt.Common.{ℕ, suc, ◌≤◌, ◌<◌, ◌≡◌, refl, Bool, false, ◌||◌, List, [], ◌∷◌, arith, ◌==◌}

abbrev pub insert : ℕ → List ℕ → List ℕ
insert a [] = a ∷ []
insert a (b ∷ l) = elim (compare a b) [
  | Ordering.lt ↦ a ∷ b ∷ l
  | Ordering.eq ↦ b ∷ l
  | Ordering.gt ↦ b ∷ insert a l
]

abbrev pub contains : ℕ → List ℕ → Bool
contains a [] = false
contains a (b ∷ l) = (a == b) || contains a l

abbrev pub of_list : List ℕ → List ℕ
of_list [] = []
of_list (a ∷ l) = insert a (of_list l)

-- Strictly ascending, with every element at least `lo`.
abbrev pub From : ℕ → List ℕ → Type 0
From lo [] = Unit
From lo (a ∷ l) = (lo ≤ a) × From (suc a) l

pub contains-insert : (c a : ℕ) (l : List ℕ) → contains c (insert a l) ≡ ((c == a) || contains c l)
contains-insert c a [] = refl
contains-insert c a (b ∷ l) = ground (arith, contains-insert c a l)

pub From-mono : (k lo : ℕ) (l : List ℕ) → k ≤ lo → From lo l → From k l
From-mono k lo [] h f = tt
From-mono k lo (a ∷ l) h f = (omega arith, f.1)

pub insert-From : (lo a : ℕ) (l : List ℕ) → lo ≤ a → From lo l → From lo (insert a l)
insert-From lo a [] h f = (h, tt)
insert-From lo a (b ∷ l) h f = ground (arith, insert-From (suc b) a l, From-mono (suc a) b l)

pub not-contains_of_lt : (lo c : ℕ) (l : List ℕ) → From lo l → c < lo → contains c l ≡ false
not-contains_of_lt lo c [] f h = refl
not-contains_of_lt lo c (a ∷ l) f h = ground (arith, not-contains_of_lt (suc a) c l)

-- Extensionality: an ascending list is determined by its elements.
pub From-ext :
    (lo k : ℕ) (xs ys : List ℕ)
    → From lo xs
    → From k ys
    → ((c : ℕ) → contains c xs ≡ contains c ys)
    → xs ≡ ys
From-ext lo k [] [] f g h = refl
From-ext lo k [] (y ∷ ys) f g h = absurd (ground (arith, h y))
From-ext lo k (x ∷ xs) [] f g h = absurd (ground (arith, h x))
From-ext lo k (x ∷ xs) (y ∷ ys) f g h =
    ground (arith, same, From-ext (suc x) (suc y) xs ys f.1 g.1 rest)
  where
    same : x ≡ y
    same =
        ground (
          arith,
          h x,
          h y,
          not-contains_of_lt (suc x) y xs f.1,
          not-contains_of_lt (suc y) x ys g.1,
        )

    rest : (c : ℕ) → contains c xs ≡ contains c ys
    rest c =
        ground (
          arith,
          same,
          h c,
          not-contains_of_lt (suc x) c xs f.1,
          not-contains_of_lt (suc y) c ys g.1,
        )
