-- ===== src/Examples/Instances.antt =====
-- Concrete functions in the place of the ones that other packages provide.
use p2p_rdt.ActionMapping.Decode.{TruncNormal}
use p2p_rdt.ActionMapping.Encode.{Bucketize, IsAscending}
use p2p_rdt.Common.{
  ℕ, zero, suc, ◌-◌, ◌≤◌, ◌<◌, ◌≡◌, List, [], ◌∷◌, some, arith, length, get_elem?, if◌then◌else◌,
  Bool-cases, inl, inr,
}
use p2p_rdt.Common.Int.{ℤ, ◌≤ℤ◌, ◌<ℤ◌, ltb_ℤ}
use p2p_rdt.VideoProto.Chunks.{Rng}
use p2p_rdt.Lerobot.Sample.{Draw}

-- The number of edges before the first one that is not below `v`.
unfoldable pub first_edge : ℤ → List ℤ → ℕ
first_edge v [] = 0
first_edge v (e ∷ edges) = if ltb_ℤ e v then suc (first_edge v edges) else 0

pub first_edge-le : (v : ℤ) (edges : List ℤ) → first_edge v edges ≤ length edges
unfolding first_edge
first_edge-le v [] = omega arith
first_edge-le v (e ∷ edges) = ground (arith, first_edge-le v edges)

pub first_edge-below :
    (v : ℤ) (edges : List ℤ) (i : ℕ) {e : ℤ}
    → i < first_edge v edges
    → get_elem? edges i ≡ some e
    → e <ℤ v
unfolding first_edge
first_edge-below v [] i h z = absurd (omega arith)
first_edge-below v (e ∷ edges) zero h z = ground arith
first_edge-below v (e ∷ edges) (suc i) h z = first_edge-below v edges i (ground arith) z

later :
    (v e : ℤ) (edges : List ℤ) (i : ℕ) {x : ℤ}
    → IsAscending (e ∷ edges)
    → v ≤ℤ e
    → get_elem? (e ∷ edges) i ≡ some x
    → v ≤ℤ x
later v e edges zero h le z = ground arith
later v e [] (suc i) h le z = ground arith
later v e (f ∷ edges) (suc i) h le z = later v f edges i h.1 (omega (arith, h.0)) z

tail-IsAscending : (e : ℤ) (edges : List ℤ) → IsAscending (e ∷ edges) → IsAscending edges
tail-IsAscending e [] h = tt
tail-IsAscending e (f ∷ edges) h = h.1

pub first_edge-above :
    (v : ℤ) (edges : List ℤ) (i : ℕ) {e : ℤ}
    → IsAscending edges
    → first_edge v edges ≤ i
    → get_elem? edges i ≡ some e
    → v ≤ℤ e
unfolding first_edge
first_edge-above v [] i h le z = ground arith
first_edge-above v (e ∷ edges) zero h le z = later v e edges zero h (ground arith) z
first_edge-above v (e ∷ edges) (suc i) h le z = elim (Bool-cases (ltb_ℤ e v)) [
  | inr stop ↦ later v e edges (suc i) h (ground arith) z
  | inl go ↦ first_edge-above v edges i (tail-IsAscending e edges h) (ground arith) z
]

abbrev pub first_edge_torch : Bucketize
first_edge_torch = record {
  bucketize = first_edge;
  bucketize-le = first_edge-le;
  edge_below = λ v edges i h lt z. first_edge-below v edges i lt z;
  edge_above = λ v edges i h le z. first_edge-above v edges i h le z;
}

-- The draw that is always the lower bound.
abbrev pub lowest : TruncNormal
lowest = record {
  scale = 1;
  scale-pos = omega arith;
  draw = λ std a b. a;
  draw-ge = λ std a b h. omega arith;
  draw-le = λ std a b h. h;
}

abbrev pub last_start : Rng
last_start = record { randint = λ k. k - 1; randint-lt = λ k h. omega arith }

abbrev pub last_draw : Draw
last_draw = record { randint = λ k. k - 1; randint-lt = λ k h. omega arith }
