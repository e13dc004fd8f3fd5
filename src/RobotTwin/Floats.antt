-- ===== src/RobotTwin/Floats.antt =====
-- What elefant/evaluation/robotwin/common.py uses of numpy and scipy: 32-bit floats and rotations.
use p2p_rdt.Common.{ℕ, ◌==◌, Bool, List, [], ◌∷◌, all, length, if◌then◌else◌}
use p2p_rdt.Common.Results.{Result, ok, raise, value_error}

-- `float n d` is the float next to n / d, `rotate a b` is
-- `(R.from_quat(a) * R.from_quat(b)).as_quat()`, and `rotate_back a b` is
-- `(R.from_quat(a).inv() * R.from_quat(b)).as_quat()`.
pub record Floats (F : Type 0) : Type 0 where
  pub float : ℕ → ℕ → F
  pub plus : F → F → F
  pub minus : F → F → F
  pub times : F → F → F
  pub over : F → F → F
  pub negated : F → F
  pub less : F → F → Bool
  pub less_equal : F → F → Bool
  pub isfinite : F → Bool
  pub nan_to_num : F → F
  pub norm : List F → F
  pub dot : List F → List F → F
  pub clip : F → F → F → F
  pub arccos : F → F
  pub sin : F → F
  pub allclose : List F → List F → Bool
  pub rotate : List F → List F → List F
  pub rotate_back : List F → List F → List F

module _ {A : Type 0} where
  -- `a.reshape(n)` of a list of numbers.
  unfoldable pub reshape : ℕ → List A → Result (List A)
  reshape n xs = if length xs == n then ok xs else raise value_error

  -- An operation on two arrays of the same shape, number by number.
  abbrev pub zip_with : (A → A → A) → List A → List A → List A
  zip_with f [] ys = []
  zip_with f (x ∷ xs) [] = []
  zip_with f (x ∷ xs) (y ∷ ys) = f x y ∷ zip_with f xs ys

module _ {F : Type 0} (fl : Floats F) where
  abbrev pub zero_float : F
  zero_float = fl.float 0 1

  abbrev pub one_float : F
  one_float = fl.float 1 1

  abbrev pub all_finite : List F → Bool
  all_finite xs = all fl.isfinite xs

  -- `s * xs`
  abbrev pub scale : F → List F → List F
  scale s [] = []
  scale s (x ∷ xs) = fl.times s x ∷ scale s xs
