-- ===== src/DimensionConverter.antt =====
-- `ActionDimensionConverter` (elefant/policy_model/utils.py): an action with one choice for each
-- dimension as a single number. A tensor is taken at one sample of the batch: a list of choices on
-- the one side, a number on the other; with one dimension the list has one element. `torch.long`
-- has 64 bits; its sums and products wrap.
pub mod Digits
use p2p_rdt.Common.{
  ℕ, zero, suc, ◌+◌, ◌*◌, ◌/◌, ◌%◌, ◌^◌, ◌&&◌, Bool, true, false, List, [], ◌∷◌, length, all,
  get_or, ltb, ◌==◌, if◌then◌else◌,
}
use p2p_rdt.Common.Results.{Result, ok, ◌>>=◌, ◌>>◌, ensure, assertion_error, runtime_error}

-- A sum or product as 64 bits keep it.
unfoldable pub wrap : ℕ → ℕ
wrap x = x % 2 ^ 64

pub record Converter : Type 0 where
  pub num_actions_per_dim : List ℕ
  pub powers : List ℕ

-- `[n ** i for i in reversed(range(dims))]`
unfoldable pub powers_of : ℕ → ℕ → List ℕ
powers_of n zero = []
powers_of n (suc k) = wrap (n ^ k) ∷ powers_of n k

-- `__init__`, which wants the same number of choices in every dimension; `max()` of no dimension
-- raises a RuntimeError.
unfoldable pub converter : List ℕ → Result Converter
unfolding powers_of
converter dims = do
  ensure (ltb 0 (length dims)) runtime_error
  ensure (all (λ n. n == get_or dims 0 0) dims) assertion_error
  ok (record {
    num_actions_per_dim = dims;
    powers = if ltb 1 (length dims) then powers_of (get_or dims 0 0) (length dims) else [];
  })

-- `(v * powers).sum()`
unfoldable pub dot : List ℕ → List ℕ → ℕ
unfolding wrap
dot [] ps = 0
dot (x ∷ v) [] = 0
dot (x ∷ v) (p ∷ ps) = wrap (wrap (x * p) + dot v ps)

unfoldable pub forward : Converter → List ℕ → ℕ
forward c action_per_dim =
    if length c.num_actions_per_dim == 1
    then get_or action_per_dim 0 0
    else dot action_per_dim c.powers

-- The loop of `inverse`, from dimension `i` with `k` dimensions left.
unfoldable pub digits : ℕ → ℕ → ℕ → List ℕ
digits n zero a = []
digits n (suc k) a = a / wrap (n ^ k) % n ∷ digits n k a

unfoldable pub inverse : Converter → ℕ → List ℕ
inverse c true_action =
    if length c.num_actions_per_dim == 1
    then true_action ∷ []
    else digits (get_or c.num_actions_per_dim 0 0) (length c.num_actions_per_dim) true_action
