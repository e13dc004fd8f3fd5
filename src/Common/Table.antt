-- ===== src/Common/Table.antt =====
-- A claim about every number below a bound, by evaluation.
use p2p_rdt.Common.{ℕ, zero, suc, ◌<◌, ◌≡◌, Bool, true, ◌&&◌, arith}

unfoldable pub all_below : ℕ → (ℕ → Bool) → Bool
all_below zero test = true
all_below (suc bound) test = all_below bound test && test bound

pub all_below_sound :
    (bound : ℕ) (test : ℕ → Bool) (k : ℕ) → all_below bound test ≡ true → k < bound → test k ≡ true
unfolding all_below
all_below_sound (suc bound) test k passed lt = ground (arith, all_below_sound bound test k)
all_below_sound zero test k passed lt = elim lt [ ]
