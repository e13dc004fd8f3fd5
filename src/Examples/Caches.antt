-- ===== src/Examples/Caches.antt =====
-- Runs of the caches and the converter (elefant/policy_model/kv_cache.py,
-- elefant/policy_model/utils.py).
use p2p_rdt.Common.{ℕ, suc, ◌≤◌, ◌<◌, ◌≡◌, refl, none, [], ◌∷◌, arith, length, All, replicate}
use p2p_rdt.Common.Results.{ok}
use p2p_rdt.DimensionConverter.{wrap, Converter, converter, forward, inverse}
use p2p_rdt.DimensionConverter.Digits.{inverse-forward, forward-inverse}
use p2p_rdt.KvCache.{BaseKvCache, KvCacheState, base, rolling, rolling_init_state}
use p2p_rdt.KvCache.Window.{Step, Holds, run, last, run-last}

-- A step of two tokens.
abbrev step : ℕ → Step ℕ
step i = record { keys = i ∷ i ∷ []; values = suc i ∷ i ∷ [] }

abbrev small : BaseKvCache
small = base 1 1 1

run-last_example :
    let (c, state) = rolling_init_state {E = ℕ} (rolling small 2 2) none in
    Holds (run c state (step 1 ∷ step 2 ∷ step 3 ∷ [])) (last 2 (step 1 ∷ step 2 ∷ step 3 ∷ []))
    × (length (run c state (step 1 ∷ step 2 ∷ step 3 ∷ [])).k_cache ≤ c.max_seq_len)
run-last_example =
    run-last small none 2 2 (step 1 ∷ step 2 ∷ step 3 ∷ []) (omega arith) (omega arith)
      ((refl, refl), ((refl, refl), ((refl, refl), tt)))

abbrev three_keys : KvCacheState ℕ
three_keys = record { k_cache = 1 ∷ 2 ∷ 3 ∷ []; v_cache = 4 ∷ 5 ∷ 6 ∷ [] }

abbrev two_of_five : Converter
two_of_five = record { num_actions_per_dim = 5 ∷ 5 ∷ []; powers = 5 ∷ 1 ∷ [] }

two_of_five_lem : converter (replicate 2 5) ≡ ok two_of_five
unfolding converter wrap
two_of_five_lem = refl

inverse-forward_example : inverse two_of_five (forward two_of_five (3 ∷ 4 ∷ [])) ≡ 3 ∷ 4 ∷ []
inverse-forward_example =
    inverse-forward 5 2 two_of_five_lem (3 ∷ 4 ∷ []) (omega arith) (omega arith) refl
      (omega arith, (omega arith, tt))

forward-inverse_example :
    (forward two_of_five (inverse two_of_five 17) ≡ 17)
    × (length (inverse two_of_five 17) ≡ 2)
    × All (λ x. x < 5) (inverse two_of_five 17)
forward-inverse_example =
    forward-inverse 5 2 two_of_five_lem 17 (omega arith) (omega arith) (omega arith) (omega arith)
