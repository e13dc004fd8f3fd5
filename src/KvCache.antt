-- ===== src/KvCache.antt =====
-- The key-value caches of the transformer (elefant/policy_model/kv_cache.py). A cache tensor is the
-- list of its entries along dimension 2, the sequence, which is the one that the code works on; an
-- entry stands for what the other three dimensions hold there.
pub mod Window
use p2p_rdt.Common.{
  ℕ, ◌*◌, Bool, true, false, List, [], ◌++◌, Option, none, some, length, drop, leb, if◌then◌else◌,
}
use p2p_rdt.Common.Results.{Result, ok, ◌>>=◌, ◌>>◌, ensure, assertion_error}

-- `KVCacheState`.
pub record KvCacheState (E : Type 0) : Type 0 where
  pub k_cache : List E
  pub v_cache : List E

-- The sizes of `BaseKVCache`; its `cache_shape` has 0 for the sequence.
pub record BaseKvCache : Type 0 where
  pub batch_size : ℕ
  pub num_kv_heads : ℕ
  pub embed_size_per_head : ℕ
  pub cache_shape : ℕ × ℕ × ℕ × ℕ

unfoldable pub base : ℕ → ℕ → ℕ → BaseKvCache
base batch_size num_kv_heads embed_size_per_head = record {
  batch_size = batch_size;
  num_kv_heads = num_kv_heads;
  embed_size_per_head = embed_size_per_head;
  cache_shape = (batch_size, num_kv_heads, 0, embed_size_per_head);
}

-- `effective_shape`, which a batch size given to `init_state` leaves behind in the object.
unfoldable pub resize : Option ℕ → BaseKvCache → BaseKvCache
resize none b = b
resize (some n) b =
    let (_, heads, len, size) = b.cache_shape in record b { cache_shape = (n, heads, len, size) }

-- `RollingStepKVCache`.
pub record Rolling : Type 0 where
  pub shape : BaseKvCache
  pub step_size : ℕ
  pub max_T : ℕ
  pub max_seq_len : ℕ

unfoldable pub rolling : BaseKvCache → ℕ → ℕ → Rolling
rolling b step_size max_T = record {
  shape = b;
  step_size = step_size;
  max_T = max_T;
  max_seq_len = step_size * max_T;
}

module _ {E : Type 0} where
  unfoldable pub empty : KvCacheState E
  empty = record { k_cache = []; v_cache = [] }

  -- `RollingStepKVCache.init_state`.
  unfoldable pub rolling_init_state : Rolling → Option ℕ → Rolling × KvCacheState E
  unfolding resize empty
  rolling_init_state c batch_size = (record c { shape = resize batch_size c.shape }, empty)

  -- Whether `update` cuts off the oldest step: by the flag, or if it is not given by the length.
  unfoldable pub rolls : Rolling → KvCacheState E → Option Bool → Bool
  rolls c state none = leb c.max_seq_len (length state.k_cache)
  rolls c state (some true) = false
  rolls c state (some false) = true

  -- `RollingStepKVCache.update`.
  unfoldable pub rolling_update :
      Rolling → KvCacheState E → List E → List E → Option Bool → KvCacheState E
  unfolding rolls
  rolling_update c state k_val v_val should_grow_cache =
      if rolls c state should_grow_cache
      then record {
        k_cache = drop c.step_size state.k_cache ++ k_val;
        v_cache = drop c.step_size state.v_cache ++ v_val;
      }
      else record { k_cache = state.k_cache ++ k_val; v_cache = state.v_cache ++ v_val }

  -- `AccumulatingKVCache.init_state`.
  unfoldable pub accumulating_init_state : BaseKvCache → Option ℕ → BaseKvCache × KvCacheState E
  unfolding resize empty
  accumulating_init_state b batch_size = (resize batch_size b, empty)

  -- `AccumulatingKVCache.update`, which refuses an explicit flag.
  unfoldable pub accumulating_update :
      KvCacheState E → List E → List E → Option Bool → Result (KvCacheState E)
  accumulating_update state k_val v_val should_grow_cache = do
    ensure (elim should_grow_cache [ none ↦ true | some _ ↦ false ]) assertion_error
    ok (record { k_cache = state.k_cache ++ k_val; v_cache = state.v_cache ++ v_val })
