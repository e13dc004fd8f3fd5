-- ===== src/KvCache/Window.antt =====
-- A rolling cache is the window of the last `max_T` steps.
use p2p_rdt.Common.{
  ℕ, zero, suc, ◌+◌, ◌-◌, ◌*◌, ◌≤◌, ◌<◌, ◌≡◌, refl, true, List, [], ◌∷◌, ◌++◌, Option, none, arith,
  length, drop, length-append, length-drop, drop-drop, drop-append, drop-append_length, inl, inr,
  sym, leb, if◌then◌else◌, Bool-cases, All, All-append,
}
use mathlib.Core.List.{append-nil, append_assoc}
use native.Mathlib.Nat.{mul-le-mul_left, le_of_mul-le-mul_left}
use p2p_rdt.KvCache.{
  KvCacheState, BaseKvCache, Rolling, rolling, empty, resize, rolling_init_state, rolling_update,
}

-- One step of keys and values, as many of each as a step has tokens.
pub record Step (E : Type 0) : Type 0 where
  pub keys : List E
  pub values : List E

abbrev pub IsStep : {E : Type 0} → ℕ → Step E → Type 0
IsStep n s = (length s.keys ≡ n) × (length s.values ≡ n)

module _ {E : Type 0} where
  -- The cache after a sequence of updates that leave the flag to the cache.
  unfoldable pub run : Rolling → KvCacheState E → List (Step E) → KvCacheState E
  run c state [] = state
  run c state (s ∷ steps) = run c (rolling_update c state s.keys s.values none) steps

  abbrev pub all_keys : List (Step E) → List E
  all_keys [] = []
  all_keys (s ∷ steps) = s.keys ++ all_keys steps

  abbrev pub all_values : List (Step E) → List E
  all_values [] = []
  all_values (s ∷ steps) = s.values ++ all_values steps

  -- The steps that a window of `n` shows.
  abbrev pub last : ℕ → List (Step E) → List (Step E)
  last n steps = drop (length steps - n) steps

  -- The cache holds exactly these steps.
  abbrev pub Holds : KvCacheState E → List (Step E) → Type 0
  Holds state steps = (state.k_cache ≡ all_keys steps) × (state.v_cache ≡ all_values steps)

  all_keys-append : (xs ys : List (Step E)) → all_keys (xs ++ ys) ≡ all_keys xs ++ all_keys ys
  all_keys-append [] ys = refl
  all_keys-append (s ∷ xs) ys = simp (all_keys-append xs ys, append_assoc)

  all_values-append :
      (xs ys : List (Step E)) → all_values (xs ++ ys) ≡ all_values xs ++ all_values ys
  all_values-append [] ys = refl
  all_values-append (s ∷ xs) ys = simp (all_values-append xs ys, append_assoc)

  length-all_keys :
      (n : ℕ) (steps : List (Step E))
      → All (IsStep n) steps
      → length (all_keys steps) ≡ n * length steps
  length-all_keys n [] h = omega arith
  length-all_keys n (s ∷ steps) h =
      omega (arith, length-append s.keys (all_keys steps), length-all_keys n steps h.1, h.0.0)

  -- The window after one more step.
  slide : ℕ → List (Step E) → Step E → List (Step E)
  slide n w s = (if leb n (length w) then drop 1 w else w) ++ (s ∷ [])

  slide-last :
      (n : ℕ) (past : List (Step E)) (s : Step E)
      → 0 < n
      → slide n (last n past) s ≡ last n (past ++ (s ∷ []))
  unfolding slide
  slide-last n past s h = elim (Bool-cases (leb n (length past))) [
    | inl full ↦
        let k = length past - n in
        let cond : leb n (length (drop k past)) ≡ true = ground (arith, length-drop k past) in
        let next : length (past ++ (s ∷ [])) - n ≡ k + 1 =
          ground (arith, length-append past (s ∷ [])) in
        rw (cond, next, drop-append (k + 1) past (s ∷ []) (ground arith), drop-drop 1 k past)
    | inr short ↦
        let all_of : length past - n ≡ 0 = ground arith in
        let still : length (past ++ (s ∷ [])) - n ≡ 0 =
          ground (arith, length-append past (s ∷ [])) in
        rw (all_of, still, short)
  ]

  All-drop :
      (n k : ℕ) (steps : List (Step E)) → All (IsStep n) steps → All (IsStep n) (drop k steps)
  All-drop n zero steps h = h
  All-drop n (suc k) [] h = tt
  All-drop n (suc k) (s ∷ steps) h = All-drop n k steps h.1

  module _ (b : BaseKvCache) (n max_T : ℕ) (n_pos : 0 < n) (max_T_pos : 0 < max_T) where
    -- The cache is at its limit when the window has `max_T` steps.
    at_limit :
        (state : KvCacheState E) (w : List (Step E))
        → Holds state w
        → All (IsStep n) w
        → leb (n * max_T) (length state.k_cache) ≡ leb max_T (length w)
    at_limit state w h steps =
        let size : length state.k_cache ≡ n * length w = rw h.0 (length-all_keys n w steps) in
        rw size (
          ground (
            arith,
            mul-le-mul_left {m = max_T} {n = length w} n,
            λ (p : n * max_T ≤ n * length w).
                le_of_mul-le-mul_left {m = max_T} {n = length w} p n_pos,
          ))

    cut :
        (state : KvCacheState E) (w : List (Step E)) (s : Step E)
        → Holds state w
        → All (IsStep n) w
        → IsStep n s
        → 0 < length w
        → (drop n state.k_cache ++ s.keys ≡ all_keys (drop 1 w ++ (s ∷ [])))
          × (drop n state.v_cache ++ s.values ≡ all_values (drop 1 w ++ (s ∷ [])))
    cut state [] s h steps new p = absurd (omega arith)
    cut state (s' ∷ w) s h steps new p = (
      simp (
        h.0,
        drop-append_length n s'.keys (all_keys w) (sym steps.0.0),
        all_keys-append w (s ∷ []),
        append-nil,
      ),
      simp (
        h.1,
        drop-append_length n s'.values (all_values w) (sym steps.0.1),
        all_values-append w (s ∷ []),
        append-nil,
      ),
    )

    rolling_update-slide :
        (state : KvCacheState E) (w : List (Step E)) (s : Step E)
        → Holds state w
        → All (IsStep n) w
        → IsStep n s
        → Holds (rolling_update (rolling b n max_T) state s.keys s.values none) (slide max_T w s)
    unfolding rolling_update rolling slide
    rolling_update-slide state w s h steps new = elim (Bool-cases (leb max_T (length w))) [
      | inl full ↦
          rw (full, at_limit state w h steps, full) (cut state w s h steps new (ground arith))
      | inr short ↦
          rw (at_limit state w h steps, short)
            (
              simp (h.0, all_keys-append w (s ∷ []), append-nil),
              simp (h.1, all_values-append w (s ∷ []), append-nil),
            )
    ]

    run-Holds :
        (state : KvCacheState E) (past steps : List (Step E))
        → Holds state (last max_T past)
        → All (IsStep n) past
        → All (IsStep n) steps
        → Holds (run (rolling b n max_T) state steps) (last max_T (past ++ steps))
    unfolding run
    run-Holds state past [] h p q = rw append-nil h
    run-Holds state past (s ∷ steps) h p q = rw (← regroup) (
        run-Holds (rolling_update (rolling b n max_T) state s.keys s.values none) (past ++ (s ∷ []))
          steps
          (rw (← slide-last max_T past s max_T_pos)
            (rolling_update-slide state (last max_T past) s h (All-drop n _ past p) q.0))
          (All-append (IsStep n) past (s ∷ []) p (q.0, tt)) q.1)
      where
        regroup : (past ++ (s ∷ [])) ++ steps ≡ past ++ (s ∷ steps)
        regroup = append_assoc past (s ∷ []) steps

-- From the initial state, after any updates without `should_grow_cache`, each with a step of `n` tokens, with `n` and `max_T` positive, the cache
-- is the last `max_T` steps, oldest first, and no longer than `max_seq_len`.
pub run-last :
    {E : Type 0} (b : BaseKvCache) (batch : Option ℕ) (n max_T : ℕ) (steps : List (Step E))
    → 0 < n
    → 0 < max_T
    → All (IsStep n) steps
    → let (c, state) = rolling_init_state {E = E} (rolling b n max_T) batch in
      Holds (run c state steps) (last max_T steps)
      × (length (run c state steps).k_cache ≤ c.max_seq_len)
unfolding rolling_init_state rolling
run-last {E} b batch n max_T steps hn hT h =
    let held = run-Holds (resize batch b) n max_T hn hT empty [] steps start tt h in
    (
      held,
      rw held.0 (
          omega (
            arith,
            length-all_keys n (last max_T steps) (All-drop n (length steps - max_T) steps h),
            mul-le-mul_left {m = length (last max_T steps)} {n = max_T} n
                (omega (arith, length-drop (length steps - max_T) steps)),
          )),
    )
  where
    nothing : (k : ℕ) → drop {A = Step E} k [] ≡ []
    nothing zero = refl
    nothing (suc k) = refl

    start : Holds (empty {E = E}) (last {E = E} max_T [])
    start = (rw (nothing (0 - max_T)), rw (nothing (0 - max_T)))
