-- ===== src/Lerobot/Scatter.antt =====
-- Where the channels of a row go by the inverse ids (elefant/data/lerobot_latent_dataset.py).
use p2p_rdt.Common.{
  ℕ, zero, suc, ◌+◌, ◌≤◌, ◌<◌, ◌≡◌, ◌≢◌, refl, sym, ap, ◌∙◌, true, List, [], ◌∷◌, ◌++◌, Option,
  none, some, arith, length, get_elem?, set, replicate, All, ltb, lt→ltb, length-set, length-append,
  length-replicate, get_elem?-replicate, get_elem?-set_self, get_elem?-set_ne,
  get_elem?-append_left, get_elem?-append_right, get_elem?_of_lt,
}
use p2p_rdt.Common.Results.{Result, ok, raise, >>=_ok, ensure, index_error}
use p2p_rdt.Lerobot.Channels.{
  Config, resolve_action_dim, invert, resolve_inverse_used_action_channel_ids, select,
}

abbrev pub NotIn : ℕ → List ℕ → Type 0
NotIn j [] = Unit
NotIn j (k ∷ ks) = (j ≢ k) × NotIn j ks

abbrev pub Distinct : List ℕ → Type 0
Distinct [] = Unit
Distinct (k ∷ ks) = NotIn k ks × Distinct ks

-- The ids that the loop writes into a list give their own place back.
record Inverts (i : ℕ) (used inv inv' : List ℕ) : Type 0 where
  pub length_lem : length inv' ≡ length inv
  pub kept : (j : ℕ) → NotIn j used → get_elem? inv' j ≡ get_elem? inv j
  pub written : (k : ℕ) {j : ℕ} → get_elem? used k ≡ some j → get_elem? inv' j ≡ some (i + k)

some_inj : {a b : ℕ} → some a ≡ some b → a ≡ b
some_inj {a} e = ap (λ (o : Option ℕ). elim o [ none ↦ a | some n ↦ n ]) e

none_lem : {A : Type 0} {a : A} → none ≡ some a → ⊥
none_lem e = cc

Inverts-cons :
    (i j : ℕ) (used inv inv' : List ℕ)
    → NotIn j used
    → j < length inv
    → Inverts (i + 1) used (set inv j i) inv'
    → Inverts i (j ∷ used) inv inv'
Inverts-cons i j used inv inv' fresh below r = record {
  length_lem = r.length_lem ∙ length-set inv j i;
  kept = λ k h. r.kept k h.1 ∙ get_elem?-set_ne inv j k i (λ z. h.0 (sym z));
  written = go;
}
  where
    go : (k : ℕ) {j' : ℕ} → get_elem? (j ∷ used) k ≡ some j' → get_elem? inv' j' ≡ some (i + k)
    go zero e =
        let z : i ≡ i + 0 = omega arith in
        rw (sym (some_inj e)) (r.kept j fresh ∙ get_elem?-set_self inv j i below ∙ ap some z)
    go (suc k) e = let z : i + 1 + k ≡ i + suc k = omega arith in r.written k e ∙ ap some z

invert_lem :
    (used inv : List ℕ) (i : ℕ)
    → Distinct used
    → All (λ j. j < length inv) used
    → (inv' : List ℕ) × (invert i used inv ≡ ok inv') × Inverts i used inv inv'
unfolding invert
invert_lem [] inv i distinct below = (
  inv,
  refl,
  record { length_lem = refl; kept = λ j h. refl; written = λ k e. absurd (none_lem e) },
)
invert_lem (j ∷ used) inv i distinct below =
    let same = length-set inv j i in
    let (inv', e, r) = invert_lem used (set inv j i) (i + 1) distinct.1 (rw same below.1) in
    let lt : ltb j (length inv) ≡ true = lt→ltb j (length inv) below.0 in
    (inv', rw lt e, Inverts-cons i j used inv inv' distinct.0 below.0 r)

module _ {A : Type 0} where
  -- `out` holds at each place the value that the id there names.
  abbrev Gathers : List ℕ → List A → List A → Type 0
  Gathers inv row out =
      (length out ≡ length inv)
      × ((j i : ℕ) → get_elem? inv j ≡ some i → get_elem? out j ≡ get_elem? row i)

  Gathers-cons :
      (i : ℕ) (inv : List ℕ) (row out : List A) {a : A}
      → get_elem? row i ≡ some a
      → Gathers inv row out
      → Gathers (i ∷ inv) row (a ∷ out)
  Gathers-cons i inv row out {a} e h = (ap suc h.0, go)
    where
      go : (j k : ℕ) → get_elem? (i ∷ inv) j ≡ some k → get_elem? (a ∷ out) j ≡ get_elem? row k
      go zero k z = sym e ∙ ap (get_elem? row) (some_inj z)
      go (suc j) k z = h.1 j k z

  select_lem :
      (inv : List ℕ) (row : List A)
      → All (λ i. i < length row) inv
      → (out : List A) × (select inv row ≡ ok out) × Gathers inv row out
  unfolding select
  select_lem [] row below = ([], refl, (refl, λ j i e. absurd (none_lem e)))
  select_lem (i ∷ inv) row below =
      let (a, e) = get_elem?_of_lt row i below.0 in
      let (out, z, h) = select_lem inv row below.1 in
      (a ∷ out, rw (e, z) refl, Gathers-cons i inv row out e h)

All-set : (n i v : ℕ) (xs : List ℕ) → v < n → All (λ x. x < n) xs → All (λ x. x < n) (set xs i v)
All-set n i v [] lt h = tt
All-set n zero v (x ∷ xs) lt h = (lt, h.1)
All-set n (suc i) v (x ∷ xs) lt h = (h.0, All-set n i v xs lt h.1)

All-replicate : (n k v : ℕ) → v < n → All (λ x. x < n) (replicate k v)
All-replicate n zero v lt = tt
All-replicate n (suc k) v lt = (lt, All-replicate n k v lt)

invert_below :
    (used inv : List ℕ) (i n : ℕ) {inv' : List ℕ}
    → i + length used ≤ n
    → All (λ x. x < n) inv
    → invert i used inv ≡ ok inv'
    → All (λ x. x < n) inv'
unfolding invert
invert_below [] inv i n {inv'} le h e = rw (sym (value_inj e)) h
  where
    value_inj : ok inv ≡ ok inv' → inv ≡ inv'
    value_inj z = ap (λ (r : Result (List ℕ)). elim r [ ok l ↦ l | raise err ↦ inv ]) z
invert_below (j ∷ used) inv i n le h e =
    let (u, first, rest) =
      >>=_ok (ensure (ltb j (length inv)) index_error) (λ u. invert (i + 1) used (set inv j i)) e in
    invert_below used (set inv j i) (i + 1) n (omega arith) (All-set n j i inv (omega arith) h) rest

All-cast : {m n : ℕ} (xs : List ℕ) → m ≡ n → All (λ x. x < m) xs → All (λ x. x < n) xs
All-cast [] e h = tt
All-cast (x ∷ xs) e h = (omega (arith, h.0), All-cast xs e h.1)

lt_of_get_elem? : (xs : List ℕ) (i : ℕ) {x : ℕ} → get_elem? xs i ≡ some x → i < length xs
lt_of_get_elem? [] i e = absurd (none_lem e)
lt_of_get_elem? (x ∷ xs) zero e = omega arith
lt_of_get_elem? (x ∷ xs) (suc i) e = omega (arith, lt_of_get_elem? xs i e)

resolve_inverse_lem :
    (c : Config) (k : ℕ) (ks : List ℕ) {dim : ℕ}
    → c.used_action_channel_ids ≡ k ∷ ks
    → resolve_action_dim c ≡ ok dim
    → resolve_inverse_used_action_channel_ids c
      ≡ invert 0 (k ∷ ks) (replicate dim (suc (length ks)))
unfolding resolve_inverse_used_action_channel_ids
resolve_inverse_lem c k ks used known = ground arith

module _ {A : Type 0} where
  -- With used ids that are distinct and below the dimension of actions, the inverse ids resolve, one for each
  -- channel of an action. They take a row with one value for each used id and one pad to a row
  -- that holds value `i` at the `i`-th used id, and the pad at each channel that is not used.
  pub select_inverse :
      (c : Config) (k : ℕ) (ks : List ℕ) (dim : ℕ) (row : List A) (pad : A)
      → c.used_action_channel_ids ≡ k ∷ ks
      → resolve_action_dim c ≡ ok dim
      → Distinct (k ∷ ks)
      → All (λ j. j < dim) (k ∷ ks)
      → length row ≡ length (k ∷ ks)
      → (inv : List ℕ) × (out : List A) × (resolve_inverse_used_action_channel_ids c ≡ ok inv)
        × (select inv (row ++ (pad ∷ [])) ≡ ok out)
        × (length out ≡ dim)
        × ((i j : ℕ) → get_elem? (k ∷ ks) i ≡ some j → get_elem? out j ≡ get_elem? row i)
        × ((j : ℕ) → j < dim → NotIn j (k ∷ ks) → get_elem? out j ≡ some pad)
  select_inverse c k ks dim row pad used known distinct below len =
      let blank = replicate dim (suc (length ks)) in
      let (inv, e, r) =
        invert_lem (k ∷ ks) blank 0 distinct
          (All-cast (k ∷ ks) (sym (length-replicate dim (suc (length ks)))) below) in
      let longer = length-append row (pad ∷ []) in
      let small =
        invert_below (k ∷ ks) blank 0 (length (row ++ (pad ∷ []))) (omega (arith, longer))
          (All-replicate (length (row ++ (pad ∷ []))) dim (suc (length ks)) (omega (arith, longer)))
          e in
      let (out, z, g) = select_lem inv (row ++ (pad ∷ [])) small in
      (
        inv,
        out,
        resolve_inverse_lem c k ks used known ∙ e,
        z,
        g.0 ∙ r.length_lem ∙ length-replicate dim (suc (length ks)),
        λ i j h.
            g.1 j (0 + i) (r.written i h)
            ∙ get_elem?-append_left row (pad ∷ []) (0 + i)
                (omega (arith, lt_of_get_elem? (k ∷ ks) i h))
            ∙ ap (get_elem? row) (omega arith),
        λ j lt unused.
            g.1 j (suc (length ks))
              (r.kept j unused ∙ get_elem?-replicate dim j (suc (length ks)) lt)
            ∙ get_elem?-append_right row (pad ∷ []) (suc (length ks)) 0 (omega arith),
      )
