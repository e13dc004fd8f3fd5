-- ===== src/DimensionConverter/Digits.antt =====
-- The two directions of the converter undo one another, while all actions fit into 63 bits.
use native.Mathlib.Nat.{
  zero-add, div-lt_iff_lt-mul, pow-zero, pow-suc, one-le-pow, mul-le-mul_left, mod-eq_of_lt,
  mul-le-mul_right, add-mul-div_right, div-eq_of_lt, add-mul-mod_self_right, div-add-mod', mod-lt,
  add_comm,
}
use p2p_rdt.Common.{
  ℕ, zero, suc, ◌+◌, ◌*◌, ◌/◌, ◌%◌, ◌^◌, ◌≤◌, ◌<◌, ◌≡◌, refl, ap, ◌∙◌, List, [], ◌∷◌, length, All,
  arith, replicate, length-replicate, true, all, ltb, ◌==◌, if◌then◌else◌,
}
use p2p_rdt.Common.Results.{ok}
use p2p_rdt.DimensionConverter.{
  Converter, wrap, powers_of, converter, dot, forward, digits, inverse,
}

wrap_small : (x : ℕ) → x < 2 ^ 64 → wrap x ≡ x
unfolding wrap
wrap_small x h = omega arith

-- The powers below one that fits, fit too.
pow-le : (n k b : ℕ) → 0 < n → n ^ suc k ≤ b → n ^ k ≤ b
pow-le n k b hn h = omega (arith, pow-suc n k, mul-le-mul_left {m = 1} {n = n} (n ^ k) hn)

-- A number whose digits are `v`.
value : ℕ → List ℕ → ℕ
value n [] = 0
value n (x ∷ v) = x * n ^ length v + value n v

value_lt : (n : ℕ) (v : List ℕ) → All (λ x. x < n) v → value n v < n ^ length v
unfolding value
value_lt n [] h = rw pow-zero (omega arith)
value_lt n (x ∷ v) h =
    rw pow-suc (omega (arith, value_lt n v h.1, mul-le-mul_right (n ^ length v) h.0))

dot-eq-value :
    (n : ℕ) (v : List ℕ)
    → All (λ x. x < n) v
    → n ^ length v ≤ 2 ^ 63
    → dot v (powers_of n (length v)) ≡ value n v
unfolding dot powers_of value
dot-eq-value n [] h b = refl
dot-eq-value n (x ∷ v) h b =
    let p = n ^ length v in
    let small : p ≤ 2 ^ 63 = pow-le n (length v) (2 ^ 63) (omega arith) b in
    let top : x * p + value n v < 2 ^ 63 =
      omega (arith, value_lt n v h.1, mul-le-mul_right p h.0, pow-suc n (length v)) in
    rw (wrap_small p (omega arith), wrap_small (x * p) (omega arith), dot-eq-value n v h.1 small)
      (wrap_small (x * p + value n v) (omega arith))

digits-shift : (n k y r : ℕ) → 0 < n → n ^ k ≤ 2 ^ 63 → digits n k (r + y * n ^ k) ≡ digits n k r
unfolding digits
digits-shift n zero y r hn b = refl
digits-shift n (suc k) y r hn b =
    let p = n ^ k in
    let small : p ≤ 2 ^ 63 = pow-le n k (2 ^ 63) hn b in
    let regroup : y * n ^ suc k ≡ y * n * p = omega (arith, ap (λ (t : ℕ). y * t) (pow-suc n k)) in
    rw (
      regroup,
      wrap_small p (omega arith),
      add-mul-div_right r (y * n) (one-le-pow k n hn),
      add-mul-mod_self_right (r / p) y n,
      digits-shift n k (y * n) r hn small,
    )

digits-value :
    (n : ℕ) (v : List ℕ)
    → All (λ x. x < n) v
    → n ^ length v ≤ 2 ^ 63
    → digits n (length v) (value n v) ≡ v
unfolding digits value
digits-value n [] h b = refl
digits-value n (x ∷ v) h b =
    let p = n ^ length v in
    let hn : 0 < n = omega arith in
    let small : p ≤ 2 ^ 63 = pow-le n (length v) (2 ^ 63) hn b in
    let head : (value n v + x * p) / p % n ≡ x =
      rw
        (
          add-mul-div_right (value n v) x (one-le-pow (length v) n hn),
          div-eq_of_lt (value_lt n v h.1),
          zero-add,
        )
        (mod-eq_of_lt h.0) in
    rw (
      add_comm (x * p) (value n v),
      wrap_small p (omega arith),
      head,
      digits-shift n (length v) x (value n v) hn small,
      digits-value n v h.1 small,
    )

length-digits : (n k a : ℕ) → length (digits n k a) ≡ k
unfolding digits
length-digits n zero a = refl
length-digits n (suc k) a = ap suc (length-digits n k a)

digits-below : (n k a : ℕ) → 0 < n → All (λ x. x < n) (digits n k a)
unfolding digits
digits-below n zero a h = tt
digits-below n (suc k) a h = (mod-lt (a / wrap (n ^ k)) h, digits-below n k a h)

-- The number of the digits of `a` is `a`.
value-digits : (n k a : ℕ) → 0 < n → n ^ k ≤ 2 ^ 63 → a < n ^ k → value n (digits n k a) ≡ a
unfolding digits value
value-digits n zero a hn b h = omega (arith, pow-zero n)
value-digits n (suc k) a hn b h =
    let p = n ^ k in
    let p-pos : 0 < p = one-le-pow k n hn in
    let small : p ≤ 2 ^ 63 = pow-le n k (2 ^ 63) hn b in
    let parts : a ≡ a % p + a / p * p = omega (arith, div-add-mod' a p) in
    let low : digits n k a ≡ digits n k (a % p) =
      ap (digits n k) parts ∙ digits-shift n k (a / p) (a % p) hn small in
    let top : a / p < n = (div-lt_iff_lt-mul p-pos).1 (omega (arith, pow-suc n k)) in
    let rest : value n (digits n k a) ≡ a % p =
      rw low (value-digits n k (a % p) hn small (mod-lt a p-pos)) in
    rw (wrap_small p (omega arith), mod-eq_of_lt top, length-digits n k a, rest)
      (omega (arith, parts))

dot-eq-value_of_length :
    (n d : ℕ) (v : List ℕ)
    → length v ≡ d
    → All (λ x. x < n) v
    → n ^ d ≤ 2 ^ 63
    → dot v (powers_of n d) ≡ value n v
dot-eq-value_of_length n d v len below b = rw (← len) (dot-eq-value n v below (rw len b))

-- The converter of `d` dimensions with `n` choices each.
uniform : ℕ → ℕ → Converter
uniform n d = record {
  num_actions_per_dim = replicate d n;
  powers = if ltb 1 d then powers_of n d else [];
}

all_same : (n k : ℕ) → all (λ m. m == n) (replicate k n) ≡ true
all_same n zero = refl
all_same n (suc k) = ground (arith, all_same n k)

-- Equal numbers of choices are accepted.
converter-uniform : (n d : ℕ) → 0 < d → converter (replicate d n) ≡ ok (uniform n d)
unfolding converter uniform
converter-uniform n zero h = absurd (omega arith)
converter-uniform n (suc d) h = rw (length-replicate d n) (ground (arith, all_same n d))

forward-uniform_many :
    (n d : ℕ) (v : List ℕ) → 1 < d → forward (uniform n d) v ≡ dot v (powers_of n d)
unfolding forward uniform
forward-uniform_many n d v h = rw (length-replicate d n) (ground arith)

inverse-uniform_many : (n d a : ℕ) → 1 < d → inverse (uniform n d) a ≡ digits n d a
unfolding inverse uniform
inverse-uniform_many n zero a h = absurd (omega arith)
inverse-uniform_many n (suc d) a h = rw (length-replicate d n) (ground arith)

inverse-forward-uniform :
    (n d : ℕ) (v : List ℕ)
    → 0 < d
    → n ^ d ≤ 2 ^ 63
    → length v ≡ d
    → All (λ x. x < n) v
    → inverse (uniform n d) (forward (uniform n d) v) ≡ v
unfolding inverse forward uniform
inverse-forward-uniform n zero v hd b len below = absurd (omega arith)
inverse-forward-uniform n (suc zero) (x ∷ []) hd b len below = refl
inverse-forward-uniform n (suc (suc d)) v hd b len below =
    rw
      (
        forward-uniform_many n (suc (suc d)) v (omega arith),
        inverse-uniform_many n (suc (suc d)) (dot v (powers_of n (suc (suc d)))) (omega arith),
        ← len,
      )
      (rw (dot-eq-value n v below (rw (← len) at b)) (digits-value n v below (rw (← len) at b)))
inverse-forward-uniform n d v hd b len below = absurd (ground arith)

forward-inverse-uniform :
    (n d a : ℕ)
    → 0 < d
    → 0 < n
    → n ^ d ≤ 2 ^ 63
    → a < n ^ d
    → (forward (uniform n d) (inverse (uniform n d) a) ≡ a)
      × (length (inverse (uniform n d) a) ≡ d)
      × All (λ x. x < n) (inverse (uniform n d) a)
unfolding inverse forward uniform
forward-inverse-uniform n zero a hd hn b h = absurd (omega arith)
forward-inverse-uniform n (suc zero) a hd hn b h =
    let first : n ^ 1 ≡ n = rw (pow-suc n 0, pow-zero n) (omega arith) in
    (refl, refl, (rw first at h, tt))
forward-inverse-uniform n (suc (suc d)) a hd hn b h =
    let k : ℕ = suc (suc d) in
    let size = length-digits n k a in
    let same = dot-eq-value_of_length n k (digits n k a) size (digits-below n k a hn) b in
    rw
      (
        inverse-uniform_many n k a (omega arith),
        forward-uniform_many n k (digits n k a) (omega arith),
      )
      (rw same (value-digits n k a hn b h), size, digits-below n k a hn)

module _ (n d : ℕ) {c : Converter} (built : converter (replicate d n) ≡ ok c) where
  built_uniform : 0 < d → c ≡ uniform n d
  built_uniform hd = cc (converter-uniform n d hd)

  -- For at least one dimension, as long as all actions fit into 63 bits, `inverse` gives the valid
  -- choices back that `forward` made a number of.
  pub inverse-forward :
      (v : List ℕ)
      → 0 < d
      → n ^ d ≤ 2 ^ 63
      → length v ≡ d
      → All (λ x. x < n) v
      → inverse c (forward c v) ≡ v
  inverse-forward v hd b len below =
      rw (built_uniform hd) (inverse-forward-uniform n d v hd b len below)

  -- For at least one dimension and one choice, as long as all actions fit into 63 bits, every number below the
  -- number of actions is the number of the choices that `inverse` gives, and those are valid.
  pub forward-inverse :
      (a : ℕ)
      → 0 < d
      → 0 < n
      → n ^ d ≤ 2 ^ 63
      → a < n ^ d
      → (forward c (inverse c a) ≡ a) × (length (inverse c a) ≡ d) × All (λ x. x < n) (inverse c a)
  forward-inverse a hd hn b h = rw (built_uniform hd) (forward-inverse-uniform n d a hd hn b h)
