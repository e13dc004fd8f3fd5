-- ===== src/Common/Results.antt =====
-- The result of code that may raise: a value, or the class of the Python exception.
use mathlib.Core.Bool.{Bool, true, false}
use mathlib.Core.Path.{◌≡◌, refl}
use mathlib.Core.Logic.{◌⊎◌, inl, inr}
use mathlib.Core.Option.{Option, none, some}

pub data Error : Type 0 where
  assertion_error key_error index_error value_error runtime_error name_error type_error
        incomplete_read_error overflow_error out_of_memory_error zero_division_error
        not_implemented_error :
      Error

pub data Result {ℓ} (A : Type ℓ) : Type ℓ where
  ok : A → Result A
  raise : Error → Result A

infixl 5 ◌>>=◌ ◌>>◌
abbrev pub ◌>>=◌ {ℓ κ} : {A : Type ℓ} {B : Type κ} → Result A → (A → Result B) → Result B
ok a >>= f = f a
raise e >>= f = raise e

abbrev pub ◌>>◌ {ℓ} : {B : Type ℓ} → Result (Unit {0}) → Result B → Result B
m >> k = m >>= λ _. k

-- `assert c`, and any `if not c: raise e`.
abbrev pub ensure : Bool → Error → Result (Unit {0})
ensure true e = ok tt
ensure false e = raise e

abbrev pub or_raise {ℓ} : {A : Type ℓ} → Option A → Error → Result A
or_raise none e = raise e
or_raise (some a) e = ok a

-- The code returns; it does not raise.
abbrev pub IsOk {ℓ} : {A : Type ℓ} → Result A → Type 0
IsOk (ok a) = Unit
IsOk (raise e) = ⊥

pub value_of_IsOk {ℓ} : {A : Type ℓ} (r : Result A) → IsOk r → (a : A) × (r ≡ ok a)
value_of_IsOk (ok a) h = (a, refl)
value_of_IsOk (raise e) h = absurd h

-- If a chain returns, then its first part does, and the rest from there.
pub >>=_ok {ℓ κ} :
    {A : Type ℓ} {B : Type κ} (first : Result A) (rest : A → Result B) {last : B}
    → first >>= rest ≡ ok last
    → (mid : A) × (first ≡ ok mid) × (rest mid ≡ ok last)
>>=_ok (raise e) rest h = cc
>>=_ok (ok mid) rest h = (mid, refl, h)

-- The code returns, with a value that has the property.
abbrev pub Gives {ℓ} : {A : Type ℓ} → (A → Type 0) → Result A → Type 0
Gives P (ok a) = P a
Gives P (raise e) = ⊥

pub Gives-bind :
    {A B : Type 0} (P : A → Type 0) (Q : B → Type 0) (r : Result A) (k : A → Result B)
    → Gives P r
    → ((a : A) → P a → Gives Q (k a))
    → Gives Q (r >>= k)
Gives-bind P Q (ok a) k h rest = rest a h
Gives-bind P Q (raise e) k h rest = elim h [ ]

pub Gives-ok : {A : Type 0} (P : A → Type 0) (r : Result A) → Gives P r → (a : A) × (r ≡ ok a) × P a
Gives-ok P (ok a) h = (a, refl, h)
Gives-ok P (raise e) h = elim h [ ]

-- The code returns a value with the property `P`, or raises an exception with the property `E`.
abbrev pub GivesOr {ℓ} : {A : Type ℓ} → (Error → Type 0) → (A → Type 0) → Result A → Type 0
GivesOr E P (ok a) = P a
GivesOr E P (raise e) = E e

pub Gives-GivesOr :
    {A : Type 0} (E : Error → Type 0) (P : A → Type 0) (r : Result A) → Gives P r → GivesOr E P r
Gives-GivesOr E P (ok a) h = h
Gives-GivesOr E P (raise e) h = elim h [ ]

pub GivesOr-bind :
    {A B : Type 0} (E : Error → Type 0) (P : A → Type 0) (Q : B → Type 0) (r : Result A)
    (k : A → Result B)
    → GivesOr E P r
    → ((a : A) → P a → GivesOr E Q (k a))
    → GivesOr E Q (r >>= k)
GivesOr-bind E P Q (ok a) k h rest = rest a h
GivesOr-bind E P Q (raise e) k h rest = h

pub GivesOr-cases :
    {A : Type 0} (E : Error → Type 0) (P : A → Type 0) (r : Result A)
    → GivesOr E P r
    → ((a : A) × (r ≡ ok a) × P a) ⊎ ((e : Error) × (r ≡ raise e) × E e)
GivesOr-cases E P (ok a) h = inl (a, refl, h)
GivesOr-cases E P (raise e) h = inr (e, refl, h)

pub ensure-Gives : (b : Bool) (e : Error) → b ≡ true → Gives (λ u. Unit {0}) (ensure b e)
ensure-Gives true e h = tt
ensure-Gives false e h = absurd (cc)

pub Result-cases {ℓ} :
    {A : Type ℓ} (r : Result A) → ((a : A) × (r ≡ ok a)) ⊎ ((e : Error) × (r ≡ raise e))
Result-cases (ok a) = inl (a, refl)
Result-cases (raise e) = inr (e, refl)
