-- ===== src/Prelude/Throwing.antt =====
-- A computation that may throw: the value, or the class of the C++ exception.
use mathlib.Core.Path.{◌≡◌, refl}
use mathlib.Core.Logic.{◌⊎◌, inl, inr}
use mathlib.Core.Bool.{Bool, true, false}

pub data Exception : Type 0 where
  invalid_argument out_of_range overflow_error runtime_error logic_error bad_alloc : Exception

pub data Result {ℓ} (A : Type ℓ) : Type ℓ where
  ok : A → Result A
  throws : Exception → Result A

infixl 5 ◌>>=◌ ◌>>◌
abbrev pub ◌>>=◌ {ℓ κ} : {A : Type ℓ} {B : Type κ} → Result A → (A → Result B) → Result B
ok a >>= f = f a
throws e >>= f = throws e

abbrev pub ◌>>◌ {ℓ} : {B : Type ℓ} → Result (Unit {0}) → Result B → Result B
m >> k = m >>= λ _. k

-- `if (bad) throw e;`
abbrev pub throw_if : Bool → Exception → Result (Unit {0})
throw_if true e = throws e
throw_if false e = ok tt

pub Result-cases {ℓ} :
    {A : Type ℓ} (r : Result A) → ((a : A) × (r ≡ ok a)) ⊎ ((e : Exception) × (r ≡ throws e))
Result-cases (ok a) = inl (a, refl)
Result-cases (throws e) = inr (e, refl)

-- A result that returns a pair returns only one.
pub ok_pair {ℓ κ} :
    {A : Type ℓ} {B : Type κ} (r : Result (A × B)) {a a' : A} {b b' : B}
    → r ≡ ok (a, b)
    → r ≡ ok (a', b')
    → (a ≡ a') × (b ≡ b')
ok_pair r h k = (cc, cc)

-- What ran before a result that is there has returned.
module _ {ℓ κ} {A : Type ℓ} {B : Type κ} {result : B} where
  pub bind-ok :
      (first : Result A) (next : A → Result B)
      → (first >>= next) ≡ ok result
      → (value : A) × (first ≡ ok value) × (next value ≡ ok result)
  bind-ok (ok value) next returned = (value, refl, returned)
  bind-ok (throws thrown) next returned = cc

-- A check in front of a result that is there has passed.
pub guard-ok {ℓ} :
    {B : Type ℓ} (bad : Bool) (e : Exception) (m : Result B) {b : B}
    → (throw_if bad e >> m) ≡ ok b
    → (bad ≡ false) × (m ≡ ok b)
guard-ok true e m h = cc
guard-ok false e m h = (refl, h)

pub ok-injective {ℓ} : {A : Type ℓ} {a b : A} → ok a ≡ ok b → a ≡ b
ok-injective h = cc
