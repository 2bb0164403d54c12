-- ===== src/Prelude/Result.antt =====
-- What a call returns or raises, where the one exception that leaves the code is a `TypeError`: of
-- hashing a list or a dict, of a missing predicate, and of formatting `None` as a number.
use mathlib.Core.Path.{◌≡◌, refl}
use mathlib.Core.Logic.{◌⊎◌, inl, inr}

pub data Result {ℓ} (A : Type ℓ) : Type ℓ where
  ok : A → Result A
  type_error : Result A

infixl 5 ◌>>=◌
abbrev pub ◌>>=◌ {ℓ κ} : {A : Type ℓ} {B : Type κ} → Result A → (A → Result B) → Result B
Result.ok a >>= f = f a
Result.type_error >>= f = Result.type_error

pub >>=-eq-ok {ℓ κ} :
    {A : Type ℓ} {B : Type κ} (m : Result A) (f : A → Result B) {b : B}
    → (m >>= f) ≡ Result.ok b
    → (a : A) × (m ≡ Result.ok a) × (f a ≡ Result.ok b)
>>=-eq-ok (Result.ok a) f h = (a, refl, h)
>>=-eq-ok Result.type_error f h = cc

pub Result-cases {ℓ} :
    {A : Type ℓ} (r : Result A) → (r ≡ Result.type_error) ⊎ ((a : A) × (r ≡ Result.ok a))
Result-cases (Result.ok a) = inr (a, refl)
Result-cases Result.type_error = inl refl
