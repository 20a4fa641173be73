-- ===== src/Result.antt =====
-- The exceptions that the modelled code raises, and the result of code that may raise one.
use mathlib.Core.Bool.{Bool, true, false}
use mathlib.Core.Path.{◌≡◌, refl}
use trustmem.Prelude.{◌⊎◌, inl, inr}

pub data Error : Type 0 where
  permission_error key_error value_error runtime_error type_error index_error zero_division
        not_implemented attribute_error :
      Error

-- A value, or the exception that was raised in its place.
pub data Result {ℓ} (V : Type ℓ) : Type ℓ where
  raise : Error → Result V
  ok : V → Result V

infixl 5 ◌>>◌ ◌>>=◌
-- The steps after an exception are not run.
abbrev pub ◌>>=◌ {ℓ κ} : {V : Type ℓ} {W : Type κ} → Result V → (V → Result W) → Result W
raise e >>= next = raise e
ok v >>= next = next v

abbrev pub ◌>>◌ {ℓ} : {W : Type ℓ} → Result (Unit {0}) → Result W → Result W
m >> k = m >>= λ _. k

-- `if b: raise e`
abbrev pub raise_if : Bool → Error → Result (Unit {0})
raise_if true e = raise e
raise_if false e = ok tt

pub Result-cases {ℓ} :
    {V : Type ℓ} (x : Result V) → ((e : Error) × (x ≡ raise e)) ⊎ ((v : V) × (x ≡ ok v))
Result-cases (raise e) = inl (e, refl)
Result-cases (ok v) = inr (v, refl)
