-- ===== src/Prelude/Results.antt =====
-- How a C++ call ends: with a value, by an exception, or with behaviour that the language leaves
-- undefined (an access outside of a container, an invalidated iterator, a null pointer).
use mathlib.Core.Path.{◌≡◌, refl}
use mathlib.Core.Bool.{Bool, true, false}

pub data Exception : Type 0 where
  out_of_range bad_optional_access runtime_error system_error json_exception : Exception

pub data Outcome {ℓ} (A : Type ℓ) : Type ℓ where
  ok : A → Outcome A
  throws : Exception → Outcome A
  undefined : Outcome A

infixl 5 ◌>>=◌ ◌>>◌
abbrev pub ◌>>=◌ {ℓ κ} : {A : Type ℓ} {B : Type κ} → Outcome A → (A → Outcome B) → Outcome B
undefined >>= rest = undefined
throws e >>= rest = throws e
ok value >>= rest = rest value

abbrev pub ◌>>◌ {ℓ} : {B : Type ℓ} → Outcome (Unit {0}) → Outcome B → Outcome B
call >> rest = call >>= λ _. rest

-- The code tests for the case and throws.
abbrev pub throw_if : Bool → Exception → Outcome (Unit {0})
throw_if true e = throws e
throw_if false e = ok tt

-- The code has no test for the case, and the language gives it no meaning.
abbrev pub undefined_if : Bool → Outcome (Unit {0})
undefined_if true = undefined
undefined_if false = ok tt

-- A chain that returns has a first call that returns.
pub >>=-eq-ok {ℓ κ} :
    {A : Type ℓ} {B : Type κ} (call : Outcome A) (rest : A → Outcome B) {result : B}
    → (call >>= rest) ≡ ok result
    → (value : A) × (call ≡ ok value) × (rest value ≡ ok result)
>>=-eq-ok undefined rest returned = cc
>>=-eq-ok (throws e) rest returned = cc
>>=-eq-ok (ok value) rest returned = (value, refl, returned)
