-- ===== src/Prelude/Results.antt =====
-- Code that throws: its outcome, and the exception types of the modelled code.
use mathlib.Core.Path.{◌≡◌, refl}
use mathlib.Core.Bool.{Bool, true, false}
use mathlib.Core.Logic.{◌⊎◌, inl, inr}

pub data Exception : Type 0 where
  invalid_opcode exception optimizer_exception assembly_exception bad_hex_character : Exception
  type_error internal_compiler_error : Exception

-- A value, or the exception that was thrown.
pub data Result {ℓ} (A : Type ℓ) : Type ℓ where
  err : Exception → Result A
  ok : A → Result A

-- What follows runs if nothing was thrown.
infixl 5 ◌>>=◌
abbrev pub ◌>>=◌ {ℓ κ} : {A : Type ℓ} {B : Type κ} → Result A → (A → Result B) → Result B
r >>= next = elim r [ err thrown ↦ err thrown | ok value ↦ next value ]

infixl 5 ◌>>◌
abbrev pub ◌>>◌ {ℓ} : {B : Type ℓ} → Result (Unit {0}) → Result B → Result B
r >> next = elim r [ err thrown ↦ err thrown | ok _ ↦ next ]

-- `assertThrow(_condition, _exceptionType, …)`
abbrev pub assert_throw : Bool → Exception → Result (Unit {0})
assert_throw false thrown = err thrown
assert_throw true thrown = ok tt

pub Result-cases {ℓ} :
    {A : Type ℓ} (r : Result A) → ((a : A) × (r ≡ ok a)) ⊎ ((e : Exception) × (r ≡ err e))
Result-cases (err e) = inr (e, refl)
Result-cases (ok a) = inl (a, refl)
