-- ===== src/Base/Results.antt =====
-- Go's `error` values, and results that may be one.
use Prim.Native.String.{String}
use mathlib.Core.Path.{◌≡◌, refl}
use mathlib.Core.Logic.{◌⊎◌, inl, inr}

-- The named errors are the variables of brokerapi's `apiresponses`; `not_exist` is an error for
-- which `os.IsNotExist` holds, and `os_error` any other of the operating system.
pub data Error : Type 0 where
  message : String → Error
  syntax_error : String → Error
  not_exist : Error
  os_error : String → Error
  instance_already_exists : Error
  instance_does_not_exist : Error
  instance_limit_met : Error
  binding_does_not_exist : Error

pub data Result {ℓ} (A : Type ℓ) : Type ℓ where
  ok : A → Result A
  err : Error → Result A

pub Result-cases {ℓ} :
    {A : Type ℓ} (r : Result A) → ((e : Error) × (r ≡ err e)) ⊎ ((a : A) × (r ≡ ok a))
Result-cases (err e) = inl (e, refl)
Result-cases (ok a) = inr (a, refl)

pub pair_path :
    {A B : Type 0} {a a' : A} {b b' : B} → a ≡ a' → b ≡ b' → ◌≡◌ {A = A × B} (a, b) (a', b')
pair_path p q = λ i. (p i, q i)
