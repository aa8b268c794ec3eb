-- ===== src/Base/Errors.antt =====
-- What a call that may throw returns: a value, or the class and the message of the error.
use Prim.Native.String.{String}
use mathlib.Core.Path.{◌≡◌, refl}
use mathlib.Core.Logic.{◌⊎◌, inl, inr}
use mathlib.Core.Bool.{Bool, true, false}

-- The classes of the errors that the modelled code throws; `plain` is `Error` itself, and
-- `range_error` is what `toISOString` throws at an invalid date.
pub data ErrorClass : Type 0 where
  plain range_error : ErrorClass
  canonical_draw_validation ledger_validation wallet_ledger_validation : ErrorClass
  ticket_validation purchase_request_validation canonical_purchase_validation : ErrorClass
  retry_policy_validation terminal_attempt_validation notification_validation : ErrorClass
  winning_fulfillment purchase_orchestration terminal_execution_attempt : String → ErrorClass

pub data Error : Type 0 where
  thrown : ErrorClass → String → Error

pub data Result {ℓ} (A : Type ℓ) : Type ℓ where
  ok : A → Result A
  err : Error → Result A

-- `throw new C(message)`
abbrev pub throw {ℓ} : {A : Type ℓ} → ErrorClass → String → Result A
throw c m = err (thrown c m)

-- `if (b) throw new C(message)`
abbrev pub throw_if : Bool → ErrorClass → String → Result (Unit {0})
throw_if false c m = ok tt
throw_if true c m = err (thrown c m)

-- What stands behind a call in the same block runs only where the call returns; it is marked
-- `abbrev` so that a block computes as far as the results of its calls are known.
infixl 5 ◌>>=◌ ◌>>◌
abbrev pub ◌>>=◌ {ℓ₁ ℓ₂} : {X : Type ℓ₁} {Y : Type ℓ₂} → Result X → (X → Result Y) → Result Y
err e >>= rest = err e
ok x >>= rest = rest x

abbrev pub ◌>>◌ {ℓ} : {Y : Type ℓ} → Result (Unit {0}) → Result Y → Result Y
check >> rest = check >>= λ done. rest

-- A block that returned went through its first call, which returned too.
pub >>=-eq-ok {ℓ₁ ℓ₂} :
    {X : Type ℓ₁} {Y : Type ℓ₂} (call : Result X) (rest : X → Result Y) {y : Y}
    → (call >>= rest) ≡ ok y
    → (x : X) × (call ≡ ok x) × (rest x ≡ ok y)
>>=-eq-ok (err e) rest returned = cc
>>=-eq-ok (ok x) rest returned = (x, refl, returned)

pub Result-cases {ℓ} :
    {A : Type ℓ} (r : Result A) → ((a : A) × (r ≡ ok a)) ⊎ ((e : Error) × (r ≡ err e))
Result-cases (ok a) = inl (a, refl)
Result-cases (err e) = inr (e, refl)
