-- ===== src/Base/Action.antt =====
-- A service call: it reads and writes the stores and may throw. What was written before the error
-- stays written, so both results carry the contents of the stores.
pub mod Keeps
pub mod Returns
use mathlib.Core.Path.{◌≡◌, refl, sym, ap, ◌∙◌}
use mathlib.Core.Bool.{Bool, true, false}
use mathlib.Core.Option.{Option, none, some}
use mathlib.Core.Logic.{◌⊎◌, inl, inr}
use Prim.Native.String.{String}
use gambling.Base.Errors.{Error, thrown, ErrorClass, Result, ok, err}

pub data Outcome {ℓ κ} (W : Type ℓ) (A : Type κ) : Type (ℓ ⊔ κ) where
  returned : A → W → Outcome W A
  threw : Error → W → Outcome W A

abbrev pub Action {ℓ κ} : Type ℓ → Type κ → Type (ℓ ⊔ κ)
Action W A = W → Outcome W A

-- What follows a call in its block: it runs only where the call returned.
abbrev pub follow {ℓ κ μ} :
    {W : Type ℓ} {A : Type κ} {B : Type μ} → Outcome W A → (A → Action W B) → Outcome W B
follow (threw e w) rest = threw e w
follow (returned a w) rest = rest a w

infixl 5 ◌>>=◌ ◌>>◌
unfoldable pub ◌>>=◌ {ℓ κ μ} :
    {W : Type ℓ} {A : Type κ} {B : Type μ} → Action W A → (A → Action W B) → Action W B
◌>>=◌ call rest w = follow (call w) rest

abbrev pub ◌>>◌ {ℓ κ} : {W : Type ℓ} {B : Type κ} → Action W (Unit {0}) → Action W B → Action W B
call >> rest = call >>= λ _. rest

module _ {ℓ κ} {W : Type ℓ} {A : Type κ} where
  unfoldable pub give : A → Action W A
  give a w = returned a w

  -- `throw new C(message)`
  unfoldable pub raise : ErrorClass → String → Action W A
  raise c m w = threw (thrown c m) w

  -- a call that touches no store
  unfoldable pub lift : Result A → Action W A
  lift (ok a) w = returned a w
  lift (err e) w = threw e w

  unfoldable pub reads : (W → A) → Action W A
  reads f w = returned (f w) w

  -- `x`, or an error where it is missing
  unfoldable pub present_or : Option A → ErrorClass → String → Action W A
  present_or (some a) c m w = returned a w
  present_or none c m w = threw (thrown c m) w

  -- `try { call } catch (error) { handler }`
  abbrev pub caught : Outcome W A → (Error → Action W A) → Outcome W A
  caught (returned a w) handler = returned a w
  caught (threw e w) handler = handler e w

  unfoldable pub attempt : Action W A → (Error → Action W A) → Action W A
  attempt call handler w = caught (call w) handler

  -- the contents of the stores after a call, however it ended
  abbrev pub stores_after : Outcome W A → W
  stores_after (returned a w) = w
  stores_after (threw e w) = w

module _ {ℓ} {W : Type ℓ} where
  unfoldable pub writes : (W → W) → Action W (Unit {0})
  writes f w = returned tt (f w)

  -- `if (b) throw new C(message)`
  unfoldable pub raise_if : Bool → ErrorClass → String → Action W (Unit {0})
  raise_if true c m w = threw (thrown c m) w
  raise_if false c m w = returned tt w

-- To split on how a call ends and keep the equation.
pub Outcome-cases {ℓ κ} :
    {W : Type ℓ} {A : Type κ} (o : Outcome W A)
    → ((a : A) × (w : W) × (o ≡ returned a w)) ⊎ ((e : Error) × (w : W) × (o ≡ threw e w))
Outcome-cases (returned a w) = inl (a, w, refl)
Outcome-cases (threw e w) = inr (e, w, refl)

pub returned_value {ℓ κ} :
    {W : Type ℓ} {A : Type κ} {a b : A} {w v : W}
    → ◌≡◌ {A = Outcome W A} (returned a w) (returned b v)
    → a ≡ b
returned_value h = cc

pub world_of {ℓ κ} :
    {W : Type ℓ} {A : Type κ} {a b : A} {w v : W}
    → ◌≡◌ {A = Outcome W A} (returned a w) (returned b v)
    → w ≡ v
world_of h = cc

pub threw_returned {ℓ κ} :
    {W : Type ℓ} {A : Type κ} {a : A} {e : Error} {w v : W}
    → ◌≡◌ {A = Outcome W A} (threw e w) (returned a v)
    → ⊥
threw_returned h = cc
