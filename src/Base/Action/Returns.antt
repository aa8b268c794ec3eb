-- ===== src/Base/Action/Returns.antt =====
-- To take apart a block that returned: its first call returned too, and what is known of it holds.
use Prim.Native.String.{String}
use mathlib.Core.Path.{◌≡◌, refl, sym, ap}
use mathlib.Core.Bool.{Bool, true, false}
use mathlib.Core.Option.{Option, none, some}
use gambling.Base.Errors.{ErrorClass, Result, ok, err}
use gambling.Base.Action.{
  Outcome, returned, threw, Action, follow, lift, reads, present_or, raise_if, writes, ◌>>=◌, give,
  returned_value, world_of, threw_returned,
}

module _ {ℓ κ μ ν} {W : Type ℓ} {A : Type κ} {B : Type μ} {Q : Type ν} where
  split_follow :
      (call : Outcome W A) (rest : A → Action W B) {b : B} {v : W}
      → follow call rest ≡ returned b v
      → ((a : A) (u : W) → call ≡ returned a u → rest a u ≡ returned b v → Q)
      → Q
  split_follow (threw e u) rest h k = absurd cc
  split_follow (returned a u) rest h k = k a u refl h

  pub split_call :
      (call : Action W A) (rest : A → Action W B) {w : W} {b : B} {v : W}
      → ◌>>=◌ call rest w ≡ returned b v
      → ((a : A) (u : W) → call w ≡ returned a u → rest a u ≡ returned b v → Q)
      → Q
  split_call call rest {w} h k = unfold ◌>>=◌ in split_follow (call w) rest h k

  pub split_lift :
      (r : Result A) (rest : A → Action W B) {w : W} {b : B} {v : W}
      → ◌>>=◌ (lift r) rest w ≡ returned b v
      → ((a : A) → r ≡ ok a → rest a w ≡ returned b v → Q)
      → Q
  split_lift (ok a) rest h k = unfold ◌>>=◌ lift in k a refl h
  split_lift (err e) rest h k = unfold ◌>>=◌ lift in absurd cc

  pub split_present :
      (o : Option A) (c : ErrorClass) (m : String) (rest : A → Action W B) {w : W} {b : B} {v : W}
      → ◌>>=◌ (present_or o c m) rest w ≡ returned b v
      → ((a : A) → o ≡ some a → rest a w ≡ returned b v → Q)
      → Q
  split_present (some a) c m rest h k = unfold ◌>>=◌ present_or in k a refl h
  split_present none c m rest h k = unfold ◌>>=◌ present_or in absurd cc

  pub split_read :
      (f : W → A) (rest : A → Action W B) {w : W} {b : B} {v : W}
      → ◌>>=◌ (reads f) rest w ≡ returned b v
      → (rest (f w) w ≡ returned b v → Q)
      → Q
  split_read f rest h k = unfold ◌>>=◌ reads in k h

module _ {ℓ μ ν} {W : Type ℓ} {B : Type μ} {Q : Type ν} where
  pub split_guard :
      (c : Bool) (e : ErrorClass) (m : String) (rest : Unit {0} → Action W B) {w : W} {b : B}
      {v : W}
      → ◌>>=◌ (raise_if c e m) rest w ≡ returned b v
      → (c ≡ false → rest tt w ≡ returned b v → Q)
      → Q
  split_guard false e m rest h k = unfold ◌>>=◌ raise_if in k refl h
  split_guard true e m rest h k = unfold ◌>>=◌ raise_if in absurd cc

  pub split_write :
      (f : W → W) (rest : Unit {0} → Action W B) {w : W} {b : B} {v : W}
      → ◌>>=◌ (writes f) rest w ≡ returned b v
      → (rest tt (f w) ≡ returned b v → Q)
      → Q
  split_write f rest h k = unfold ◌>>=◌ writes in k h

pub split_give {ℓ κ} :
    {W : Type ℓ} {A : Type κ} (a : A) {b : A} {w v : W}
    → give a w ≡ returned b v
    → (b ≡ a) × (v ≡ w)
split_give a h = unfold give in (sym (returned_value h), sym (world_of h))

pub last_present {ℓ κ} :
    {W : Type ℓ} {A : Type κ} (o : Option A) (c : ErrorClass) (m : String) {a : A} {w v : W}
    → present_or o c m w ≡ returned a v
    → (o ≡ some a) × (v ≡ w)
last_present (some b) c m h = unfold present_or in (ap some (returned_value h), sym (world_of h))
last_present none c m h = unfold present_or in absurd (threw_returned h)
