-- ===== src/Base/Action/Keeps.antt =====
-- Calls that leave a part of the stores as it was, however they end or where they throw.
use Prim.Native.String.{String}
use mathlib.Core.Path.{◌≡◌, refl, sym, ap, ◌∙◌}
use mathlib.Core.Logic.{inl, inr}
use mathlib.Core.Bool.{Bool, true, false}
use mathlib.Core.Option.{Option, none, some}
use gambling.Base.Errors.{Error, ErrorClass, Result, ok, err}
use gambling.Base.Action.{
  Outcome, returned, threw, Action, give, lift, reads, present_or, raise_if, writes, stores_after,
  Outcome-cases, ◌>>=◌,
}

threw_inv {ℓ κ} :
    {W : Type ℓ} {A : Type κ} {e e' : Error} {w w' : W}
    → ◌≡◌ {A = Outcome W A} (threw e w) (threw e' w')
    → w ≡ w'
threw_inv h = ap (λ o. stores_after o) h

module _ {ℓ κ μ} {W : Type ℓ} {A : Type κ} {C : Type μ} (part : W → C) where
  -- However the call ends, a part of the stores is as it was.
  pub record Keeps (call : Action W A) : Type (ℓ ⊔ μ) where
    pub at_end : (w : W) → part (stores_after (call w)) ≡ part w

  -- A call that throws has left a part of the stores as it was.
  pub record KeepsOnThrow (call : Action W A) : Type (ℓ ⊔ κ ⊔ μ) where
    pub at_throw : (w v : W) (e : Error) → call w ≡ threw e v → part v ≡ part w

module _ {ℓ κ μ} {W : Type ℓ} {A : Type κ} {C : Type μ} {part : W → C} where
  pub lift-Keeps : (r : Result A) → Keeps part (lift r)
  unfolding lift
  lift-Keeps (ok a) = record { at_end = λ w. refl }
  lift-Keeps (err e) = record { at_end = λ w. refl }

  pub present_or-Keeps :
      (o : Option A) (c : ErrorClass) (m : String) → Keeps part (present_or o c m)
  unfolding present_or
  present_or-Keeps none c m = record { at_end = λ w. refl }
  present_or-Keeps (some a) c m = record { at_end = λ w. refl }

  pub give-Keeps : (a : A) → Keeps part (give a)
  unfolding give
  give-Keeps a = record { at_end = λ w. refl }

  pub reads-Keeps : (f : W → A) → Keeps part (reads f)
  unfolding reads
  reads-Keeps f = record { at_end = λ w. refl }

  pub give-KeepsOnThrow : (a : A) → KeepsOnThrow part (give a)
  unfolding give
  give-KeepsOnThrow a = record { at_throw = λ w v e h. cc }

  pub Keeps-KeepsOnThrow : {call : Action W A} → Keeps part call → KeepsOnThrow part call
  Keeps-KeepsOnThrow keeps = record {
    at_throw = λ w v e h. sym (ap (λ o. part (stores_after o)) h) ∙ keeps.at_end w;
  }

module _ {ℓ μ} {W : Type ℓ} {C : Type μ} {part : W → C} where
  pub raise_if-Keeps : (b : Bool) (c : ErrorClass) (m : String) → Keeps part (raise_if b c m)
  unfolding raise_if
  raise_if-Keeps true c m = record { at_end = λ w. refl }
  raise_if-Keeps false c m = record { at_end = λ w. refl }

  -- a write to other stores
  pub writes-Keeps : (f : W → W) → ((w : W) → part (f w) ≡ part w) → Keeps part (writes f)
  unfolding writes
  writes-Keeps f apart = record { at_end = apart }

module _ {ℓ κ μ} {W : Type ℓ} {A : Type κ} {C : Type μ} (part : W → C) where
  kept_by_first :
      (o : Outcome W A) (w : W) {v : W}
      → part (stores_after o) ≡ part w
      → stores_after o ≡ v
      → part v ≡ part w
  kept_by_first o w h e = sym (ap part e) ∙ h

module _ {ℓ κ μ ν} {W : Type ℓ} {A : Type κ} {B : Type μ} {C : Type ν} {part : W → C}
    {call : Action W A} {rest : A → Action W B} where
  -- A block keeps a part where its calls do.
  pub >>=-Keeps : Keeps part call → ((a : A) → Keeps part (rest a)) → Keeps part (call >>= rest)
  unfolding ◌>>=◌
  >>=-Keeps first others = record {
    at_end = λ w. elim (Outcome-cases (call w)) [
      | inl (a, v, h) ↦ rw h (
          (others a).at_end v
          ∙ kept_by_first part (call w) w (first.at_end w) (ap (λ o. stores_after o) h))
      | inr (e, v, h) ↦
          rw h (kept_by_first part (call w) w (first.at_end w) (ap (λ o. stores_after o) h))
    ];
  }

  -- A block keeps a part on a throw where what stands before its last call keeps it.
  pub >>=-KeepsOnThrow :
      Keeps part call → ((a : A) → KeepsOnThrow part (rest a)) → KeepsOnThrow part (call >>= rest)
  unfolding ◌>>=◌
  >>=-KeepsOnThrow first others = record {
    at_throw = λ w v e h. elim (Outcome-cases (call w)) [
      | inl (a, u, k) ↦
          (others a).at_throw u v e (rw k at h)
          ∙ kept_by_first part (call w) w (first.at_end w) (ap (λ o. stores_after o) k)
      | inr (e', u, k) ↦
          kept_by_first part (call w) w (first.at_end w)
            (ap (λ o. stores_after o) k ∙ threw_inv (rw k at h))
    ];
  }

no_throw {ℓ κ} :
    {W : Type ℓ} {A : Type κ} (f : W → W) (a : A) (w : W) (e : Error) (v : W)
    → ◌>>=◌ (writes f) (λ _. give a) w ≡ threw e v
    → ⊥
unfolding ◌>>=◌ writes give
no_throw f a w e v h = cc

-- A last write does not throw.
pub last-KeepsOnThrow {ℓ κ μ} :
    {W : Type ℓ} {A : Type κ} {C : Type μ} {part : W → C} (f : W → W) (a : A)
    → KeepsOnThrow part (writes f >>= λ _. give a)
last-KeepsOnThrow f a = record { at_throw = λ w v e h. absurd (no_throw f a w e v h) }

-- where a call that keeps a part returned
pub Keeps-returned {ℓ κ μ} :
    {W : Type ℓ} {A : Type κ} {C : Type μ} {part : W → C} {call : Action W A} {w v : W} {a : A}
    → Keeps part call
    → call w ≡ returned a v
    → part v ≡ part w
Keeps-returned {part} {w} keeps h = sym (ap (λ o. part (stores_after o)) h) ∙ keeps.at_end w
