-- ===== src/Base/Keyed.antt =====
-- The in-memory stores: a list with at most one element per key, read by `find`, and written by
-- filtering the old element out and putting the new one behind. `lookup` is the store as a map.
use Prim.Native.String.{String}
use mathlib.Core.Path.{◌≡◌, refl, sym, ◌∙◌, fun_ext}
use mathlib.Core.Logic.{inl, inr}
use mathlib.Core.Bool.{Bool, true, false, not}
use mathlib.Core.Option.{Option, none, some}
use mathlib.Core.List.{List, [], ◌∷◌, ◌++◌}
use native.Mathlib.Omega.{arith}
use text.Mathlib.TextEquality.{eq_iff}
use text.Mathlib.TextPositions.{eq_refl}
use gambling.Base.Tests.{if◌then◌else◌, Bool-cases}
use gambling.Base.Text.{◌==◌}
use gambling.Base.Lists.{find, keep, All}

-- a map, changed at one key
abbrev pub update {ℓ} : {A : Type ℓ} → (String → Option A) → String → Option A → String → Option A
update m id v other = if id == other then v else m other

module _ {ℓ} {A : Type ℓ} (key : A → String) where
  abbrev pub lookup : List A → String → Option A
  lookup store id = find (λ x. key x == id) store

  abbrev pub without : List A → String → List A
  without store id = keep (λ x. not (key x == id)) store

  abbrev pub put : List A → A → List A
  put store x = without store (key x) ++ x ∷ []

  -- what is found has the key that was looked for
  pub key-lookup : (store : List A) (id : String) (x : A) → lookup store id ≡ some x → key x ≡ id
  key-lookup [] id x h = cc
  key-lookup (y ∷ store) id x h = elim (Bool-cases (key y == id)) [
    | inl e ↦ let same : y ≡ x = ground (arith, rw e at h) in rw (← same) ((eq_iff (key y) id).0 e)
    | inr e ↦ key-lookup store id x (rw e at h)
  ]

  lookup-put_self_at : (store : List A) (x : A) → lookup (put store x) (key x) ≡ some x
  lookup-put_self_at [] x = rw (eq_refl (key x)) refl
  lookup-put_self_at (y ∷ store) x = elim (Bool-cases (key y == key x)) [
    | inl e ↦ rw e (lookup-put_self_at store x)
    | inr e ↦ rw e (rw e (lookup-put_self_at store x))
  ]

  -- An element that was put is found under its key.
  pub lookup-put_self :
      (store : List A) (x : A) (id : String) → key x ≡ id → lookup (put store x) id ≡ some x
  lookup-put_self store x id h = rw (← h) (lookup-put_self_at store x)

  different : (s t u : String) → (s == t) ≡ true → (t == u) ≡ false → (s == u) ≡ false
  different s t u h k = rw ((eq_iff s t).0 h) k

  lookup-put_other :
      (store : List A) (x : A) (id : String)
      → (key x == id) ≡ false
      → lookup (put store x) id ≡ lookup store id
  lookup-put_other [] x id h = rw h refl
  lookup-put_other (y ∷ store) x id h = elim (Bool-cases (key y == key x)) [
    | inl e ↦ rw (e, different (key y) (key x) id e h) (lookup-put_other store x id h)
    | inr e ↦ elim (Bool-cases (key y == id)) [
      | inl f ↦ rw (e, f) refl
      | inr f ↦ rw (e, f) (lookup-put_other store x id h)
    ]
  ]

  -- Putting an element is the change of the map at its key.
  pub lookup-put :
      (store : List A) (x : A) → lookup (put store x) ≡ update (lookup store) (key x) (some x)
  lookup-put store x = fun_ext λ id. elim (Bool-cases (key x == id)) [
    | inl e ↦ rw e (lookup-put_self store x id ((eq_iff (key x) id).0 e))
    | inr e ↦ rw e (lookup-put_other store x id e)
  ]

  -- A removed key is gone.
  pub lookup-without_self : (store : List A) (id : String) → lookup (without store id) id ≡ none
  lookup-without_self [] id = refl
  lookup-without_self (y ∷ store) id = elim (Bool-cases (key y == id)) [
    | inl e ↦ rw e (lookup-without_self store id)
    | inr e ↦ rw e (rw e (lookup-without_self store id))
  ]

  lookup-without_other :
      (store : List A) (id other : String)
      → (id == other) ≡ false
      → lookup (without store id) other ≡ lookup store other
  lookup-without_other [] id other h = refl
  lookup-without_other (y ∷ store) id other h = elim (Bool-cases (key y == id)) [
    | inl e ↦ rw (e, different (key y) id other e h) (lookup-without_other store id other h)
    | inr e ↦ elim (Bool-cases (key y == other)) [
      | inl f ↦ rw (e, f) refl
      | inr f ↦ rw (e, f) (lookup-without_other store id other h)
    ]
  ]

  -- Removing a key is the change of the map to nothing there.
  pub lookup-without :
      (store : List A) (id : String) → lookup (without store id) ≡ update (lookup store) id none
  lookup-without store id = fun_ext λ other. elim (Bool-cases (id == other)) [
    | inl e ↦ rw e (rw (← (eq_iff id other).0 e) (lookup-without_self store id))
    | inr e ↦ rw e (lookup-without_other store id other e)
  ]

differ : false ≡ true → ⊥
differ h = cc

pub ==-sym : (s t : String) → (s == t) ≡ false → (t == s) ≡ false
==-sym s t h = elim (Bool-cases (t == s)) [
  | inl e ↦ absurd (differ (sym h ∙ (rw ((eq_iff t s).0 e) (eq_refl s))))
  | inr e ↦ e
]

some-none {ℓ} : {A : Type ℓ} {x : A} → some x ≡ none → ⊥
some-none h = cc

module _ {ℓ} {A : Type ℓ} where
  -- what holds of all elements holds of the one that is found
  pub All-find {κ} :
      (P : A → Type κ) (p : A → Bool) (xs : List A) (x : A) → All P xs → find p xs ≡ some x → P x
  All-find P p [] x all h = absurd cc
  All-find P p (y ∷ xs) x all h = elim (Bool-cases (p y)) [
    | inl e ↦ let same : y ≡ x = ground (arith, rw e at h) in rw (← same) all.0
    | inr e ↦ All-find P p xs x all.1 (rw e at h)
  ]

  -- no element has the property where none is found
  pub find-eq_none : (p : A → Bool) (xs : List A) → find p xs ≡ none → All (λ x. p x ≡ false) xs
  find-eq_none p [] h = tt
  find-eq_none p (y ∷ xs) h = elim (Bool-cases (p y)) [
    | inl e ↦ absurd (some-none (rw e at h))
    | inr e ↦ (e, find-eq_none p xs (rw e at h))
  ]

  -- Filtering, and an element without the property, do not bring one in.
  pub find-keep_append :
      (p q : A → Bool) (xs : List A) (x : A)
      → find p xs ≡ none
      → p x ≡ false
      → find p (keep q xs ++ x ∷ []) ≡ none
  find-keep_append p q [] x h k = rw k refl
  find-keep_append p q (y ∷ xs) x h k = elim (Bool-cases (p y)) [
    | inl e ↦ absurd (some-none (rw e at h))
    | inr e ↦ elim (Bool-cases (q y)) [
      | inl f ↦ rw f (rw e (find-keep_append p q xs x (rw e at h) k))
      | inr f ↦ rw f (find-keep_append p q xs x (rw e at h) k)
    ]
  ]

  -- Filtering brings no element in, so the new one is found.
  pub find-keep_append_new :
      (p q : A → Bool) (xs : List A) (x : A)
      → find p xs ≡ none
      → p x ≡ true
      → find p (keep q xs ++ x ∷ []) ≡ some x
  find-keep_append_new p q [] x h k = rw k refl
  find-keep_append_new p q (y ∷ xs) x h k = elim (Bool-cases (p y)) [
    | inl e ↦ absurd (some-none (rw e at h))
    | inr e ↦ elim (Bool-cases (q y)) [
      | inl f ↦ rw (f, e) (find-keep_append_new p q xs x (rw e at h) k)
      | inr f ↦ rw f (find-keep_append_new p q xs x (rw e at h) k)
    ]
  ]
