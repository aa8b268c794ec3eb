-- ===== src/Base/Sort/Split.antt =====
-- Sorting an array of two classes, where the comparator puts the one before the other.
use Prim.Native.Nat.{Ordering}
use mathlib.Core.Path.{◌≡◌, refl, ◌∙◌, ap}
use mathlib.Core.Logic.{inl, inr}
use mathlib.Core.Bool.{Bool, true, false, not}
use mathlib.Core.List.{List, [], ◌∷◌, ◌++◌}
use gambling.Base.Tests.{Bool-cases}
use gambling.Base.Lists.{All, keep}
use gambling.Base.Sort.{is_after, insert, sort, All-sort}

module _ {ℓ} {A : Type ℓ} (compare : A → A → Ordering) (q : A → Bool)
    (front : (x y : A) → q x ≡ true → q y ≡ false → is_after (compare x y) ≡ false)
    (back : (x y : A) → q x ≡ false → q y ≡ true → is_after (compare x y) ≡ true) where
  All-keep_in : (xs : List A) → All (λ x. q x ≡ true) (keep q xs)
  All-keep_in [] = tt
  All-keep_in (x ∷ xs) = elim (Bool-cases (q x)) [
    | inl e ↦ rw e (e, All-keep_in xs)
    | inr e ↦ rw e (All-keep_in xs)
  ]

  All-keep_out : (xs : List A) → All (λ x. q x ≡ false) (keep (λ x. not (q x)) xs)
  All-keep_out [] = tt
  All-keep_out (x ∷ xs) = elim (Bool-cases (q x)) [
    | inl e ↦ rw e (All-keep_out xs)
    | inr e ↦ rw e (e, All-keep_out xs)
  ]

  insert-front :
      (x : A) (xs ys : List A)
      → q x ≡ true
      → All (λ y. q y ≡ false) ys
      → insert compare x (xs ++ ys) ≡ insert compare x xs ++ ys
  unfolding insert
  insert-front x [] [] h b = refl
  insert-front x [] (y ∷ ys) h b = rw (front x y h b.0) refl
  insert-front x (z ∷ xs) ys h b = elim (Bool-cases (is_after (compare x z))) [
    | inl e ↦ rw e (ap (λ zs. z ∷ zs) (insert-front x xs ys h b))
    | inr e ↦ rw e refl
  ]

  insert-back :
      (x : A) (xs ys : List A)
      → q x ≡ false
      → All (λ y. q y ≡ true) xs
      → insert compare x (xs ++ ys) ≡ xs ++ insert compare x ys
  unfolding insert
  insert-back x [] ys h b = refl
  insert-back x (z ∷ xs) ys h b =
      rw (back x z h b.0) (ap (λ zs. z ∷ zs) (insert-back x xs ys h b.1))

  -- Sorting gives the sorted first class and, behind it, the sorted second class.
  pub sort-split :
      (xs : List A)
      → sort compare xs ≡ sort compare (keep q xs) ++ sort compare (keep (λ x. not (q x)) xs)
  unfolding sort
  sort-split [] = refl
  sort-split (x ∷ xs) =
      let outs = All-sort compare (λ y. q y ≡ false) _ (All-keep_out xs) in
      let ins = All-sort compare (λ y. q y ≡ true) _ (All-keep_in xs) in
      elim (Bool-cases (q x)) [
        | inl e ↦ rw e (ap (insert compare x) (sort-split xs) ∙ insert-front x _ _ e outs)
        | inr e ↦ rw e (ap (insert compare x) (sort-split xs) ∙ insert-back x _ _ e ins)
      ]
