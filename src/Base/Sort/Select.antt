-- ===== src/Base/Sort/Select.antt =====
-- Sorting and filtering: `filter` keeps the order, and the two commute for a consistent comparator.
use Prim.Native.Nat.{Ordering}
use mathlib.Core.Path.{◌≡◌, refl, sym, ap, ◌∙◌}
use mathlib.Core.Logic.{inl, inr}
use mathlib.Core.Bool.{Bool, true, false}
use mathlib.Core.Option.{none, some}
use mathlib.Core.List.{List, [], ◌∷◌, ◌++◌}
use gambling.Base.Tests.{Bool-cases}
use gambling.Base.Lists.{All, keep, find}
use gambling.Base.Sort.{
  IsConsistent, is_after, insert, sort, Below, IsSorted, insert_first, Below-trans, All-sort,
  sort-IsSorted,
}

module _ {ℓ} {A : Type ℓ} where
  pub All-keep {κ} : (P : A → Type κ) (q : A → Bool) (xs : List A) → All P xs → All P (keep q xs)
  All-keep P q [] h = tt
  All-keep P q (x ∷ xs) h = elim (Bool-cases (q x)) [
    | inl e ↦ rw e (h.0, All-keep P q xs h.1)
    | inr e ↦ rw e (All-keep P q xs h.1)
  ]

  pub All-append {κ} : (P : A → Type κ) (xs ys : List A) → All P xs → All P ys → All P (xs ++ ys)
  All-append P [] ys h k = k
  All-append P (x ∷ xs) ys h k = (h.0, All-append P xs ys h.1 k)

  pub keep-append : (q : A → Bool) (xs ys : List A) → keep q (xs ++ ys) ≡ keep q xs ++ keep q ys
  keep-append q [] ys = refl
  keep-append q (x ∷ xs) ys = elim (Bool-cases (q x)) [
    | inl e ↦ rw e (rw (keep-append q xs ys))
    | inr e ↦ rw e (keep-append q xs ys)
  ]

module _ {ℓ} {A : Type ℓ} (compare : A → A → Ordering) where
  pub IsSorted-keep :
      (q : A → Bool) (xs : List A) → IsSorted compare xs → IsSorted compare (keep q xs)
  IsSorted-keep q [] s = tt
  IsSorted-keep q (x ∷ xs) s = elim (Bool-cases (q x)) [
    | inl e ↦ rw e (All-keep _ q xs s.0, IsSorted-keep q xs s.1)
    | inr e ↦ rw e (IsSorted-keep q xs s.1)
  ]

  -- An element that the filter drops leaves no trace.
  keep-insert_out :
      (q : A → Bool) (x : A) (xs : List A) → q x ≡ false → keep q (insert compare x xs) ≡ keep q xs
  unfolding insert
  keep-insert_out q x [] h = rw h
  keep-insert_out q x (y ∷ ys) h = elim (Bool-cases (is_after (compare x y))) [
    | inl e ↦ rw e (elim (Bool-cases (q y)) [
      | inl k ↦ rw k (rw (keep-insert_out q x ys h))
      | inr k ↦ rw k (keep-insert_out q x ys h)
    ])
    | inr e ↦ rw e (rw h)
  ]

  module _ {κ} (P : A → Type κ) (c : IsConsistent P compare) where
    keep-insert :
        (q : A → Bool) (x : A) (xs : List A)
        → P x
        → All P xs
        → IsSorted compare xs
        → q x ≡ true
        → keep q (insert compare x xs) ≡ insert compare x (keep q xs)
    unfolding insert
    keep-insert q x [] px ps s h = rw h
    keep-insert q x (y ∷ ys) px ps s h = elim (Bool-cases (is_after (compare x y))) [
      | inl e ↦ rw e (elim (Bool-cases (q y)) [
        | inl k ↦ rw k (rw e (rw (keep-insert q x ys px ps.1 s.1 h)))
        | inr k ↦ rw k (keep-insert q x ys px ps.1 s.1 h)
      ])
      | inr e ↦
          let below : Below compare x (y ∷ ys) =
            (e, Below-trans compare P c x y ys px ps.0 ps.1 e s.0) in
          rw e (rw h (sym (insert_first compare x (keep q (y ∷ ys)) (All-keep _ q (y ∷ ys) below))))
    ]

    -- Filtering a sorted array gives the array that is sorted after filtering.
    pub keep-sort :
        (q : A → Bool) (xs : List A)
        → All P xs
        → keep q (sort compare xs) ≡ sort compare (keep q xs)
    unfolding sort
    keep-sort q [] ps = refl
    keep-sort q (x ∷ xs) ps = elim (Bool-cases (q x)) [
      | inl e ↦ rw e (
          keep-insert q x (sort compare xs) ps.0 (All-sort compare P xs ps.1)
            (sort-IsSorted compare P c xs ps.1) e
          ∙ ap (insert compare x) (keep-sort q xs ps.1))
      | inr e ↦ rw e (keep-insert_out q x (sort compare xs) e ∙ keep-sort q xs ps.1)
    ]

  find-insert_out :
      (q : A → Bool) (x : A) (xs : List A) → q x ≡ false → find q (insert compare x xs) ≡ find q xs
  unfolding insert
  find-insert_out q x [] h = rw h
  find-insert_out q x (y ∷ ys) h = elim (Bool-cases (is_after (compare x y))) [
    | inl e ↦
        rw e (elim (Bool-cases (q y)) [ inl k ↦ rw k | inr k ↦ rw k (find-insert_out q x ys h) ])
    | inr e ↦ rw e (rw h)
  ]

  -- A new element is found in the sorted array, if it is the only one that fits.
  pub find-sort_new :
      (q : A → Bool) (xs : List A) (n : A)
      → find q xs ≡ none
      → q n ≡ true
      → find q (sort compare (xs ++ n ∷ [])) ≡ some n
  unfolding sort
  find-sort_new q [] n h k = unfold insert in rw k
  find-sort_new q (x ∷ xs) n h k = elim (Bool-cases (q x)) [
    | inl e ↦ cc (rw e at h)
    | inr e ↦
        find-insert_out q x (sort compare (xs ++ n ∷ [])) e ∙ find-sort_new q xs n (rw e at h) k
  ]
