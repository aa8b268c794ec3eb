-- ===== src/Base/Sort.antt =====
-- `Array.prototype.sort` with a comparator, whose sign is an `Ordering`. The standard asks for a
-- stable sort, so for a consistent comparator the insertion sort gives the array that any other
-- stable sort gives.
pub mod Select
pub mod Split
use Prim.Native.Nat.{Ordering}
use mathlib.Core.Path.{◌≡◌, refl}
use mathlib.Core.Bool.{Bool, true, false}
use mathlib.Core.List.{List, [], ◌∷◌, Perm}
use mathlib.Core.List.Perm
use gambling.Base.Tests.{if◌then◌else◌, Bool-cases}
use gambling.Base.Lists.{All}
use mathlib.Core.Logic.{inl, inr}

abbrev pub is_after : Ordering → Bool
is_after Ordering.gt = true
is_after o = false

-- the sign of a difference, or where it is 0 the next comparison
abbrev pub or_next : Ordering → Ordering → Ordering
or_next Ordering.eq next = next
or_next o next = o

-- a comparator that is total and transitive on the values with `P`, as `sort` requires
pub record IsConsistent {ℓ κ} {A : Type ℓ} (P : A → Type κ) (compare : A → A → Ordering)
    : Type (ℓ ⊔ κ) where
  pub total : (x y : A) → P x → P y → is_after (compare x y) ≡ true → is_after (compare y x) ≡ false
  pub trans :
      (x y z : A)
      → P x
      → P y
      → P z
      → is_after (compare x y) ≡ false
      → is_after (compare y z) ≡ false
      → is_after (compare x z) ≡ false

module _ {ℓ} {A : Type ℓ} (compare : A → A → Ordering) where
  unfoldable pub insert : A → List A → List A
  insert x [] = x ∷ []
  insert x (y ∷ ys) = if is_after (compare x y) then y ∷ insert x ys else x ∷ y ∷ ys

  unfoldable pub sort : List A → List A
  unfolding insert
  sort [] = []
  sort (x ∷ xs) = insert x (sort xs)

  pub insert-perm : (x : A) (xs : List A) → Perm (insert x xs) (x ∷ xs)
  unfolding insert
  insert-perm x [] = Perm.refl (x ∷ [])
  insert-perm x (y ∷ ys) = elim (Bool-cases (is_after (compare x y))) [
    | inl e ↦ rw e (Perm.trans (Perm.cons y (insert-perm x ys)) (Perm.swap x y ys))
    | inr e ↦ rw e (Perm.refl (x ∷ y ∷ ys))
  ]

  pub sort-perm : (xs : List A) → Perm (sort xs) xs
  unfolding sort
  sort-perm [] = Perm.refl []
  sort-perm (x ∷ xs) = Perm.trans (insert-perm x (sort xs)) (Perm.cons x (sort-perm xs))

  -- No element stands after one that it must precede.
  abbrev pub IsSorted : List A → Type ℓ
  IsSorted [] = Unit
  IsSorted (x ∷ xs) = All (λ y. is_after (compare x y) ≡ false) xs × IsSorted xs

  abbrev Below : A → List A → Type 0
  Below x = All (λ y. is_after (compare x y) ≡ false)

  Below-insert :
      (x y : A) (ys : List A) → is_after (compare x y) ≡ false → Below x ys → Below x (insert y ys)
  unfolding insert
  Below-insert x y [] h b = (h, tt)
  Below-insert x y (z ∷ zs) h b = elim (Bool-cases (is_after (compare y z))) [
    | inl e ↦ rw e (b.0, Below-insert x y zs h b.1)
    | inr e ↦ rw e (h, b)
  ]

  module _ {κ} (P : A → Type κ) where
    All-insert : (x : A) (xs : List A) → P x → All P xs → All P (insert x xs)
    unfolding insert
    All-insert x [] p h = (p, tt)
    All-insert x (y ∷ ys) p h = elim (Bool-cases (is_after (compare x y))) [
      | inl e ↦ rw e (h.0, All-insert x ys p h.1)
      | inr e ↦ rw e (p, h)
    ]

    pub All-sort : (xs : List A) → All P xs → All P (sort xs)
    unfolding sort
    All-sort [] h = tt
    All-sort (x ∷ xs) h = All-insert x (sort xs) h.0 (All-sort xs h.1)

  module _ {κ} (P : A → Type κ) (c : IsConsistent P compare) where
    Below-trans :
        (x y : A) (ys : List A)
        → P x
        → P y
        → All P ys
        → is_after (compare x y) ≡ false
        → Below y ys
        → Below x ys
    Below-trans x y [] px py ps h b = tt
    Below-trans x y (z ∷ zs) px py ps h b =
        (c.trans x y z px py ps.0 h b.0, Below-trans x y zs px py ps.1 h b.1)

    insert-IsSorted : (x : A) (xs : List A) → P x → All P xs → IsSorted xs → IsSorted (insert x xs)
    unfolding insert
    insert-IsSorted x [] p ps s = (tt, tt)
    insert-IsSorted x (y ∷ ys) p ps s = elim (Bool-cases (is_after (compare x y))) [
      | inl e ↦
          rw e (Below-insert y x ys (c.total x y p ps.0 e) s.0, insert-IsSorted x ys p ps.1 s.1)
      | inr e ↦ rw e ((e, Below-trans x y ys p ps.0 ps.1 e s.0), s)
    ]

    pub sort-IsSorted : (xs : List A) → All P xs → IsSorted (sort xs)
    unfolding sort
    sort-IsSorted [] h = tt
    sort-IsSorted (x ∷ xs) h =
        insert-IsSorted x (sort xs) h.0 (All-sort P xs h.1) (sort-IsSorted xs h.1)

  insert_first : (x : A) (xs : List A) → Below x xs → insert x xs ≡ x ∷ xs
  unfolding insert
  insert_first x [] b = refl
  insert_first x (y ∷ ys) b = rw b.0

  -- Sorting a sorted array changes nothing.
  pub sort_of_IsSorted : (xs : List A) → IsSorted xs → sort xs ≡ xs
  unfolding sort
  sort_of_IsSorted [] s = refl
  sort_of_IsSorted (x ∷ xs) s = rw (sort_of_IsSorted xs s.1) (insert_first x xs s.0)
