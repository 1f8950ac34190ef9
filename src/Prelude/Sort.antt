-- ===== src/Prelude/Sort.antt =====
-- `Array.prototype.sort` with a comparator: a stable sort. `le a b` is `compare(a, b) <= 0`.
use mathlib.Core.List.Perm
use aytrackerv.Prelude.{
  ℕ, suc, ◌+◌, ◌≤◌, ◌≡◌, refl, Bool, ◌||◌, inl, inr, List, [], ◌∷◌, Perm, arith, leb, if◌then◌else◌,
  any, All, length, sum_by, Bool-cases, true, false, leb→le,
}

module _ {ℓ} {A : Type ℓ} (le : A → A → Bool) where
  unfoldable pub insert : A → List A → List A
  insert x [] = x ∷ []
  insert x (y ∷ ys) = let rest = insert x ys in if le x y then x ∷ y ∷ ys else y ∷ rest

  unfoldable pub sort : List A → List A
  unfolding insert
  sort [] = []
  sort (x ∷ xs) = insert x (sort xs)

  insert-perm : (x : A) (xs : List A) → Perm (insert x xs) (x ∷ xs)
  unfolding insert
  insert-perm x [] = Perm.refl (x ∷ [])
  insert-perm x (y ∷ ys) = elim (Bool-cases (le x y)) [
    | inl h ↦ rw h (Perm.refl (x ∷ y ∷ ys))
    | inr h ↦ rw h (Perm.trans (Perm.cons y (insert-perm x ys)) (Perm.swap x y ys))
  ]

  pub sort-perm : (xs : List A) → Perm (sort xs) xs
  unfolding sort
  sort-perm [] = Perm.refl []
  sort-perm (x ∷ xs) = Perm.trans (insert-perm x (sort xs)) (Perm.cons x (sort-perm xs))

  any-insert : (p : A → Bool) (x : A) (xs : List A) → any p (insert x xs) ≡ (p x || any p xs)
  unfolding insert
  any-insert p x [] = refl
  any-insert p x (y ∷ ys) = ground (arith, any-insert p x ys)

  pub any-sort : (p : A → Bool) (xs : List A) → any p (sort xs) ≡ any p xs
  unfolding sort
  any-sort p [] = refl
  any-sort p (x ∷ xs) = rw (any-insert p x (sort xs)) (rw (any-sort p xs))

  length-insert : (x : A) (xs : List A) → length (insert x xs) ≡ suc (length xs)
  unfolding insert
  length-insert x [] = refl
  length-insert x (y ∷ ys) = ground (arith, length-insert x ys)

  pub length-sort : (xs : List A) → length (sort xs) ≡ length xs
  unfolding sort
  length-sort [] = refl
  length-sort (x ∷ xs) = rw (length-insert x (sort xs)) (rw (length-sort xs))

  sum_by-insert : (f : A → ℕ) (x : A) (xs : List A) → sum_by f (insert x xs) ≡ f x + sum_by f xs
  unfolding insert
  sum_by-insert f x [] = refl
  sum_by-insert f x (y ∷ ys) = ground (arith, sum_by-insert f x ys)

  pub sum_by-sort : (f : A → ℕ) (xs : List A) → sum_by f (sort xs) ≡ sum_by f xs
  unfolding sort
  sum_by-sort f [] = refl
  sum_by-sort f (x ∷ xs) = rw (sum_by-insert f x (sort xs)) (rw (sum_by-sort f xs))

  insert-All {κ} : (P : A → Type κ) (x : A) (xs : List A) → P x → All P xs → All P (insert x xs)
  unfolding insert
  insert-All P x [] h hs = (h, tt)
  insert-All P x (y ∷ ys) h hs = elim (Bool-cases (le x y)) [
    | inl e ↦ rw e (h, hs)
    | inr e ↦ rw e (hs.0, insert-All P x ys h hs.1)
  ]

  pub sort-All {κ} : (P : A → Type κ) (xs : List A) → All P xs → All P (sort xs)
  unfolding sort
  sort-All P [] h = tt
  sort-All P (x ∷ xs) h = insert-All P x (sort xs) h.0 (sort-All P xs h.1)

module _ {ℓ} {A : Type ℓ} (le : A → A → Bool) where
  All-insert {κ} : (P : A → Type κ) (x : A) (xs : List A) → All P (insert le x xs) → P x × All P xs
  unfolding insert
  All-insert P x [] h = h
  All-insert P x (y ∷ ys) h = elim (Bool-cases (le x y)) [
    | inl e ↦ rw e at h
    | inr e ↦
        let swapped : P y × All P (insert le x ys) = rw e at h in
        let (first, others) = All-insert P x ys swapped.1 in (first, (swapped.0, others))
  ]

  -- What every element of the sorted list satisfies, every element satisfies.
  pub All-sort {κ} : (P : A → Type κ) (xs : List A) → All P (sort le xs) → All P xs
  unfolding sort
  All-sort P [] h = tt
  All-sort P (x ∷ xs) h =
      let (first, others) = All-insert P x (sort le xs) h in (first, All-sort P xs others)

-- What a comparator must satisfy for its sort to be sorted.
pub record IsComparator {ℓ} {A : Type ℓ} (le : A → A → Bool) : Type ℓ where
  pub total : (x y : A) → le x y ≡ false → le y x ≡ true
  pub trans : (x y z : A) → le x y ≡ true → le y z ≡ true → le x z ≡ true

-- Each element compares below all that stand behind it.
abbrev pub IsSorted {ℓ} : {A : Type ℓ} → (A → A → Bool) → List A → Type 0
IsSorted le [] = Unit
IsSorted le (x ∷ xs) = All (λ y. le x y ≡ true) xs × IsSorted le xs

module _ {ℓ} {A : Type ℓ} (le : A → A → Bool) (c : IsComparator le) where
  All-trans :
      (x y : A) (zs : List A)
      → le x y ≡ true
      → All (λ z. le y z ≡ true) zs
      → All (λ z. le x z ≡ true) zs
  All-trans x y [] h hs = tt
  All-trans x y (z ∷ zs) h hs = (c.trans x y z h hs.0, All-trans x y zs h hs.1)

  insert-IsSorted : (x : A) (xs : List A) → IsSorted le xs → IsSorted le (insert le x xs)
  unfolding insert
  insert-IsSorted x [] h = (tt, tt)
  insert-IsSorted x (y ∷ ys) h = elim (Bool-cases (le x y)) [
    | inl e ↦ rw e ((e, All-trans x y ys e h.0), (h.0, h.1))
    | inr e ↦
        rw e (insert-All le (λ z. le y z ≡ true) x ys (c.total x y e) h.0, insert-IsSorted x ys h.1)
  ]

  pub sort-IsSorted : (xs : List A) → IsSorted le (sort le xs)
  unfolding sort
  sort-IsSorted [] = tt
  sort-IsSorted (x ∷ xs) = insert-IsSorted x (sort le xs) (sort-IsSorted xs)

-- Each element's key is at most the keys behind it.
abbrev pub IsSortedBy {ℓ} : {A : Type ℓ} → (A → ℕ) → List A → Type 0
IsSortedBy key [] = Unit
IsSortedBy key (x ∷ xs) = All (λ y. key x ≤ key y) xs × IsSortedBy key xs

-- A sort by an ascending number.
module _ {ℓ} {A : Type ℓ} (key : A → ℕ) where
  abbrev pub le_by : A → A → Bool
  le_by a b = leb (key a) (key b)

  pub le_by-IsComparator : IsComparator le_by
  le_by-IsComparator = record { total = λ x y h. ground arith; trans = λ x y z h k. ground arith }

  All-le : (x : A) (ys : List A) → All (λ y. le_by x y ≡ true) ys → All (λ y. key x ≤ key y) ys
  All-le x [] h = tt
  All-le x (y ∷ ys) h = (leb→le _ _ h.0, All-le x ys h.1)

  IsSorted-IsSortedBy : (xs : List A) → IsSorted le_by xs → IsSortedBy key xs
  IsSorted-IsSortedBy [] h = tt
  IsSorted-IsSortedBy (x ∷ xs) h = (All-le x xs h.0, IsSorted-IsSortedBy xs h.1)

  pub sort-IsSortedBy : (xs : List A) → IsSortedBy key (sort le_by xs)
  sort-IsSortedBy xs =
      IsSorted-IsSortedBy (sort le_by xs) (sort-IsSorted le_by le_by-IsComparator xs)
