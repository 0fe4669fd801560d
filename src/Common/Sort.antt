-- ===== src/Common/Sort.antt =====
-- `sort_by` of the standard library, as a stable insertion sort: an element is put before the
-- first one of the sorted rest that does not come before it. `le` is "not after" in the order of
-- the comparison.
use meow_ny.Common.{
  ℕ, suc, ◌+◌, ◌≡◌, refl, ap, ◌∙◌, Bool, true, false, List, [], ◌∷◌, arith, length, sum, map, inl,
  inr, All, All-map, any, ◌||◌, if◌then◌else◌, Bool-cases,
}

module _ {ℓ} {A : Type ℓ} (le : A → A → Bool) where
  unfoldable pub insert : A → List A → List A
  insert x [] = x ∷ []
  insert x (y ∷ ys) = if le x y then x ∷ y ∷ ys else y ∷ insert x ys

  unfoldable pub sort : List A → List A
  unfolding insert
  sort [] = []
  sort (x ∷ xs) = insert x (sort xs)

  -- Every element comes before all those after it.
  abbrev pub IsSorted : List A → Type 0
  IsSorted [] = Unit
  IsSorted (x ∷ xs) = All (λ y. le x y ≡ true) xs × IsSorted xs

  module _ {κ} (P : A → Type κ) where
    insert-All : (x : A) (xs : List A) → P x → All P xs → All P (insert x xs)
    unfolding insert
    insert-All x [] p h = (p, tt)
    insert-All x (y ∷ ys) p h = elim (Bool-cases (le x y)) [
      | inl e ↦ rw e (p, h)
      | inr e ↦ rw e (h.0, insert-All x ys p h.1)
    ]

    pub sort-All : (xs : List A) → All P xs → All P (sort xs)
    unfolding sort
    sort-All [] h = tt
    sort-All (x ∷ xs) h = insert-All x (sort xs) h.0 (sort-All xs h.1)

  -- Sorting keeps every sum over the elements, their number among them.
  module _ (f : A → ℕ) where
    sum-insert : (x : A) (xs : List A) → sum (map f (insert x xs)) ≡ f x + sum (map f xs)
    unfolding insert
    sum-insert x [] = refl
    sum-insert x (y ∷ ys) = elim (Bool-cases (le x y)) [
      | inl e ↦ rw e refl
      | inr e ↦ rw e (omega (arith, sum-insert x ys))
    ]

    pub sum-sort : (xs : List A) → sum (map f (sort xs)) ≡ sum (map f xs)
    unfolding sort
    sum-sort [] = refl
    sum-sort (x ∷ xs) = omega (arith, sum-insert x (sort xs), sum-sort xs)

  module _ (total : (x y : A) → le x y ≡ false → le y x ≡ true)
      (trans : (x y z : A) → le x y ≡ true → le y z ≡ true → le x z ≡ true) where
    insert-IsSorted : (x : A) (xs : List A) → IsSorted xs → IsSorted (insert x xs)
    unfolding insert
    insert-IsSorted x [] h = (tt, tt)
    insert-IsSorted x (y ∷ ys) h = elim (Bool-cases (le x y)) [
      | inl e ↦ rw e ((e, All-map _ _ (λ z. trans x y z e) ys h.0), h)
      | inr e ↦
          rw e (insert-All (λ z. le y z ≡ true) x ys (total x y e) h.0, insert-IsSorted x ys h.1)
    ]

    pub sort-IsSorted : (xs : List A) → IsSorted (sort xs)
    unfolding sort
    sort-IsSorted [] = tt
    sort-IsSorted (x ∷ xs) = insert-IsSorted x (sort xs) (sort-IsSorted xs)

-- Every two elements, in their order, are related.
abbrev pub Pairwise {ℓ} : {A : Type ℓ} → (A → A → Type 0) → List A → Type 0
Pairwise R [] = Unit
Pairwise R (x ∷ xs) = All (R x) xs × Pairwise R xs

module _ {ℓ} {A : Type ℓ} (leb : A → A → Bool) where
  pub length-insert : (x : A) (xs : List A) → length (insert leb x xs) ≡ suc (length xs)
  unfolding insert
  length-insert x [] = refl
  length-insert x (y ∷ ys) = ground (arith, length-insert x ys)

  pub length-sort : (xs : List A) → length (sort leb xs) ≡ length xs
  unfolding sort
  length-sort [] = refl
  length-sort (x ∷ xs) = length-insert x (sort leb xs) ∙ ap suc (length-sort xs)

  module _ (R : A → A → Type 0) (comm : (a b : A) → R a b → R b a) where
    All-insert : (P : A → Type 0) (x : A) (xs : List A) → P x → All P xs → All P (insert leb x xs)
    unfolding insert
    All-insert P x [] px h = (px, tt)
    All-insert P x (y ∷ ys) px h = elim (Bool-cases (leb x y)) [
      | inl first ↦ rw first (px, h)
      | inr later ↦ rw later (h.0, All-insert P x ys px h.1)
    ]

    insert-Pairwise :
        (x : A) (xs : List A) → All (R x) xs → Pairwise R xs → Pairwise R (insert leb x xs)
    unfolding insert
    insert-Pairwise x [] h d = (tt, tt)
    insert-Pairwise x (y ∷ ys) h d = elim (Bool-cases (leb x y)) [
      | inl first ↦ rw first (h, d)
      | inr later ↦
          rw later (All-insert (R y) x ys (comm x y h.0) d.0, insert-Pairwise x ys h.1 d.1)
    ]

    pub sort-Pairwise : (xs : List A) → Pairwise R xs → Pairwise R (sort leb xs)
    unfolding sort
    sort-Pairwise [] d = tt
    sort-Pairwise (x ∷ xs) d =
        insert-Pairwise x (sort leb xs) (sort-All leb (R x) xs d.0) (sort-Pairwise xs d.1)

-- Sorting keeps what is found in a list.
module _ {ℓ} {A : Type ℓ} (le : A → A → Bool) (p : A → Bool) where
  any-insert : (x : A) (xs : List A) → any p (insert le x xs) ≡ (p x || any p xs)
  unfolding insert
  any-insert x [] = refl
  any-insert x (y ∷ ys) = ground (arith, any-insert x ys)

  pub any-sort : (xs : List A) → any p (sort le xs) ≡ any p xs
  unfolding sort
  any-sort [] = refl
  any-sort (x ∷ xs) = any-insert x (sort le xs) ∙ ap (λ b. p x || b) (any-sort xs)
