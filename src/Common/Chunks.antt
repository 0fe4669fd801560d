-- ===== src/Common/Chunks.antt =====
-- A list in pieces, and positions in it.
use meow_ny.Common.{
  ℕ, zero, suc, ◌+◌, ◌≤◌, ◌<◌, ◌≡◌, refl, ap, ◌∙◌, some, List, [], ◌∷◌, ◌++◌, arith, length, take,
  drop, get_elem?,
}

-- `chunks(size)` of a slice; the fuel is its length, which is enough for any size but 0.
chunks_from {ℓ} : {A : Type ℓ} → ℕ → ℕ → List A → List (List A)
chunks_from zero size xs = []
chunks_from (suc fuel) size [] = []
chunks_from (suc fuel) size (x ∷ xs) =
    take size (x ∷ xs) ∷ chunks_from fuel size (drop size (x ∷ xs))

unfoldable pub chunks {ℓ} : {A : Type ℓ} → ℕ → List A → List (List A)
unfolding chunks_from
chunks size xs = chunks_from (length xs) size xs

abbrev pub concat {ℓ} : {A : Type ℓ} → List (List A) → List A
concat [] = []
concat (x ∷ xs) = x ++ concat xs

pub take-drop {ℓ} : {A : Type ℓ} (n : ℕ) (xs : List A) → take n xs ++ drop n xs ≡ xs
take-drop zero xs = refl
take-drop (suc n) [] = refl
take-drop (suc n) (x ∷ xs) = ap (◌∷◌ x) (take-drop n xs)

length-drop-le {ℓ} : {A : Type ℓ} (n : ℕ) (xs : List A) → length (drop n xs) ≤ length xs
length-drop-le zero xs = omega arith
length-drop-le (suc n) [] = omega arith
length-drop-le (suc n) (x ∷ xs) = omega (arith, length-drop-le n xs)

concat-chunks_from {ℓ} :
    {A : Type ℓ} (fuel n : ℕ) (xs : List A)
    → length xs ≤ fuel
    → concat (chunks_from fuel (suc n) xs) ≡ xs
unfolding chunks_from
concat-chunks_from zero n [] h = refl
concat-chunks_from zero n (x ∷ xs) h = absurd (omega arith)
concat-chunks_from (suc fuel) n [] h = refl
concat-chunks_from (suc fuel) n (x ∷ xs) h =
    ap (λ r. (x ∷ take n xs) ++ r)
      (concat-chunks_from fuel n (drop n xs) (omega (arith, length-drop-le n xs)))
    ∙ ap (◌∷◌ x) (take-drop n xs)

-- The pieces put together are the list.
pub concat-chunks {ℓ} : {A : Type ℓ} (n : ℕ) (xs : List A) → concat (chunks (suc n) xs) ≡ xs
unfolding chunks
concat-chunks n xs = concat-chunks_from (length xs) n xs (omega arith)

pub drop-cons {ℓ} :
    {A : Type ℓ} (xs : List A) (i : ℕ) {x : A} {rest : List A}
    → drop i xs ≡ x ∷ rest
    → (get_elem? xs i ≡ some x) × (drop (i + 1) xs ≡ rest) × (i < length xs)
drop-cons [] zero e = absurd (cc)
drop-cons [] (suc i) e = absurd (cc)
drop-cons (y ∷ ys) zero e = (cc, cc, omega arith)
drop-cons (y ∷ ys) (suc i) {x} {rest} e =
    let (here, after, less) = drop-cons ys i {x = x} {rest = rest} e in
    let s : suc i + 1 ≡ suc (i + 1) = omega arith in
    (here, ap (λ n. drop n (y ∷ ys)) s ∙ after, omega arith)

pub drop-nil {ℓ} :
    {A : Type ℓ} (xs : List A) (i : ℕ) → drop i xs ≡ [] → i ≤ length xs → i ≡ length xs
drop-nil [] i e h = omega arith
drop-nil (y ∷ ys) zero e h = absurd (cc)
drop-nil (y ∷ ys) (suc i) e h = ap suc (drop-nil ys i e (omega arith))
