-- ===== src/Common/Slices.antt =====
-- Parts of lists: what `take`, `drop` and appending leave.
use meow_ny.Common.{
  ℕ, zero, suc, ◌+◌, ◌-◌, ◌≤◌, ◌≡◌, refl, ap, min, List, [], ◌∷◌, ◌++◌, arith, length, take, drop,
}

module _ {ℓ} {A : Type ℓ} where
  pub append_nil : (s : List A) → s ++ [] ≡ s
  append_nil [] = refl
  append_nil (c ∷ s) = ap (λ r. c ∷ r) (append_nil s)

  pub append-inj : (a b d e : List A) → a ++ b ≡ d ++ e → length a ≡ length d → (a ≡ d) × (b ≡ e)
  append-inj [] b [] e h k = (refl, h)
  append-inj [] b (y ∷ d) e h k = absurd (omega arith)
  append-inj (x ∷ a) b [] e h k = absurd (omega arith)
  append-inj (x ∷ a) b (y ∷ d) e h k =
      let (front, back) = append-inj a b d e (ground arith) (omega arith) in (ground arith, back)

  pub size_of_take : (n : ℕ) (s : List A) → length (take n s) ≡ min n (length s)
  size_of_take zero s = omega arith
  size_of_take (suc n) [] = omega arith
  size_of_take (suc n) (x ∷ s) = omega (arith, size_of_take n s)

  pub length-drop : (n : ℕ) (s : List A) → length (drop n s) ≡ length s - n
  length-drop zero s = omega arith
  length-drop (suc n) [] = omega arith
  length-drop (suc n) (x ∷ s) = omega (arith, length-drop n s)

  pub take_front : (k : ℕ) (a b : List A) → k ≤ length a → take k (a ++ b) ≡ take k a
  take_front zero a b h = refl
  take_front (suc k) [] b h = absurd (omega arith)
  take_front (suc k) (x ∷ a) b h = ap (λ r. x ∷ r) (take_front k a b (omega arith))

  pub drop_front : (k : ℕ) (a b : List A) → k ≤ length a → drop k (a ++ b) ≡ drop k a ++ b
  drop_front zero a b h = refl
  drop_front (suc k) [] b h = absurd (omega arith)
  drop_front (suc k) (x ∷ a) b h = drop_front k a b (omega arith)

  pub drop-drop : (j k m : ℕ) (a : List A) → j + k ≡ m → drop k (drop j a) ≡ drop m a
  drop-drop zero k m a h = let same : k ≡ m = omega arith in rw same refl
  drop-drop (suc j) zero zero [] h = refl
  drop-drop (suc j) zero (suc m) [] h = refl
  drop-drop (suc j) (suc k) zero [] h = absurd (omega arith)
  drop-drop (suc j) (suc k) (suc m) [] h = refl
  drop-drop (suc j) k zero (x ∷ a) h = absurd (omega arith)
  drop-drop (suc j) k (suc m) (x ∷ a) h = drop-drop j k m a (omega arith)

  pub take-add : (k n m : ℕ) (a : List A) → k + n ≡ m → take k a ++ take n (drop k a) ≡ take m a
  take-add zero n m a h = let same : n ≡ m = omega arith in rw same refl
  take-add (suc k) n zero a h = absurd (omega arith)
  take-add (suc k) zero (suc m) [] h = refl
  take-add (suc k) (suc n) (suc m) [] h = refl
  take-add (suc k) n (suc m) (x ∷ a) h = ap (λ r. x ∷ r) (take-add k n m a (omega arith))

  pub take_whole : (a b : List A) → take (length a) (a ++ b) ≡ a
  take_whole [] b = refl
  take_whole (x ∷ a) b = ap (λ r. x ∷ r) (take_whole a b)

  pub drop_whole : (a b : List A) → drop (length a) (a ++ b) ≡ b
  drop_whole [] b = refl
  drop_whole (x ∷ a) b = drop_whole a b

  pub drop_past : (k : ℕ) (a : List A) → length a ≤ k → drop k a ≡ []
  drop_past zero [] h = refl
  drop_past zero (x ∷ a) h = absurd (omega arith)
  drop_past (suc k) [] h = refl
  drop_past (suc k) (x ∷ a) h = drop_past k a (omega arith)

  pub take_all : (a : List A) → take (length a) a ≡ a
  take_all [] = refl
  take_all (x ∷ a) = ap (λ r. x ∷ r) (take_all a)
