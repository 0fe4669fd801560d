-- ===== src/Splits/Allocate/Bumps.antt =====
-- The cents that are left over in `allocate`: what the second loop does to the parts, counted by
-- the positions that it visits, and the order in which it visits them.
use meow_ny.Common.{
  ℕ, suc, zero, ◌+◌, ◌<◌, ◌≡◌, refl, ◌≢◌, ◌⊎◌, inl, inr, true, false, List, [], ◌∷◌, map, arith,
  ◌==◌, if◌then◌else◌, sum, take, drop, length, get_or, All, Bool-cases,
}
use meow_ny.Splits.Allocate.{not_after, bump, bump_all}

pub not_after_total : (a b : ℕ × ℕ) → not_after a b ≡ false → not_after b a ≡ true
not_after_total a b h = ground arith

pub not_after_trans :
    (a b c : ℕ × ℕ) → not_after a b ≡ true → not_after b c ≡ true → not_after a c ≡ true
not_after_trans a b c h k = ground arith

pub not_after-ne :
    (r p r' p' : ℕ) → not_after (r, p) (r', p') ≡ true → p ≢ p' → (r' < r) ⊎ ((r ≡ r') × (p < p'))
not_after-ne r p r' p' h ne = ground arith

-- How often a position stands in a list of remainders.
abbrev pub hit : ℕ → ℕ × ℕ → ℕ
hit i (r, p) = if p == i then 1 else 0

abbrev pub hits : ℕ → List (ℕ × ℕ) → ℕ
hits i l = sum (map (hit i) l)

pub hits-take : (i k : ℕ) (l : List (ℕ × ℕ)) → hits i (take k l) + hits i (drop k l) ≡ hits i l
hits-take i zero l = omega arith
hits-take i (suc k) [] = omega arith
hits-take i (suc k) (e ∷ l) = omega (arith, hits-take i k l)

get_or-bump :
    (p i : ℕ) (xs : List ℕ)
    → p < length xs
    → get_or (bump p xs) i 0 ≡ get_or xs i 0 + (if p == i then 1 else 0)
get_or-bump p i [] h = absurd (omega arith)
get_or-bump zero zero (x ∷ xs) h = refl
get_or-bump zero (suc i) (x ∷ xs) h = ground arith
get_or-bump (suc p) zero (x ∷ xs) h = ground arith
get_or-bump (suc p) (suc i) (x ∷ xs) h = ground (arith, get_or-bump p i xs (omega arith))

length-bump : (p : ℕ) (xs : List ℕ) → length (bump p xs) ≡ length xs
length-bump p [] = refl
length-bump zero (x ∷ xs) = refl
length-bump (suc p) (x ∷ xs) = omega (arith, length-bump p xs)

sum-bump : (p : ℕ) (xs : List ℕ) → p < length xs → sum (bump p xs) ≡ sum xs + 1
sum-bump p [] h = absurd (omega arith)
sum-bump zero (x ∷ xs) h = omega arith
sum-bump (suc p) (x ∷ xs) h = omega (arith, sum-bump p xs (omega arith))

abbrev pub Within : ℕ → List (ℕ × ℕ) → Type 0
Within n = All (λ e. e.1 < n)

pub length-bump_all : (l : List (ℕ × ℕ)) (xs : List ℕ) → length (bump_all l xs) ≡ length xs
length-bump_all [] xs = refl
length-bump_all (e ∷ l) xs = omega (arith, length-bump_all l (bump e.1 xs), length-bump e.1 xs)

pub sum-bump_all :
    (l : List (ℕ × ℕ)) (xs : List ℕ)
    → Within (length xs) l
    → sum (bump_all l xs) ≡ sum xs + length l
sum-bump_all [] xs h = omega arith
sum-bump_all (e ∷ l) xs h =
    omega (arith, sum-bump e.1 xs h.0, sum-bump_all l (bump e.1 xs) (rw (length-bump e.1 xs) h.1))

pub get_or-bump_all :
    (i : ℕ) (l : List (ℕ × ℕ)) (xs : List ℕ)
    → Within (length xs) l
    → get_or (bump_all l xs) i 0 ≡ get_or xs i 0 + hits i l
get_or-bump_all i [] xs h = omega arith
get_or-bump_all i (e ∷ l) xs h = omega (
  arith,
  get_or-bump e.1 i xs h.0,
  get_or-bump_all i l (bump e.1 xs) (rw (length-bump e.1 xs) h.1),
)

-- A fact about all remainders holds at a position that stands among them.
pub hits-All : (P : ℕ → Type 0) (i : ℕ) (l : List (ℕ × ℕ)) → All (λ e. P e.1) l → 0 < hits i l → P i
hits-All P i [] h k = absurd (omega arith)
hits-All P i (e ∷ l) h k = elim (Bool-cases (e.1 == i)) [
  | inl same ↦ let eq : e.1 ≡ i = ground arith in rw eq at h.0
  | inr other ↦ hits-All P i l h.1 (ground arith)
]

pub All-drop : (P : ℕ × ℕ → Type 0) (k : ℕ) (l : List (ℕ × ℕ)) → All P l → All P (drop k l)
All-drop P zero l h = h
All-drop P (suc k) [] h = tt
All-drop P (suc k) (e ∷ l) h = All-drop P k l h.1

pub All-take : (P : ℕ × ℕ → Type 0) (k : ℕ) (l : List (ℕ × ℕ)) → All P l → All P (take k l)
All-take P zero l h = tt
All-take P (suc k) [] h = tt
All-take P (suc k) (e ∷ l) h = (h.0, All-take P k l h.1)
