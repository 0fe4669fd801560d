-- ===== src/Splits/Allocate/Order.antt =====
-- The remainders of `allocate`: what they add up to, how often each position stands among them, and
-- why as many as there are cents left over are above 0.
use native.Mathlib.Nat.{div-add-mod}
use meow_ny.Common.{
  ℕ, suc, zero, ◌+◌, ◌-◌, ◌*◌, ◌≤◌, ◌<◌, ◌≡◌, refl, ap, true, List, [], ◌∷◌, map, arith, sum, take,
  drop, length, get_or, All, All-map, Bool-cases, inl, inr, ◌==◌,
}
use meow_ny.Common.Sort.{IsSorted}
use meow_ny.Splits.Allocate.{share, remainder, remainders, not_after}
use meow_ny.Splits.Allocate.Bumps.{hits, hits-All, All-drop}

abbrev pub first : ℕ × ℕ → ℕ
first (r, _) = r

module _ (total all : ℕ) where
  pub remainders-sum :
      (p : ℕ) (ws : List ℕ)
      → sum (map first (remainders total all p ws)) + all * sum (map (share total all) ws)
        ≡ total * sum ws
  remainders-sum p [] = grind arith
  remainders-sum p (w ∷ ws) = grind (arith, remainders-sum (suc p) ws, div-add-mod (total * w) all)

  pub remainders-lt :
      0 < all → (p : ℕ) (ws : List ℕ) → All (λ e. e.0 < all) (remainders total all p ws)
  remainders-lt h p [] = tt
  remainders-lt h p (w ∷ ws) = (grind arith, remainders-lt h (suc p) ws)

  -- The entry at a position holds the remainder of the weight at that position.
  abbrev pub Belongs : ℕ → List ℕ → ℕ × ℕ → Type 0
  Belongs p ws (r, q) =
      (p ≤ q) × (q < p + length ws) × (r ≡ remainder total all (get_or ws (q - p) 0))

  Belongs-cons : (p w : ℕ) (ws : List ℕ) (e : ℕ × ℕ) → Belongs (suc p) ws e → Belongs p (w ∷ ws) e
  Belongs-cons p w ws (r, q) (lo, hi, e) =
      let step : q - p ≡ suc (q - suc p) = omega arith in (omega arith, omega arith, rw step e)

  pub remainders-Belongs : (p : ℕ) (ws : List ℕ) → All (Belongs p ws) (remainders total all p ws)
  remainders-Belongs p [] = tt
  remainders-Belongs p (w ∷ ws) =
      let start : p - p ≡ 0 = omega arith in
      (
        (omega arith, omega arith, rw start refl),
        All-map _ _ (Belongs-cons p w ws) _ (remainders-Belongs (suc p) ws),
      )

  hits-remainders_below : (i p : ℕ) (ws : List ℕ) → i < p → hits i (remainders total all p ws) ≡ 0
  hits-remainders_below i p [] h = refl
  hits-remainders_below i p (w ∷ ws) h =
      ground (arith, hits-remainders_below i (suc p) ws (omega arith))

  pub hits-remainders :
      (i p : ℕ) (ws : List ℕ) → p ≤ i → i < p + length ws → hits i (remainders total all p ws) ≡ 1
  hits-remainders i p [] lo hi = absurd (omega arith)
  hits-remainders i p (w ∷ ws) lo hi = elim (Bool-cases (p == i)) [
    | inl same ↦ ground (arith, hits-remainders_below i (suc p) ws)
    | inr other ↦ ground (arith, hits-remainders i (suc p) ws)
  ]

sum-first_zero :
    (e : ℕ × ℕ) (l : List (ℕ × ℕ))
    → e.0 ≡ 0
    → All (λ x. not_after e x ≡ true) l
    → sum (map first l) ≡ 0
sum-first_zero e [] z h = refl
sum-first_zero e (x ∷ l) z h = ground (arith, sum-first_zero e l z h.1)

-- The largest remainders come first, so if together they make up `k` wholes, the first `k` of them
-- are above 0, and there are that many.
pub take_positive :
    (all k : ℕ) (l : List (ℕ × ℕ))
    → 0 < all
    → IsSorted not_after l
    → All (λ e. e.0 < all) l
    → all * k ≤ sum (map first l)
    → All (λ e. 0 < e.0) (take k l) × (length (take k l) ≡ k)
take_positive all zero l p s b h = (tt, refl)
take_positive all (suc k) [] p s b h = absurd (grind arith)
take_positive all (suc k) (e ∷ l) p s b h =
    let bound : all * k ≤ sum (map first l) = grind arith in
    let (above, count) = take_positive all k l p s.1 b.1 bound in
    let positive : 0 < e.0 = grind (arith, λ (z : e.0 ≡ 0). sum-first_zero e l z s.0) in
    ((positive, above), omega (arith, count))

not_after-followers :
    (r : ℕ → ℕ) (i : ℕ) (e : ℕ × ℕ) (l : List (ℕ × ℕ))
    → e.0 ≡ r e.1
    → e.1 ≡ i
    → All (λ x. not_after e x ≡ true) l
    → All (λ x. x.0 ≡ r x.1) l
    → All (λ x. not_after (r i, i) (r x.1, x.1) ≡ true) l
not_after-followers r i e [] own at f g = tt
not_after-followers r i e (x ∷ l) own at f g =
    (ground (arith, ap r at), not_after-followers r i e l own at f.1 g.1)

-- Whoever is among the first `k` does not come after anybody who is not.
pub take-before-drop :
    (r : ℕ → ℕ) (i j k : ℕ) (l : List (ℕ × ℕ))
    → IsSorted not_after l
    → All (λ e. e.0 ≡ r e.1) l
    → 0 < hits i (take k l)
    → 0 < hits j (drop k l)
    → not_after (r i, i) (r j, j) ≡ true
take-before-drop r i j zero l s b hi hj = absurd (omega arith)
take-before-drop r i j (suc k) [] s b hi hj = absurd (omega arith)
take-before-drop r i j (suc k) (e ∷ l) s b hi hj = elim (Bool-cases (e.1 == i)) [
  | inl same ↦
      hits-All (λ q. not_after (r i, i) (r q, q) ≡ true) j (drop k l)
        (All-drop _ k l (not_after-followers r i e l b.0 (ground arith) s.0 b.1)) hj
  | inr other ↦ take-before-drop r i j k l s.1 b.1 (ground arith) hj
]
