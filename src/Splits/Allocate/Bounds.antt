-- ===== src/Splits/Allocate/Bounds.antt =====
-- `allocate` of src-tauri/src/debts/splits.rs in natural numbers against the machine's numbers: `i64`
-- totals and parts, `u64` weights, `u128` products and sums.
use meow_ny.Common.{
  ℕ, ◌-◌, ◌*◌, ◌^◌, ◌≤◌, ◌<◌, ◌≡◌, [], ◌∷◌, List, arith, sum, length, All, All-map, map, ap, refl,
  ◌∙◌, ◌+◌, ◌/◌, ◌%◌, take, suc, zero, Bool-cases, inl, inr, ◌||◌, ◌==◌, ltb, true, false,
}
use meow_ny.Common.Int.{ℤ, pos, negsuc, pos_part, ltb_ℤ}
use meow_ny.Common.Error.{ok, err, invalid_input, ◌>>=◌}
use meow_ny.Common.Sort.{sort}
use meow_ny.Splits.Allocate.{share, remainders, not_after, bump, bump_all, shares, allocate}
use meow_ny.Splits.Allocate.Shares.{parts-le, top-length, allocate_total}
use meow_ny.Splits.Allocate.Machine.{
  wrap, sum_u128, sub_u128, as_usize, as_i64, share_u128, remainders_u128, bump_u128, bump_all_u128,
  shares_u128, allocate_u128,
}

abbrev pub i64_max : ℕ
i64_max = 2 ^ 63 - 1

abbrev pub u64_max : ℕ
u64_max = 2 ^ 64 - 1

mul_le : (a b m n : ℕ) → a ≤ m → b ≤ n → a * b ≤ m * n
mul_le a b m n h k = grind arith

sum-le : (m : ℕ) (ws : List ℕ) → All (λ w. w ≤ m) ws → sum ws ≤ length ws * m
sum-le m [] h = omega arith
sum-le m (w ∷ ws) h = grind (arith, sum-le m ws h.1)

part-le-sum : (ps : List ℕ) (n : ℕ) → sum ps ≤ n → All (λ p. p ≤ n) ps
part-le-sum [] n h = tt
part-le-sum (p ∷ ps) n h = (omega arith, part-le-sum ps n (omega arith))

sum_in_u128 : (ws : List ℕ) → All (λ w. w ≤ u64_max) ws → length ws ≤ u64_max → sum ws < 2 ^ 128
sum_in_u128 ws h k =
    omega (arith, sum-le u64_max ws h, mul_le (length ws) u64_max u64_max u64_max k (omega arith))

wrap_small : (n : ℕ) → n < 2 ^ 128 → wrap n ≡ n
wrap_small n h = omega arith

sum_u128_lem : (acc : ℕ) (ws : List ℕ) → acc + sum ws < 2 ^ 128 → sum_u128 acc ws ≡ acc + sum ws
unfolding sum_u128
sum_u128_lem acc [] h = omega arith
sum_u128_lem acc (w ∷ ws) h =
    rw (wrap_small (acc + w) (omega arith)) (sum_u128_lem (acc + w) ws (omega arith) ∙ omega arith)

-- The products of the total and the weights.
abbrev SmallProducts : ℕ → List ℕ → Type 0
SmallProducts total = All (λ w. total * w < 2 ^ 128)

parts_fit :
    (total all : ℕ) (ws : List ℕ)
    → SmallProducts total ws
    → map (share_u128 total all) ws ≡ map (share total all) ws
parts_fit total all [] h = refl
parts_fit total all (w ∷ ws) h =
    rw (wrap_small (total * w) h.0) (ap (λ r. total * w / all ∷ r) (parts_fit total all ws h.1))

remainders_fit :
    (total all position : ℕ) (ws : List ℕ)
    → SmallProducts total ws
    → remainders_u128 total all position ws ≡ remainders total all position ws
remainders_fit total all position [] h = refl
remainders_fit total all position (w ∷ ws) h =
    rw (wrap_small (total * w) h.0)
      (ap (λ r. (total * w % all, position) ∷ r) (remainders_fit total all (suc position) ws h.1))

-- Every part has room for a number of cents more.
abbrev Room : ℕ → List ℕ → Type 0
Room k = All (λ x. x + k < 2 ^ 128)

bump_fits : (p : ℕ) (k : ℕ) (xs : List ℕ) → Room (suc k) xs → bump_u128 p xs ≡ bump p xs
bump_fits p k [] h = refl
bump_fits zero k (x ∷ xs) h = ap (λ y. y ∷ xs) (wrap_small (x + 1) (omega (arith, h.0)))
bump_fits (suc p) k (x ∷ xs) h = ap (λ r. x ∷ r) (bump_fits p k xs h.1)

Room-less : (k : ℕ) (xs : List ℕ) → Room (suc k) xs → Room k xs
Room-less k = All-map _ _ (λ x h. omega (arith, h))

bump-Room : (p k : ℕ) (xs : List ℕ) → Room (suc k) xs → Room k (bump p xs)
bump-Room p k [] h = tt
bump-Room zero k (x ∷ xs) h = (omega (arith, h.0), Room-less k xs h.1)
bump-Room (suc p) k (x ∷ xs) h = (omega (arith, h.0), bump-Room p k xs h.1)

bump_all_fits :
    (queue : List (ℕ × ℕ)) (xs : List ℕ)
    → Room (length queue) xs
    → bump_all_u128 queue xs ≡ bump_all queue xs
unfolding bump_all_u128
bump_all_fits [] xs h = refl
bump_all_fits ((r, p) ∷ queue) xs h =
    rw (bump_fits p (length queue) xs h)
      (bump_all_fits queue (bump p xs) (bump-Room p (length queue) xs h))

shares_fit :
    (total : ℕ) (ws : List ℕ)
    → total ≤ i64_max
    → 0 < sum ws
    → SmallProducts total ws
    → shares_u128 total (sum ws) ws ≡ shares total (sum ws) ws
unfolding shares_u128 shares
shares_fit total ws small some_weight fit =
    let within = parts-le total ws some_weight in
    let ps = map (share total (sum ws)) ws in
    let added : sum_u128 0 ps ≡ sum ps = sum_u128_lem 0 ps (omega arith) ∙ omega arith in
    let left : as_usize (sub_u128 total (sum ps)) ≡ total - sum ps = omega (arith, within) in
    let count = top-length total ws some_weight in
    let room : Room
        (length (take (total - sum ps) (sort not_after (remainders total (sum ws) 0 ws)))) ps =
      All-map (λ p. p ≤ total) _ (λ p h. omega (arith, h, count)) ps
        (part-le-sum ps total within) in
    rw (parts_fit total (sum ws) ws fit, remainders_fit total (sum ws) 0 ws fit, added, left)
      (bump_all_fits (take (total - sum ps) (sort not_after (remainders total (sum ws) 0 ws))) ps
        room)

i64_fits : (ps : List ℕ) → All (λ p. p ≤ i64_max) ps → map as_i64 ps ≡ map (λ p. pos p) ps
unfolding as_i64
i64_fits [] h = refl
i64_fits (p ∷ ps) h =
    let low : ltb (p % 2 ^ 64) (2 ^ 63) ≡ true = ground (arith, h.0) in
    let same : p % 2 ^ 64 ≡ p = omega (arith, h.0) in
    rw (low, same) (ap (λ r. pos p ∷ r) (i64_fits ps h.1))

allocate_some :
    (total : ℕ) (ws : List ℕ)
    → (sum ws == 0) ≡ false
    → allocate (pos total) ws ≡ ok (shares total (sum ws) ws)
unfolding allocate
allocate_some total ws h = ground (arith, h)

allocate_u128_some :
    (total : ℕ) (ws : List ℕ)
    → (sum_u128 0 ws == 0) ≡ false
    → allocate_u128 (pos total) ws ≡ ok (map as_i64 (shares_u128 total (sum_u128 0 ws) ws))
unfolding allocate_u128
allocate_u128_some total ws h = ground (arith, h)

allocate_none :
    (total : ℤ) (ws : List ℕ)
    → (ltb_ℤ total (pos 0) || (sum ws == 0)) ≡ true
    → allocate total ws ≡ err invalid_input
unfolding allocate
allocate_none total ws h = rw h refl

allocate_u128_none :
    (total : ℤ) (ws : List ℕ)
    → (ltb_ℤ total (pos 0) || (sum_u128 0 ws == 0)) ≡ true
    → allocate_u128 total ws ≡ err invalid_input
unfolding allocate_u128
allocate_u128_none total ws h = rw h refl

-- For an `i64` total and `u64` weights, fewer than 2 ^ 64 of them, `allocate` in the machine's numbers,
-- where each operation wraps around, refuses what `allocate` in natural numbers refuses, and otherwise
-- gives the same parts.
pub allocate_fits :
    (total : ℤ) (ws : List ℕ)
    → pos_part total ≤ i64_max
    → All (λ w. w ≤ u64_max) ws
    → length ws ≤ u64_max
    → allocate_u128 total ws ≡ (allocate total ws >>= λ ps. ok (map (λ p. pos p) ps))
allocate_fits (negsuc n) ws t w k =
    rw (allocate_none (negsuc n) ws (ground arith), allocate_u128_none (negsuc n) ws (ground arith))
      refl
allocate_fits (pos total) ws t w k =
    let added : sum_u128 0 ws ≡ sum ws =
      sum_u128_lem 0 ws (omega (arith, sum_in_u128 ws w k)) ∙ omega arith in
    let fit : SmallProducts total ws =
      All-map (λ x. x ≤ u64_max) _ (λ x h. omega (arith, mul_le total x i64_max u64_max t h)) ws
        w in
    elim (Bool-cases (sum ws == 0)) [
      | inl none_given ↦
          rw
            (
              allocate_none (pos total) ws (ground (arith, none_given)),
              allocate_u128_none (pos total) ws (ground (arith, added, none_given)),
            )
            refl
      | inr some_given ↦
          let same = shares_fit total ws t (ground (arith, some_given)) fit in
          let made = allocate_some total ws some_given in
          let whole = allocate_total total ws (shares total (sum ws) ws) made in
          rw (allocate_u128_some total ws (ground (arith, added, some_given)), made, added, same)
            (ap (λ r. ok r)
              (i64_fits (shares total (sum ws) ws)
                (part-le-sum (shares total (sum ws) ws) i64_max (omega (arith, whole)))))
    ]
