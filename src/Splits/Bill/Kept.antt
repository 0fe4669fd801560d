-- ===== src/Splits/Bill/Kept.antt =====
-- The parts that are kept of an allocation are parts that the bill can have.
use meow_ny.Common.{
  ℕ, ◌+◌, ◌≤◌, ◌≡◌, refl, List, [], ◌∷◌, arith, ltb, length, sum, drop, get_or, inl, inr,
  Bool-cases, length-map,
}
use meow_ny.Common.Int.{pos}
use meow_ny.Common.Error.{ok}
use meow_ny.Money.{max_minor}
use meow_ny.Store.{Who}
use meow_ny.Splits.Allocate.{allocate}
use meow_ny.Splits.Allocate.Shares.{allocate_total}
use meow_ny.Splits.Lines.{Bill}
use meow_ny.Splits.Lines.Counting.{Alone, DistinctWho, measure}
use meow_ny.Splits.Lines.Passes.{InRange}
use meow_ny.Splits.Lines.Exact.{Fits}
use meow_ny.Splits.Bill.{kept, names}

pub kept-Alone :
    (w : Who) (os : List (Who × ℕ)) (amounts : List ℕ)
    → Alone w os
    → Alone w (kept (names os) amounts)
unfolding kept
kept-Alone w [] amounts h = tt
kept-Alone w ((v, x) ∷ os) [] h = tt
kept-Alone w ((v, x) ∷ os) (a ∷ amounts) h = elim (Bool-cases (ltb 0 a)) [
  | inl more ↦ rw more (h.0, kept-Alone w os amounts h.1)
  | inr zero_part ↦ rw zero_part (kept-Alone w os amounts h.1)
]

pub kept-Distinct :
    (os : List (Who × ℕ)) (amounts : List ℕ)
    → DistinctWho os
    → DistinctWho (kept (names os) amounts)
unfolding kept
kept-Distinct [] amounts h = tt
kept-Distinct ((v, x) ∷ os) [] h = tt
kept-Distinct ((v, x) ∷ os) (a ∷ amounts) h = elim (Bool-cases (ltb 0 a)) [
  | inl more ↦ rw more (kept-Alone v os amounts h.0, kept-Distinct os amounts h.1)
  | inr zero_part ↦ rw zero_part (kept-Distinct os amounts h.1)
]

pub kept-InRange :
    (ws : List Who) (amounts : List ℕ) → sum amounts ≤ max_minor → InRange (kept ws amounts)
unfolding kept
kept-InRange [] amounts h = tt
kept-InRange (w ∷ ws) [] h = tt
kept-InRange (w ∷ ws) (a ∷ amounts) h = elim (Bool-cases (ltb 0 a)) [
  | inl more ↦ rw more (ground arith, kept-InRange ws amounts (omega arith))
  | inr zero_part ↦ rw zero_part (kept-InRange ws amounts (omega arith))
]

pub length-kept : (ws : List Who) (amounts : List ℕ) → length (kept ws amounts) ≤ length ws
unfolding kept
length-kept [] amounts = omega arith
length-kept (w ∷ ws) [] = omega arith
length-kept (w ∷ ws) (a ∷ amounts) = ground (arith, length-kept ws amounts)

pub measure-kept :
    (ws : List Who) (amounts : List ℕ)
    → length amounts ≡ length ws
    → measure (λ a. a) (kept ws amounts) ≡ sum amounts
unfolding kept
measure-kept [] [] h = refl
measure-kept [] (a ∷ amounts) h = absurd (omega arith)
measure-kept (w ∷ ws) [] h = absurd (omega arith)
measure-kept (w ∷ ws) (a ∷ amounts) h = ground (arith, measure-kept ws amounts)

-- An allocation of the bill gives parts that fit it, and with your part they make up the bill.
pub kept-Fits :
    (b : Bill) (mine : ℕ) (os : List (Who × ℕ)) (ws amounts : List ℕ)
    → b.amount ≤ max_minor
    → DistinctWho os
    → length os ≤ 30
    → length ws ≡ length os
    → allocate (pos b.amount) (mine ∷ ws) ≡ ok amounts
    → Fits b (kept (names os) (drop 1 amounts))
      × (measure (λ a. a) (kept (names os) (drop 1 amounts)) + get_or amounts 0 0 ≡ b.amount)
kept-Fits b mine os ws [] small d n same e =
    absurd (omega (arith, (allocate_total b.amount (mine ∷ ws) [] e).0))
kept-Fits b mine os ws (a ∷ amounts) small d n same e =
    let (count, whole) = allocate_total b.amount (mine ∷ ws) (a ∷ amounts) e in
    let named = length-map {B = Who} os (λ o. o.0) in
    let parts = measure-kept (names os) amounts (omega (arith, count, same, named)) in
    (
      record {
        in_range = kept-InRange (names os) amounts (omega (arith, whole));
        distinct = kept-Distinct os amounts d;
        count = omega (arith, length-kept (names os) amounts, named);
        total = omega (arith, parts, whole);
      },
      omega (arith, parts, whole),
    )
