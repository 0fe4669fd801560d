-- ===== src/Splits/Template/Apply.antt =====
-- Splitting a payment by the template of its item.
use meow_ny.Common.{
  ℕ, suc, ◌+◌, ◌≤◌, ◌<◌, ◌≡◌, refl, ap, some, List, [], ◌∷◌, arith, length, map, sum, drop, get_or,
  false,
}
use meow_ny.Common.Error.{ok}
use meow_ny.Money.{max_minor}
use meow_ny.Store.{Who, TemplateLine, Recurring, Db}
use meow_ny.Store.Table.{find}
use meow_ny.Splits.Allocate.Shares.{allocate-sum}
use meow_ny.Splits.Lines.{Bill, lines_sum}
use meow_ny.Splits.Lines.Counting.{DistinctWho}
use meow_ny.Splits.Lines.Exact.{IsBill}
use meow_ny.Splits.Bill.{bill, lines_of, kept, names}
use meow_ny.Splits.Bill.Kept.{kept-Fits}
use meow_ny.Splits.Bill.Write.{Written, write_parts-Written}
use meow_ny.Splits.Template.{
  recurring_key, template_who, template_weight, template_pairs, my_part, apply_template,
}

names-template_pairs : (ls : List TemplateLine) → names (template_pairs ls) ≡ map template_who ls
names-template_pairs [] = refl
names-template_pairs (l ∷ ls) = ap (◌∷◌ l.who) (names-template_pairs ls)

length-template_pairs :
    (ls : List TemplateLine)
    → (length (map template_weight ls) ≡ length (template_pairs ls))
      × (length (template_pairs ls) ≡ length ls)
length-template_pairs [] = (refl, refl)
length-template_pairs (l ∷ ls) = let (a, b) = length-template_pairs ls in (ap suc a, ap suc b)

-- A payment of an item that is split, by a template for different people that is not all 0, is split
-- without a refusal: the parts that are stored, and your part as `my_part` tells it before the payment,
-- make up what was paid to the cent, and no other transaction changes.
pub apply_template-Written :
    (b : Bill) (db : Db) (id item : ℕ) (r : Recurring) (mine : ℕ)
    → find recurring_key item db.recurring ≡ some r
    → r.my_weight ≡ some mine
    → bill db id ≡ ok b
    → b.income ≡ false
    → b.amount ≤ max_minor
    → IsBill b (lines_of db id)
    → DistinctWho (template_pairs r.template)
    → length r.template ≤ 30
    → 0 < mine + sum (map template_weight r.template)
    → (after : Db) × (new : List (Who × ℕ)) × (yours : ℕ) × (apply_template db id item b.amount
        ≡ ok after)
      × Written b db id new after
      × (my_part b.amount (mine ∷ map template_weight r.template) ≡ ok yours)
      × (lines_sum (lines_of after id) + yours ≡ b.amount)
unfolding apply_template my_part
apply_template-Written b db id item r mine here split e expense small now distinct few some_weight =
    let weights = map template_weight r.template in
    let (amounts, given, _, _) = allocate-sum b.amount (mine ∷ weights) some_weight in
    let (same, count) = length-template_pairs r.template in
    let new = kept (map template_who r.template) (drop 1 amounts) in
    let (fits, whole) =
      kept-Fits b mine (template_pairs r.template) weights amounts small distinct
        (omega (arith, count, few)) same given in
    let named = ap (λ ws. kept ws (drop 1 amounts)) (names-template_pairs r.template) in
    let (after, stored, written) =
      write_parts-Written b db id new e expense now (rw (← named) fits) in
    let total = written.total in
    (
      after,
      new,
      get_or amounts 0 0,
      ground (arith, here, split, given, stored),
      written,
      ground (arith, given),
      rw (total, ← named) whole,
    )
