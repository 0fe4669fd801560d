-- ===== src/Splits/Bill/Set.antt =====
-- Setting the split of a bill: what is typed and accepted is what is stored.
use meow_ny.Common.{
  ℕ, ◌+◌, ◌≤◌, ◌≡◌, true, false, some, List, arith, ◌==◌, length, length-map, drop, get_or, inl,
  inr, Bool-cases,
}
use meow_ny.Common.Int.{pos, is_zero}
use meow_ny.Common.Text.{Text}
use meow_ny.Common.Error.{ok, Result-cases}
use meow_ny.Money.{max_minor}
use meow_ny.Store.{Who, Db}
use meow_ny.Splits.Allocate.{allocate}
use meow_ny.Splits.Lines.{Bill, lines_sum}
use meow_ny.Splits.Lines.Counting.{measure}
use meow_ny.Splits.Lines.Exact.{IsBill, Fits}
use meow_ny.Splits.Input.{Weights, SplitInput, weights, all_weights}
use meow_ny.Splits.Input.Weighed.{Sound, weights-Sound}
use meow_ny.Splits.Input.Named.{FoldsAscii}
use meow_ny.Splits.Bill.{bill, lines_of, people_on, kept, names, split_lines, set_split}
use meow_ny.Splits.Bill.Kept.{kept-Fits}
use meow_ny.Splits.Bill.Write.{Written, write_parts-Written}

-- The parts of an accepted split fit the bill, and together with your part they make it up.
pub split_lines-Fits :
    (b : Bill) (w : Weights) (lines : List (Who × ℕ))
    → b.amount ≤ max_minor
    → Sound w
    → split_lines b.amount w ≡ ok lines
    → Fits b lines
      × (1 ≤ length lines)
      × (is_zero w.left ≡ true)
      × (amounts : List ℕ) × (allocate (pos b.amount) (all_weights w) ≡ ok amounts)
      × (measure (λ a. a) lines + get_or amounts 0 0 ≡ b.amount)
unfolding split_lines
split_lines-Fits b w lines small sound e = elim (Bool-cases (is_zero w.left)) [
  | inr rest ↦ absurd (ground arith)
  | inl done ↦ elim (Result-cases (allocate (pos b.amount) (all_weights w))) [
    | inr (_, bad) ↦ absurd (ground arith)
    | inl (amounts, given) ↦
        let some_part : (length (kept (names w.others) (drop 1 amounts)) == 0) ≡ false =
          ground arith in
        let same : kept (names w.others) (drop 1 amounts) ≡ lines = ground arith in
        let (fits, whole) =
          kept-Fits b w.mine w.others _ amounts small sound.distinct sound.count
            (length-map {B = ℕ} w.others (λ (o : Who × ℕ). o.1)) given in
        (rw (← same) fits, ground arith, done, amounts, given, rw (← same) whole)
  ]
]

module _ (lower : Text → Text) (folds : FoldsAscii lower) where
  -- A split of an expense that adds up is stored, and is refused by no check of the database: each
  -- friend and guest has the part that the split gives them, nobody else has one, at least one part
  -- is stored, the parts and your part make up the bill to the cent, the rules of a bill hold of the
  -- parts, and no other bill changes.
  pub set_split-stored :
      (b : Bill) (db : Db) (id : ℕ) (input : SplitInput) (w : Weights) (lines : List (Who × ℕ))
      → bill db id ≡ ok b
      → b.income ≡ false
      → b.amount ≤ max_minor
      → IsBill b (lines_of db id)
      → weights lower db input (some b.amount) (people_on db id) ≡ ok w
      → split_lines b.amount w ≡ ok lines
      → (after : Db) × (amounts : List ℕ) × (set_split lower db id input ≡ ok after)
        × Written b db id lines after
        × (1 ≤ length lines)
        × (allocate (pos b.amount) (all_weights w) ≡ ok amounts)
        × (lines_sum (lines_of after id) + get_or amounts 0 0 ≡ b.amount)
  unfolding set_split
  set_split-stored b db id input w lines e expense small now weighed split =
      let (fits, some_part, _, amounts, given, whole) =
        split_lines-Fits b w lines small
          (weights-Sound lower folds db input (some b.amount) (people_on db id) w weighed) split in
      let (after, made, written) = write_parts-Written b db id lines e expense now fits in
      (after, amounts, ground arith, written, some_part, given, omega (arith, written.total, whole))
