-- ===== src/Tests/Bills.antt =====
-- Splits, parts and edits of the small database.
use meow_ny.Common.{
  ℕ, ◌+◌, ◌≤◌, ◌≡◌, refl, length, get_or, none, some, List, [], ◌∷◌, arith, All, ◌⊎◌,
}
use meow_ny.Common.Int.{pos}
use meow_ny.Common.Error.{ok}
use meow_ny.Fields.{parse_id, clean_name}
use meow_ny.Store.{Who, person, guest, Line, Db}
use meow_ny.Splits.Allocate.{allocate}
use meow_ny.Splits.Lines.{lines_sum, wanted, write_lines}
use meow_ny.Splits.Lines.Counting.{measure}
use meow_ny.Splits.Lines.Exact.{IsBill, Fits, part_of, written, write_lines_lem, write_lines-exact}
use meow_ny.Splits.Lines.Invariant.{write_lines-IsBill}
use meow_ny.Splits.Input.{
  Mode, SplitInput, Weights, check_person, archived_of, weights, all_weights,
}
use meow_ny.Splits.Input.Weighed.{Sound, weights-Sound}
use meow_ny.Splits.Bill.{
  bill, lines_of, people_on, split_lines, set_split, key_of, rescaled, rescale,
}
use meow_ny.Splits.Bill.Set.{set_split-stored}
use meow_ny.Splits.Bill.Write.{PartsOnly, Written}
use meow_ny.Splits.Bill.Fair.{NearShare, amount_or_0}
use meow_ny.Splits.Bill.Rescale.{rescale-Written}
use meow_ny.Splits.Bill.Shared.{Known, Indexed}
use meow_ny.Tests.Data.{
  to_lower, to_lower-FoldsAscii, ana_part, guest_part, books, dinner_bill, dinner-IsBill,
}

abbrev dinner_lines : List Line
dinner_lines = ana_part ∷ guest_part ∷ []

-- The guest goes, the friend has more, and a new guest comes.
abbrev new_parts : List (Who × ℕ)
new_parts = (person 1, 400) ∷ (guest (b'h' ∷ []), 600) ∷ []

new_parts-Fits : Fits dinner_bill new_parts
new_parts-Fits = record {
  in_range = ((omega arith, omega arith), ((omega arith, omega arith), tt));
  distinct = ((refl, tt), (tt, tt));
  count = omega arith;
  total = omega arith;
}

write_lines-exact_example :
    (table : List Line) × (write_lines dinner_bill new_parts dinner_lines ≡ ok table)
    × ((w : Who) → part_of table w ≡ wanted new_parts w)
    × (lines_sum table ≡ measure (λ a. a) new_parts)
    × (length table ≡ length new_parts)
write_lines-exact_example =
    write_lines-exact dinner_bill new_parts dinner_lines refl dinner-IsBill new_parts-Fits

write_lines-IsBill_example : IsBill dinner_bill (written new_parts dinner_lines)
write_lines-IsBill_example =
    write_lines-IsBill dinner_bill new_parts dinner_lines (written new_parts dinner_lines) refl
      dinner-IsBill new_parts-Fits
      (write_lines_lem dinner_bill new_parts dinner_lines refl dinner-IsBill new_parts-Fits)

-- The dinner, in three equal parts.
abbrev equal_split : SplitInput
equal_split = record {
  mode = Mode.equal;
  mine = none;
  parts =
      record { person_id = some (b'1' ∷ []); guest = none; value = none }
      ∷ record { person_id = none; guest = some (b'g' ∷ []); value = none }
      ∷ [];
}

abbrev equal_weights : Weights
equal_weights = record {
  mine = 1;
  others = (person 1, 1) ∷ (guest (b'g' ∷ []), 1) ∷ [];
  left = pos 0;
}

equal_read : weights to_lower books equal_split (some 1000) (people_on books 1) ≡ ok equal_weights
unfolding weights people_on parse_id check_person archived_of clean_name
equal_read = refl

weights-Sound_example : Sound equal_weights
weights-Sound_example =
    weights-Sound to_lower to_lower-FoldsAscii books equal_split (some 1000) (people_on books 1)
      equal_weights equal_read

abbrev equal_parts : List (Who × ℕ)
equal_parts = (person 1, 333) ∷ (guest (b'g' ∷ []), 333) ∷ []

equal_made : split_lines 1000 equal_weights ≡ ok equal_parts
unfolding split_lines
equal_made = refl

pub dinner_found : bill books 1 ≡ ok dinner_bill
unfolding bill
dinner_found = refl

dinner_now : IsBill dinner_bill (lines_of books 1)
unfolding lines_of
dinner_now = dinner-IsBill

set_split-stored_example :
    (after : Db) × (amounts : List ℕ) × (set_split to_lower books 1 equal_split ≡ ok after)
    × Written dinner_bill books 1 equal_parts after
    × (1 ≤ length equal_parts)
    × (allocate (pos 1000) (all_weights equal_weights) ≡ ok amounts)
    × (lines_sum (lines_of after 1) + get_or amounts 0 0 ≡ 1000)
set_split-stored_example =
    set_split-stored to_lower to_lower-FoldsAscii dinner_bill books 1 equal_split equal_weights
      equal_parts dinner_found refl (omega arith) dinner_now equal_read equal_made

pub dinner_Known : Known books (lines_of books 1)
unfolding lines_of key_of
dinner_Known = (((0, b'a' ∷ []), refl), (((1, b'g' ∷ []), refl), tt))

pub dinner_Indexed : Indexed (lines_of books 1)
unfolding lines_of
dinner_Indexed = ((refl, tt), (tt, tt))

dinner_within : lines_sum (lines_of books 1) ≤ 1000
unfolding lines_of
dinner_within = omega arith

rescale-Written_example :
    (after : Db) × (rescale books 1 1000 700 ≡ ok after)
    × (lines_sum (lines_of after 1) ≤ 700)
    × PartsOnly dinner_bill books 1 after
    × All
        (λ (l : Line). NearShare 700 1000 l.amount (amount_or_0 (part_of (lines_of after 1) l.who)))
        (lines_of books 1)
    × (((lines_of books 1 ≡ []) × (after ≡ books))
        ⊎ ((new : List (Who × ℕ)) × (rescaled books (lines_of books 1) 1000 700 ≡ ok new)
            × Written dinner_bill books 1 new after))
rescale-Written_example =
    rescale-Written dinner_bill books 1 1000 700 dinner_found refl dinner_now (omega arith)
      dinner_within dinner_Known dinner_Indexed (omega arith) (omega arith)
