-- ===== src/Tests/Templates.antt =====
-- A payment of the rent, which is split in three.
use meow_ny.Common.{ℕ, ◌+◌, ◌≡◌, refl, some, List, [], ◌∷◌, arith, map}
use meow_ny.Common.Error.{ok}
use meow_ny.Store.{Who, person, guest, TemplateLine, Recurring, Db}
use meow_ny.Store.Table.{find}
use meow_ny.Splits.Lines.{lines_sum}
use meow_ny.Splits.Lines.Exact.{IsBill}
use meow_ny.Splits.Bill.{bill, lines_of}
use meow_ny.Splits.Bill.Write.{Written}
use meow_ny.Splits.Template.{recurring_key, template_weight, my_part, apply_template}
use meow_ny.Splits.Template.Apply.{apply_template-Written}
use meow_ny.Tests.Data.{dinner, rent, books, dinner_bill}

abbrev thirds : List TemplateLine
thirds = record { who = person 1; weight = 1 } ∷ record { who = guest (b'g' ∷ []); weight = 1 } ∷ []

abbrev split_rent : Recurring
split_rent = record rent { my_weight = some 1; template = thirds }

abbrev paid_books : Db
paid_books = record books {
  transactions = record dinner { lines = [] } ∷ [];
  recurring = split_rent ∷ [];
}

rent_here : find recurring_key 1 paid_books.recurring ≡ some split_rent
unfolding find
rent_here = refl

payment_found : bill paid_books 1 ≡ ok dinner_bill
unfolding bill
payment_found = refl

no_parts : IsBill dinner_bill (lines_of paid_books 1)
unfolding lines_of
no_parts = record { ids = tt; people = tt; within = omega arith; at_most_30 = omega arith }

apply_template-Written_example :
    (after : Db) × (new : List (Who × ℕ)) × (yours : ℕ) × (apply_template paid_books 1 1 1000
      ≡ ok after)
    × Written dinner_bill paid_books 1 new after
    × (my_part 1000 (1 ∷ map template_weight thirds) ≡ ok yours)
    × (lines_sum (lines_of after 1) + yours ≡ 1000)
apply_template-Written_example =
    apply_template-Written dinner_bill paid_books 1 1 split_rent 1 rent_here refl payment_found refl
      (omega arith) no_parts ((refl, tt), (tt, tt)) (omega arith) (omega arith)
