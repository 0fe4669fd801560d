-- ===== src/Tests/Edits.antt =====
-- Transactions that are sent and edited.
use meow_ny.Common.{◌≡◌, refl, none, some, [], ◌∷◌, ◌++◌, true, arith}
use meow_ny.Common.Text.{Text, split_once}
use meow_ny.Common.Decimal.{show}
use meow_ny.Common.Error.{ok}
use meow_ny.Money.{parse_positive_amount, whole_ok, fraction_ok}
use meow_ny.Fields.{parse_id, clean_name, clean_optional, clean_uuid}
use meow_ny.Store.{Transaction, Db}
use meow_ny.Store.Table.{find, fresh}
use meow_ny.Splits.Bill.{transaction_id, key_of}
use meow_ny.Splits.Bill.Shared.{Known}
use meow_ny.Transactions.{
  NewTransaction, category_is_active, category_is_expense, shown, create, one_made,
}
use meow_ny.Transactions.Update.{Columns, store}
use meow_ny.Transactions.Again.{create-again}
use meow_ny.Transactions.Edit.{Stored, store-Stored}
use meow_ny.Tests.Data.{flat, dinner, books, dinner-IsBill}
use meow_ny.Tests.Bills.{dinner_found}

abbrev cheaper : Columns
cheaper = record {
  name = b'd' ∷ [];
  minor = 400;
  date = b'5' ∷ [];
  category_id = 1;
  description = none;
}

dinner_here : find transaction_id 1 books.transactions ≡ some dinner
unfolding find
dinner_here = refl

lines_Known : Known books dinner.lines
unfolding key_of
lines_Known = (((0, b'a' ∷ []), refl), (((1, b'g' ∷ []), refl), tt))

still_expense : category_is_expense books 1 ≡ true
unfolding category_is_expense
still_expense = refl

store-Stored_example :
    (after : Db) × (store books dinner cheaper ≡ ok after) × Stored books dinner cheaper after
store-Stored_example =
    store-Stored books dinner cheaper dinner_here dinner_found dinner-IsBill lines_Known
      ((refl, tt), (tt, tt)) (omega arith) (omega arith) (omega arith) (omega arith) still_expense

abbrev four : Text
four = b'1' ∷ b'a' ∷ b'2' ∷ b'b' ∷ []

abbrev uuid : Text
uuid = four ++ four ++ b'-' ∷ four ++ b'-' ∷ four ++ b'-' ∷ four ++ b'-' ∷ four ++ four ++ four

abbrev coffee : NewTransaction
coffee = record {
  name = b'c' ∷ [];
  amount = b'2' ∷ b'.' ∷ b'5' ∷ b'0' ∷ [];
  payment_date = b'6' ∷ [];
  category_id = b'1' ∷ [];
  description = none;
  client_uuid = some uuid;
}

abbrev coffee_made : Transaction
coffee_made = one_made 2 1 (some uuid) (b'c' ∷ []) 250 (b'6' ∷ []) none

abbrev coffee_books : Db
coffee_books = record books { transactions = dinner ∷ coffee_made ∷ [] }

coffee_sent : create flat books coffee ≡ ok (coffee_books, shown books coffee_made)
unfolding create clean_name parse_positive_amount split_once whole_ok fraction_ok parse_id
    clean_optional clean_uuid category_is_active fresh show
coffee_sent = refl

create-again_example : create flat coffee_books coffee ≡ ok (coffee_books, shown books coffee_made)
create-again_example =
    create-again flat books coffee_books coffee uuid (shown books coffee_made) refl coffee_sent
