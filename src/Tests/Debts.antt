-- ===== src/Tests/Debts.antt =====
-- Marking a payment of the small database.
use meow_ny.Common.{◌<◌, ◌≡◌, refl, none, some, [], ◌∷◌, ◌++◌, if◌then◌else◌, arith}
use meow_ny.Common.Int.{ℤ, pos, ◌+ℤ◌, ◌-ℤ◌, abs, ltb_ℤ}
use meow_ny.Common.Text.{Text, split_once}
use meow_ny.Common.Decimal.{show}
use meow_ny.Common.Error.{ok}
use meow_ny.Money.{format_amount, parse_positive_amount, whole_ok, fraction_ok}
use meow_ny.Fields.{clean_optional}
use meow_ny.Store.{Entry, Db, repaid_by_me, repaid_to_me}
use meow_ny.Store.Table.{find, fresh}
use meow_ny.Splits.Bill.{person_key}
use meow_ny.Ledger.{entry_out}
use meow_ny.Ledger.Balance.{Settled, balance_minor, no_reminder, settle}
use meow_ny.Ledger.Settle.{Asked, settle-balance, settle_whole}
use meow_ny.Tests.Data.{flat, ana, loan, books}

abbrev today : Text
today = b'7' ∷ []

abbrev repayment : Entry
repayment = record {
  id = 2;
  person_id = 1;
  kind = repaid_to_me;
  amount = 350;
  date = today;
  note = none;
  transaction_id = none;
  origin_id = none;
}

abbrev paid_books : Db
paid_books = record books { people = no_reminder ana ∷ []; ledger = loan ∷ repayment ∷ [] }

settled_out : Settled
settled_out = record {
  entry = entry_out repayment;
  before = format_amount (pos 350);
  after = format_amount (pos 0);
  over = format_amount (pos 0);
}

books_paid : settle flat books 1 none none none today ≡ ok (paid_books, settled_out)
unfolding settle settled_out ◌+ℤ◌ ◌-ℤ◌ parse_positive_amount split_once format_amount whole_ok
    fraction_ok clean_optional fresh show
books_paid = refl

in_range : (before : ℤ) → balance_minor books 1 ≡ ok before → abs before < 0x8000000000000000
unfolding balance_minor ◌+ℤ◌
in_range before e = let same : pos 350 ≡ before = ground arith in rw (← same) (omega arith)

settle-balance_example :
    (before : ℤ) × (e : Entry) × (balance_minor books 1 ≡ ok before)
    × (paid_books.ledger ≡ books.ledger ++ e ∷ [])
    × (e.person_id ≡ 1)
    × (e.kind ≡ (if ltb_ℤ (pos 0) before then repaid_to_me else repaid_by_me))
    × Asked none before e.amount
    × (paid_books.transactions ≡ books.transactions)
    × (balance_minor paid_books 1
        ≡ ok (if ltb_ℤ (pos 0) before then before -ℤ pos e.amount else before +ℤ pos e.amount))
settle-balance_example =
    settle-balance flat books paid_books 1 none none none today settled_out (omega arith)
      (omega arith) in_range books_paid

ana_there : find person_key 1 books.people ≡ some ana
unfolding find
ana_there = refl

settle_whole_example :
    (balance_minor paid_books 1 ≡ ok (pos 0))
    × (find person_key 1 paid_books.people ≡ some (no_reminder ana))
settle_whole_example =
    settle_whole flat books paid_books 1 none none today settled_out ana (omega arith) (omega arith)
      in_range ana_there books_paid
