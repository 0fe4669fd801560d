-- ===== src/Ledger/Balance.antt =====
-- The balance of a friend (the view `person_balances`) and `settle` of src-tauri/src/debts/ledger.rs.
use meow_ny.Common.{ℕ, ◌+◌, ◌-◌, Option, none, some, List, [], ◌∷◌, ◌==◌, if◌then◌else◌}
use meow_ny.Common.Int.{ℤ, pos, ◌+ℤ◌, abs, ltb_ℤ, is_zero}
use meow_ny.Common.Text.{Text}
use meow_ny.Common.Decimal.{show}
use meow_ny.Common.Error.{
  unwrap_or, Result, ok, err, invalid_input, not_found, ◌>>=◌, ◌>>◌, fail_if,
}
use meow_ny.Money.{parse_positive_amount, format_amount}
use meow_ny.Fields.{Calendar}
use meow_ny.Store.{person, guest, Line, Person, Transaction, repaid_to_me, repaid_by_me, Entry, Db}
use meow_ny.Store.Table.{find, fresh}
use meow_ny.Store.Table as Table
use meow_ny.Splits.Bill.{person_key}
use meow_ny.Transactions.Update.{or_else}
use meow_ny.Ledger.{EntryOut, add, signed}

-- The two sums of the view `person_balances`.
unfoldable pub parts_of_person : ℕ → List Line → ℕ
parts_of_person id [] = 0
parts_of_person id (l ∷ ls) = elim l.who [
  | person i ↦ (if i == id then l.amount else 0) + parts_of_person id ls
  | guest _ ↦ parts_of_person id ls
]

unfoldable pub bills_of_person : ℕ → List Transaction → ℕ
unfolding parts_of_person
bills_of_person id [] = 0
bills_of_person id (t ∷ ts) = parts_of_person id t.lines + bills_of_person id ts

unfoldable pub entries_of_person : ℕ → List Entry → ℤ
entries_of_person id [] = pos 0
entries_of_person id (e ∷ es) =
    (if e.person_id == id then signed e.kind e.amount else pos 0) +ℤ entries_of_person id es

unfoldable pub balance_minor : Db → ℕ → Result ℤ
unfolding find bills_of_person entries_of_person
balance_minor db id = elim (find person_key id db.people) [
  | none ↦ err not_found
  | some _ ↦ ok (pos (bills_of_person id db.transactions) +ℤ entries_of_person id db.ledger)
]

pub record Settled : Type 0 where
  pub entry : EntryOut
  pub before : Text
  pub after : Text
  pub over : Text

-- `UPDATE people SET remind_on = NULL, remind_every_days = NULL WHERE id = ?`
abbrev pub no_reminder : Person → Person
no_reminder p = record p { remind_on = none; remind_every_days = none }

unfoldable pub clear_reminder : Db → ℕ → Db
unfolding Table.update
clear_reminder db id = record db { people = Table.update person_key id no_reminder db.people }

module _ (c : Calendar) where
  unfoldable pub settle :
      Db → ℕ → Option Text → Option Text → Option Text → Text → Result (Db × Settled)
  unfolding balance_minor add clear_reminder
  settle db person_id amount date note today = do
    before ← balance_minor db person_id
    fail_if (is_zero before) invalid_input
    minor ← or_else amount parse_positive_amount (ok (abs before))
    (added, entry) ← add c db (record {
      person_id = show person_id;
      kind = if ltb_ℤ (pos 0) before then repaid_to_me else repaid_by_me;
      amount = format_amount (pos minor);
      date = unwrap_or date today;
      note = note;
      transaction_id = none;
    })
    after ← balance_minor added person_id
    ok (
      if is_zero after then clear_reminder added person_id else added,
      record {
        entry = entry;
        before = format_amount before;
        after = format_amount after;
        over = format_amount (pos (minor - abs before));
      },
    )
