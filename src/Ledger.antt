-- ===== src/Ledger.antt =====
-- The ledger of money lent, borrowed and paid back: src-tauri/src/debts/ledger.rs, with the view
-- `person_balances` and the index on the ids of bill codes of src-tauri/migrations/0012_debts.sql. An
-- operation that writes gives the tables that it leaves and what it answers with.

pub mod Balance
pub mod Added
pub mod Settle
use meow_ny.Common.{
  ℕ, ◌+◌, ◌-◌, ◌≡◌, Bool, true, false, not, ◌&&◌, Option, none, some, List, [], ◌∷◌, ◌++◌, ltb,
  ◌==◌, if◌then◌else◌, any, map,
}
use meow_ny.Common.Int.{ℤ, pos, ◌+ℤ◌, ◌-ℤ◌, abs, ltb_ℤ, is_zero}
use meow_ny.Common.Text.{Text, text_eq}
use meow_ny.Common.Decimal.{show}
use meow_ny.Common.Error.{
  Result, ok, err, invalid_input, not_found, internal, ◌>>=◌, ◌>>◌, fail_if, ok_or, transpose,
}
use meow_ny.Money.{parse_positive_amount, format_amount}
use meow_ny.Fields.{Calendar, parse_id, clean_date, clean_note}
use meow_ny.Store.{
  person, guest, Line, Category, Person, Transaction, Kind, lent, borrowed, repaid_to_me,
  repaid_by_me, Entry, Db,
}
use meow_ny.Store.Table.{find, fresh}
use meow_ny.Store.Table as Table
use meow_ny.Splits.Bill.{transaction_id, category_key, person_key, is_income}
use meow_ny.Transactions.{NewTransaction}
use meow_ny.Transactions.Update.{or_else}
use meow_ny.Transactions as Transactions

-- +1 or -1: whether the entry makes the friend owe you more (`Kind::sign`).
abbrev pub adds : Kind → Bool
adds lent = true
adds repaid_by_me = true
adds borrowed = false
adds repaid_to_me = false

abbrev pub signed : Kind → ℕ → ℤ
signed kind amount = if adds kind then pos amount else pos 0 -ℤ pos amount

-- `==` of the derived `PartialEq`, for the one kind that the code asks for
abbrev pub is_borrowed : Kind → Bool
is_borrowed borrowed = true
is_borrowed _ = false

-- An entry as it is shown (`Entry` of the source).
pub record EntryOut : Type 0 where
  pub id : ℕ
  pub person_id : ℕ
  pub kind : Kind
  pub amount : Text
  pub date : Text
  pub note : Option Text
  pub transaction_id : Option Text

pub record NewEntry : Type 0 where
  pub person_id : Text
  pub kind : Kind
  pub amount : Text
  pub date : Text
  pub note : Option Text
  pub transaction_id : Option Text

pub record EntryPatch : Type 0 where
  pub person_id : Option Text
  pub kind : Option Kind
  pub amount : Option Text
  pub date : Option Text
  pub note : Option (Option Text)
  pub transaction_id : Option (Option Text)

pub record Expense : Type 0 where
  pub name : Text
  pub category_id : Text

abbrev pub entry_id : Entry → ℕ
entry_id e = e.id

-- `from_row`
abbrev pub entry_out : Entry → EntryOut
entry_out e = record {
  id = e.id;
  person_id = e.person_id;
  kind = e.kind;
  amount = format_amount (pos e.amount);
  date = e.date;
  note = e.note;
  transaction_id = elim e.transaction_id [ none ↦ none | some t ↦ some (show t) ];
}

unfoldable pub get : Db → ℕ → Result EntryOut
unfolding find
get db id = elim (find entry_id id db.ledger) [ none ↦ err not_found | some e ↦ ok (entry_out e) ]

unfoldable pub person_exists : Db → ℕ → Bool
unfolding find
person_exists db id = elim (find person_key id db.people) [ none ↦ false | some p ↦ not p.merged ]

unfoldable pub transaction_exists : Db → ℕ → Bool
unfolding find
transaction_exists db id = elim (find transaction_id id db.transactions) [
  | none ↦ false
  | some _ ↦ true
]

-- `if let Some(id) = transaction_id { if !transaction_exists(conn, id)? { .. } }`
unfoldable pub linked : Db → Option ℕ → Bool
unfolding transaction_exists
linked db none = true
linked db (some id) = transaction_exists db id

-- The unique index `uq_ledger_origin`.
abbrev pub same_origin : Option Text → Entry → Bool
same_origin none e = false
same_origin (some o) e = elim e.origin_id [ none ↦ false | some p ↦ text_eq p o ]

unfoldable pub insert_entry : Db → Entry → Result Db
insert_entry db e =
    if any (same_origin e.origin_id) db.ledger
    then err internal
    else ok (record db { ledger = db.ledger ++ e ∷ [] })

module _ (c : Calendar) where
  unfoldable pub add_from : Db → NewEntry → Option Text → Result (Db × EntryOut)
  unfolding parse_id clean_date person_exists linked insert_entry get
  add_from db input origin = do
    person_id ← parse_id input.person_id
    minor ← parse_positive_amount input.amount
    date ← clean_date c input.date
    note ← clean_note input.note
    transaction_id ← transpose parse_id input.transaction_id
    fail_if (not (person_exists db person_id)) invalid_input
    fail_if (not (linked db transaction_id)) invalid_input
    let id = fresh entry_id db.ledger in
        insert_entry db (record {
          id = id;
          person_id = person_id;
          kind = input.kind;
          amount = minor;
          date = date;
          note = note;
          transaction_id = transaction_id;
          origin_id = origin;
        })
        >>= λ after. get after id >>= λ out. ok (after, out)

  unfoldable pub add : Db → NewEntry → Result (Db × EntryOut)
  unfolding add_from
  add db input = add_from db input none

  -- `SELECT type = 'EXPENSE' AND deleted_at IS NULL`
  unfoldable pub is_expense : Db → ℕ → Bool
  unfolding find
  is_expense db id = elim (find category_key id db.categories) [
    | none ↦ false
    | some k ↦ not (is_income k.kind) && not k.deleted
  ]

  unfoldable pub borrow_in : Db → NewEntry → Expense → Option Text → Result (Db × EntryOut)
  unfolding parse_id is_expense Transactions.create add_from
  borrow_in db input expense origin = do
    fail_if (not (is_borrowed input.kind)) invalid_input
    category ← parse_id expense.category_id
    fail_if (not (is_expense db category)) invalid_input
    (spent_db, spent) ← Transactions.create c db (record {
      name = expense.name;
      amount = input.amount;
      payment_date = input.date;
      category_id = expense.category_id;
      description = none;
      client_uuid = none;
    })
    add_from spent_db (record input { transaction_id = some (show spent.id) }) origin

  unfoldable pub borrow_with_expense : Db → NewEntry → Expense → Result (Db × EntryOut)
  unfolding borrow_in
  borrow_with_expense db input expense = borrow_in db input expense none

  -- A person, and a transaction, of a patch.
  unfoldable pub new_person : Db → Text → Result ℕ
  unfolding parse_id person_exists
  new_person db text =
      parse_id text >>= λ id. if not (person_exists db id) then err invalid_input else ok id

  unfoldable pub new_link : Db → Option Text → Result (Option ℕ)
  unfolding parse_id transaction_exists
  new_link db none = ok none
  new_link db (some text) = parse_id text >>= λ id.
      if not (transaction_exists db id) then err invalid_input else ok (some id)

  unfoldable pub update : Db → ℕ → EntryPatch → Result (Db × EntryOut)
  unfolding get new_person clean_date new_link parse_id Table.update
  update db id patch = do
    current ← get db id
    person_id ← or_else patch.person_id (new_person db) (ok current.person_id)
    minor ← or_else patch.amount parse_positive_amount (parse_positive_amount current.amount)
    date ← or_else patch.date (clean_date c) (ok current.date)
    note ← or_else patch.note clean_note (ok current.note)
    link ← or_else patch.transaction_id (new_link db) (transpose parse_id current.transaction_id)
    let after : Db = record db {
      ledger =
          Table.update entry_id id
            (λ e. record e {
              person_id = person_id;
              kind = elim patch.kind [ none ↦ current.kind | some k ↦ k ];
              amount = minor;
              date = date;
              note = note;
              transaction_id = link;
            })
            db.ledger;
    } in
        get after id >>= λ out. ok (after, out)

unfoldable pub delete : Db → ℕ → Result Db
unfolding find Table.delete
delete db id = elim (find entry_id id db.ledger) [
  | none ↦ err not_found
  | some _ ↦ ok (record db { ledger = Table.delete entry_id id db.ledger })
]
