-- ===== src/Transactions.antt =====
-- Income and expenses: `create`, `get`, `update` and `delete` of src-tauri/src/transactions.rs, with
-- the checks that the database makes (the triggers on `transactions` in
-- src-tauri/migrations/0012_debts.sql). The race of two writers is not modelled: one connection holds
-- the database while an operation runs.
pub mod Update
pub mod Again
pub mod Edit
use meow_ny.Common.{
  ℕ, ◌+◌, ◌-◌, ◌≡◌, Bool, true, false, not, ◌&&◌, ◌||◌, Option, none, some, List, [], ◌∷◌, ◌++◌,
  ltb, leb, ◌==◌, if◌then◌else◌, length, map,
}
use meow_ny.Common.Int.{pos}
use meow_ny.Common.Text.{Text, text_eq}
use meow_ny.Common.Decimal.{show}
use meow_ny.Common.Error.{
  Result, ok, err, invalid_input, not_found, internal, ◌>>=◌, ◌>>◌, fail_if, ok_or, transpose,
}
use meow_ny.Money.{parse_positive_amount, format_amount}
use meow_ny.Fields.{Calendar, parse_id, clean_name, clean_description, clean_date, clean_uuid}
use meow_ny.Store.{
  person, guest, Line, Category, CategoryType, income, expense, Person, Transaction, Entry, Db,
}
use meow_ny.Store.Table.{find, fresh}
use meow_ny.Store.Table as Table
use meow_ny.Splits.Lines.{lines_sum}
use meow_ny.Splits.Bill.{
  transaction_id, category_key, person_key, is_income, cost, PartOut, rescale,
}

-- A transaction as it is shown (`Transaction` of the source).
pub record Shown : Type 0 where
  pub id : ℕ
  pub category_id : ℕ
  pub client_uuid : Option Text
  pub name : Text
  pub amount : Text
  pub my_share : Text
  pub split : List PartOut
  pub payment_date : Text
  pub description : Option Text

pub record NewTransaction : Type 0 where
  pub name : Text
  pub amount : Text
  pub payment_date : Text
  pub category_id : Text
  pub description : Option Text
  pub client_uuid : Option Text

-- Fields left out (`none`) stay as they are; `some none` clears the description.
pub record TransactionPatch : Type 0 where
  pub name : Option Text
  pub amount : Option Text
  pub payment_date : Option Text
  pub category_id : Option Text
  pub description : Option (Option Text)

-- A part as `parts_of` reads it: the name of a friend comes from a LEFT JOIN.
unfoldable pub part_shown : Db → Line → PartOut
unfolding find
part_shown db l = elim l.who [
  | person id ↦ record {
    person_id = some (show id);
    person = elim (find person_key id db.people) [ none ↦ none | some p ↦ some p.name ];
    guest = none;
    amount = format_amount (pos l.amount);
  }
  | guest name ↦ record {
    person_id = none;
    person = none;
    guest = some name;
    amount = format_amount (pos l.amount);
  }
]

-- `from_row` and `hydrate`
unfoldable pub shown : Db → Transaction → Shown
unfolding part_shown
shown db t = record {
  id = t.id;
  category_id = t.category_id;
  client_uuid = t.client_uuid;
  name = t.name;
  amount = format_amount (pos t.amount);
  my_share = format_amount (cost t);
  split = map (part_shown db) t.lines;
  payment_date = t.payment_date;
  description = t.description;
}

unfoldable pub get : Db → ℕ → Result Shown
unfolding find shown
get db id = elim (find transaction_id id db.transactions) [
  | none ↦ err not_found
  | some t ↦ ok (shown db t)
]

abbrev pub has_uuid : Text → Transaction → Bool
has_uuid uuid t = elim t.client_uuid [ none ↦ false | some u ↦ text_eq u uuid ]

-- `SELECT .. WHERE client_uuid = ?`
unfoldable pub find_by_uuid : Text → List Transaction → Option Transaction
find_by_uuid uuid [] = none
find_by_uuid uuid (t ∷ ts) = if has_uuid uuid t then some t else find_by_uuid uuid ts

-- The transaction that an earlier call with the same uuid made.
unfoldable pub existing : Db → Option Text → Option Transaction
unfolding find_by_uuid
existing db none = none
existing db (some uuid) = find_by_uuid uuid db.transactions

unfoldable pub category_is_active : Db → ℕ → Bool
unfolding find
category_is_active db id = elim (find category_key id db.categories) [
  | none ↦ false
  | some c ↦ not c.deleted
]

unfoldable pub category_is_expense : Db → ℕ → Bool
unfolding find
category_is_expense db id = elim (find category_key id db.categories) [
  | none ↦ false
  | some c ↦ not (is_income c.kind)
]

abbrev pub one_made : ℕ → ℕ → Option Text → Text → ℕ → Text → Option Text → Transaction
one_made id category_id uuid name minor date description = record {
  id = id;
  category_id = category_id;
  client_uuid = uuid;
  name = name;
  amount = minor;
  planned = none;
  payment_date = date;
  description = description;
  recurring_id = none;
  recurring_due_date = none;
  lines = [];
}

module _ (c : Calendar) where
  unfoldable pub create : Db → NewTransaction → Result (Db × Shown)
  unfolding clean_name clean_date parse_id clean_uuid existing category_is_active shown
  create db input = do
    name ← clean_name input.name
    minor ← parse_positive_amount input.amount
    date ← clean_date c input.payment_date
    category_id ← parse_id input.category_id
    description ← clean_description input.description
    uuid ← transpose clean_uuid input.client_uuid
    elim (existing db uuid) [
      | some t ↦ ok (db, shown db t)
      | none ↦ fail_if (not (category_is_active db category_id)) invalid_input >>= λ _.
          let id = fresh transaction_id db.transactions in
          let t = one_made id category_id uuid name minor date description in
          ok (record db { transactions = db.transactions ++ t ∷ [] }, shown db t)
    ]

-- `ON DELETE SET NULL` of an entry of the ledger that is linked to the transaction.
abbrev pub unlink : ℕ → Entry → Entry
unlink id e = elim e.transaction_id [
  | none ↦ e
  | some t ↦ if t == id then record e { transaction_id = none } else e
]

-- Deleting a transaction takes its parts with it, and leaves the entries that are linked to it.
unfoldable pub delete : Db → ℕ → Result Db
unfolding find Table.delete
delete db id = elim (find transaction_id id db.transactions) [
  | none ↦ err not_found
  | some _ ↦ ok (record db {
    transactions = Table.delete transaction_id id db.transactions;
    ledger = map (unlink id) db.ledger;
  })
]
