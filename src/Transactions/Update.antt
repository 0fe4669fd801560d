-- ===== src/Transactions/Update.antt =====
-- Editing a transaction: `update` of src-tauri/src/transactions.rs, with the triggers on `transactions`
-- in src-tauri/migrations/0012_debts.sql.
use meow_ny.Common.{ℕ, not, ◌&&◌, Option, none, some, ltb, ◌==◌, if◌then◌else◌, length}
use meow_ny.Common.Int.{pos}
use meow_ny.Common.Text.{Text}
use meow_ny.Common.Error.{
  Result, ok, err, invalid_input, not_found, internal, ◌>>=◌, ◌>>◌, fail_if, ok_or,
}
use meow_ny.Money.{parse_positive_amount, format_amount}
use meow_ny.Fields.{Calendar, parse_id, clean_name, clean_description, clean_date}
use meow_ny.Store.{Transaction, Db}
use meow_ny.Store.Table.{find, fresh}
use meow_ny.Store.Table as Table
use meow_ny.Splits.Lines.{lines_sum}
use meow_ny.Splits.Bill.{transaction_id, rescale}
use meow_ny.Transactions.{Shown, TransactionPatch, category_is_active, category_is_expense, get}

-- The columns that `update` writes.
pub record Columns : Type 0 where
  pub name : Text
  pub minor : ℕ
  pub date : Text
  pub category_id : ℕ
  pub description : Option Text

abbrev pub set_columns : Columns → Transaction → Transaction
set_columns new t = record t {
  name = new.name;
  amount = new.minor;
  payment_date = new.date;
  category_id = new.category_id;
  description = new.description;
}

-- `UPDATE transactions ..`, with `trg_transactions_split_amount` and `trg_transactions_split_category`.
unfoldable pub write_row : Db → ℕ → Columns → Result Db
unfolding find Table.update category_is_expense
write_row db id new = elim (find transaction_id id db.transactions) [
  | none ↦ ok db
  | some t ↦ do
    fail_if (not db.applying && ltb new.minor t.amount && ltb new.minor (lines_sum t.lines))
        internal
    fail_if
        (not db.applying
          && not (new.category_id == t.category_id)
          && not (length t.lines == 0)
          && not (category_is_expense db new.category_id))
        internal
    ok (record db {
      transactions = Table.update transaction_id id (set_columns new) db.transactions;
    })
]

-- `match &patch.field { Some(text) => clean(text)?, None => current }`
abbrev pub or_else {ℓ κ} :
    {A : Type ℓ} {B : Type κ} → Option A → (A → Result B) → Result B → Result B
or_else none f current = current
or_else (some a) f current = f a

-- The rescaling comes before the amount when it shrinks, and after it when it grows.
unfoldable pub store : Db → Transaction → Columns → Result Db
unfolding rescale write_row
store db t new = if length t.lines == 0 then write_row db t.id new else do
  shrunk ← if ltb new.minor t.amount then rescale db t.id t.amount new.minor else ok db
  written ← write_row shrunk t.id new
  if ltb t.amount new.minor then rescale written t.id t.amount new.minor else ok written

module _ (c : Calendar) where
  -- The category of a patch: one that is not the same must be active.
  unfoldable pub new_category : Db → Transaction → Text → Result ℕ
  unfolding parse_id category_is_active
  new_category db t text = parse_id text >>= λ id.
      if not (id == t.category_id) && not (category_is_active db id)
      then err invalid_input
      else ok id

  -- The columns of a patch, with the check that a split bill stays an expense.
  unfoldable pub patched : Db → Transaction → TransactionPatch → Result Columns
  unfolding clean_name clean_date new_category category_is_expense
  patched db t patch = do
    name ← or_else patch.name clean_name (ok t.name)
    minor ←
        or_else patch.amount parse_positive_amount
          (parse_positive_amount (format_amount (pos t.amount)))
    date ← or_else patch.payment_date (clean_date c) (ok t.payment_date)
    category_id ← or_else patch.category_id (new_category db t) (ok t.category_id)
    description ← or_else patch.description clean_description (ok t.description)
    fail_if
        (not (length t.lines == 0)
          && not (category_id == t.category_id)
          && not (category_is_expense db category_id))
        invalid_input
    ok (record {
      name = name;
      minor = minor;
      date = date;
      category_id = category_id;
      description = description;
    })

  unfoldable pub update : Db → ℕ → TransactionPatch → Result (Db × Shown)
  unfolding find patched store get
  update db id patch = do
    t ← ok_or (find transaction_id id db.transactions) not_found
    new ← patched db t patch
    after ← store db t new
    out ← get after id
    ok (after, out)
