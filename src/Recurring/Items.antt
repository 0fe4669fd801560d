-- ===== src/Recurring/Items.antt =====
-- The recurring items themselves: `create`, `update` and `delete` of
-- src-tauri/src/recurring.rs. The column `skipped_dates`, which is
-- JSON text, is the list that it stands for.
use meow_ny.Common.{
  ℕ, Bool, true, false, not, ◌&&◌, ◌||◌, Option, none, some, [], ◌∷◌, ◌++◌, ltb, ◌==◌, map,
  if◌then◌else◌,
}
use meow_ny.Common.Int.{pos}
use meow_ny.Common.Text.{Text, text_eq, is_empty}
use meow_ny.Common.Error.{
  unwrap_or, Result, ok, err, invalid_input, not_found, ◌>>=◌, ◌>>◌, fail_if, ok_or,
}
use meow_ny.Money.{parse_positive_amount, format_amount}
use meow_ny.Fields.{Calendar, trim, parse_id, clean_name, clean_description, parse_date}
use meow_ny.Store.{IntervalUnit, Recurring, Transaction, Db}
use meow_ny.Store.Table.{find, fresh}
use meow_ny.Store.Table as Table
use meow_ny.Splits.Template.{recurring_key}
use meow_ny.Transactions.{category_is_active, category_is_expense}
use meow_ny.Transactions.Update.{or_else}
use meow_ny.Recurring.{first_on_or_after}

pub record NewRecurring : Type 0 where
  pub name : Text
  pub amount : Option Text
  pub category_id : Text
  pub start_date : Text
  pub interval_unit : IntervalUnit
  pub interval_count : ℕ
  pub end_date : Option Text
  pub description : Option Text

pub record RecurringPatch : Type 0 where
  pub name : Option Text
  pub amount : Option (Option Text)
  pub category_id : Option Text
  pub start_date : Option Text
  pub interval_unit : Option IntervalUnit
  pub interval_count : Option ℕ
  pub end_date : Option (Option Text)
  pub description : Option (Option Text)

-- No amount, or an empty one, means that the bill varies.
unfoldable pub optional_amount : Option Text → Result (Option ℕ)
unfolding trim
optional_amount none = ok none
optional_amount (some text) =
    if is_empty (trim text)
    then ok none
    else parse_positive_amount (trim text) >>= λ minor. ok (some minor)

-- The amount of an item as `from_row` reads it.
abbrev pub amount_text : Recurring → Option Text
amount_text r = elim r.amount [ none ↦ none | some n ↦ some (format_amount (pos n)) ]

abbrev pub clean_count : ℕ → Result ℕ
clean_count count = if (count == 0) || ltb 1000 count then err invalid_input else ok count

abbrev pub is_unit : IntervalUnit → IntervalUnit → Bool
is_unit IntervalUnit.day IntervalUnit.day = true
is_unit IntervalUnit.week IntervalUnit.week = true
is_unit IntervalUnit.month IntervalUnit.month = true
is_unit IntervalUnit.year IntervalUnit.year = true
is_unit _ _ = false

unfoldable pub get : Db → ℕ → Result Recurring
unfolding find
get db id = ok_or (find recurring_key id db.recurring) not_found

abbrev pub write_item : Db → ℕ → (Recurring → Recurring) → Db
write_item db id f = record db { recurring = Table.update recurring_key id f db.recurring }

-- `ON DELETE SET NULL` of the payments of an item.
abbrev pub unlink_payment : ℕ → Transaction → Transaction
unlink_payment id t = elim t.recurring_id [
  | none ↦ t
  | some r ↦ if r == id then record t { recurring_id = none } else t
]

unfoldable pub delete : Db → ℕ → Result Db
unfolding find Table.delete
delete db id = elim (find recurring_key id db.recurring) [
  | none ↦ err not_found
  | some _ ↦ ok (record db {
    recurring = Table.delete recurring_key id db.recurring;
    transactions = map (unlink_payment id) db.transactions;
  })
]

module _ (c : Calendar) where
  unfoldable pub clean_end : c.Day → Option Text → Result (Option Text)
  unfolding parse_date
  clean_end start none = ok none
  clean_end start (some text) = parse_date c text >>= λ day.
      if ltb (c.number day) (c.number start) then err invalid_input else ok (some text)

  unfoldable pub create : Db → NewRecurring → Result (Db × Recurring)
  unfolding clean_name optional_amount parse_id parse_date clean_end category_is_active get
  create db input = do
    name ← clean_name input.name
    minor ← optional_amount input.amount
    category_id ← parse_id input.category_id
    start ← parse_date c input.start_date
    count ← clean_count input.interval_count
    end ← clean_end start input.end_date
    description ← clean_description input.description
    fail_if (not (category_is_active db category_id)) invalid_input
    let r : Recurring = record {
      id = fresh recurring_key db.recurring;
      category_id = category_id;
      name = name;
      description = description;
      amount = minor;
      start_date = input.start_date;
      interval_unit = input.interval_unit;
      interval_count = count;
      next_due_date = input.start_date;
      end_date = end;
      is_active = true;
      skipped_dates = [];
      my_weight = none;
      template = [];
    } in
        ok (record db { recurring = db.recurring ++ r ∷ [] }, r)

  unfoldable pub new_category : Db → Recurring → Text → Result ℕ
  unfolding parse_id category_is_active
  new_category db r text = parse_id text >>= λ id.
      if not (id == r.category_id) && not (category_is_active db id)
      then err invalid_input
      else ok id

  abbrev pub schedule_changed : Recurring → Text → IntervalUnit → ℕ → Bool
  schedule_changed r start_text unit count =
      not (text_eq start_text r.start_date)
      || not (is_unit unit r.interval_unit)
      || not (count == r.interval_count)

  -- The next due date after an edit.
  unfoldable pub moved_due : Recurring → c.Day → IntervalUnit → ℕ → Bool → Result Text
  unfolding parse_date first_on_or_after
  moved_due r start unit count false = ok r.next_due_date
  moved_due r start unit count true = parse_date c r.next_due_date >>= λ old.
      ok_or (first_on_or_after c start unit count old) invalid_input >>= λ due. ok (c.show_day due)

  unfoldable pub update : Db → ℕ → RecurringPatch → Result (Db × Recurring)
  unfolding get clean_name optional_amount new_category category_is_expense parse_date clean_end
      moved_due Table.update
  update db id patch = do
    r ← get db id
    name ← or_else patch.name clean_name (ok r.name)
    minor ← or_else patch.amount optional_amount (optional_amount (amount_text r))
    category_id ← or_else patch.category_id (new_category db r) (ok r.category_id)
    description ← or_else patch.description clean_description (ok r.description)
    fail_if
        (elim r.my_weight [ none ↦ false | some _ ↦ true ]
          && not (category_id == r.category_id)
          && not (category_is_expense db category_id))
        invalid_input
    start ← parse_date c (unwrap_or patch.start_date r.start_date)
    count ← clean_count (unwrap_or patch.interval_count r.interval_count)
    end ← clean_end start (unwrap_or patch.end_date r.end_date)
    let start_text = unwrap_or patch.start_date r.start_date in
        let unit = unwrap_or patch.interval_unit r.interval_unit in
        let changed = schedule_changed r start_text unit count in
        moved_due r start unit count changed >>= λ next_due.
        let after : Db = write_item db id (λ r. record r {
          name = name;
          description = description;
          amount = minor;
          category_id = category_id;
          start_date = start_text;
          interval_unit = unit;
          interval_count = count;
          next_due_date = next_due;
          end_date = end;
          skipped_dates = if changed then [] else r.skipped_dates;
        }) in
        get after id >>= λ out. ok (after, out)
