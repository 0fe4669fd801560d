-- ===== src/Recurring/Moves.antt =====
-- Moving an item on: `advance`, `later_occurrence`, `pay`, `skip`, `set_active` and `end` of
-- src-tauri/src/recurring.rs.
use meow_ny.Common.{
  ℕ, Bool, false, not, ◌&&◌, ◌||◌, Option, none, some, List, [], ◌∷◌, ◌++◌, leb, ◌==◌,
  if◌then◌else◌,
}
use meow_ny.Common.Text.{Text, text_eq, text_leb}
use meow_ny.Common.Sort.{sort}
use meow_ny.Common.Error.{
  unwrap_or, Result, ok, err, invalid_input, ◌>>=◌, ◌>>◌, fail_if, ok_or, transpose,
}
use meow_ny.Money.{parse_positive_amount}
use meow_ny.Fields.{Calendar, clean_description, clean_date, parse_date}
use meow_ny.Store.{Recurring, Transaction, Db}
use meow_ny.Store.Table.{find, fresh}
use meow_ny.Store.Table as Table
use meow_ny.Splits.Bill.{transaction_id}
use meow_ny.Splits.Template.{apply_template}
use meow_ny.Transactions.{Shown, category_is_active, category_is_expense}
use meow_ny.Transactions as Transactions
use meow_ny.Recurring.{
  u32_size, text_after, is_paid, is_skipped, first_on_or_after, next_after, past_end, open_from,
}
use meow_ny.Recurring.Items.{amount_text, get, optional_amount, write_item}

module _ (c : Calendar) where
  -- Where `advance` leaves an item: its next due date, and whether it goes on.
  abbrev pub landed : Recurring → Option c.Day → Text × Bool
  landed r none = (r.next_due_date, false)
  landed r (some next) = (c.show_day next, not (past_end c r.end_date (c.show_day next)))

  -- `skipped.contains(&text) || is_paid(conn, item.id, &text)?`
  abbrev pub closed : List Transaction → Recurring → Text → Bool
  closed payments r date = is_skipped r.skipped_dates date || is_paid payments r.id date

  -- The loop, from the occurrence after the one that the item is on.
  unfoldable pub next_open : List Transaction → Recurring → c.Day → c.Day → Option c.Day
  unfolding next_after open_from
  next_open payments r start due =
      open_from c (closed payments r) r.end_date start r.interval_unit r.interval_count u32_size
        (next_after c start r.interval_unit r.interval_count due)

  unfoldable pub advanced : List Transaction → Recurring → Result (Text × Bool)
  unfolding parse_date next_open
  advanced payments r = do
    start ← parse_date c r.start_date
    due ← parse_date c r.next_due_date
    ok (landed r (next_open payments r start due))

  unfoldable pub later_skipped : Text → List Text → List Text
  later_skipped next [] = []
  later_skipped next (d ∷ ds) =
      let rest = later_skipped next ds in if text_after d next then d ∷ rest else rest

  unfoldable pub advance : Db → Recurring → Result Db
  unfolding advanced later_skipped Table.update
  advance db r = advanced db.transactions r >>= λ (next, active). ok (
      write_item db r.id (λ x. record x {
        next_due_date = next;
        is_active = active;
        skipped_dates = later_skipped next r.skipped_dates;
      }))

  unfoldable pub find_active : Db → ℕ → Result Recurring
  unfolding get
  find_active db id = get db id >>= λ r. if r.is_active then ok r else err invalid_input

  -- `first_on_or_after(..) == Some(date)`
  unfoldable pub is_occurrence : Recurring → c.Day → c.Day → Bool
  unfolding first_on_or_after
  is_occurrence r start date =
      elim (first_on_or_after c start r.interval_unit r.interval_count date) [
        | none ↦ false
        | some due ↦ c.number due == c.number date
      ]

  unfoldable pub later_occurrence : Db → Recurring → Option Text → Result (Option Text)
  unfolding parse_date is_occurrence
  later_occurrence db r none = ok none
  later_occurrence db r (some due) = do
    date ← parse_date c due
    let text = c.show_day date in
        if text_eq text r.next_due_date
        then ok none
        else parse_date c r.start_date >>= λ start.
            if text_after r.next_due_date text
              || past_end c r.end_date text
              || not (is_occurrence r start date)
              || is_skipped r.skipped_dates text
              || is_paid db.transactions r.id text
            then err invalid_input
            else ok (some text)

  -- The payment of an occurrence.
  abbrev pub payment : ℕ → Recurring → Text → ℕ → Option ℕ → Text → Option Text → Transaction
  payment id r occurrence paid planned paid_on description = record {
    id = id;
    category_id = r.category_id;
    client_uuid = none;
    name = r.name;
    amount = paid;
    planned = planned;
    payment_date = paid_on;
    description = description;
    recurring_id = some r.id;
    recurring_due_date = some occurrence;
    lines = [];
  }

  -- `INSERT INTO transactions ..`: an occurrence is paid once (the unique index on the item and the
  -- due date).
  unfoldable pub insert_payment : Db → Recurring → Text → Transaction → Result Db
  insert_payment db r occurrence t =
      if is_paid db.transactions r.id occurrence
      then err invalid_input
      else ok (record db { transactions = db.transactions ++ t ∷ [] })

  unfoldable pub pay :
      Db → ℕ → Option Text → Option Text → Text → Option Text → Option Text → Result (Db × Shown)
  unfolding clean_date find_active later_occurrence optional_amount insert_payment apply_template
      advance Transactions.get
  pay db id amount paid_on today due_date description = do
    day ← clean_date c (unwrap_or paid_on today)
    actual ← transpose parse_positive_amount amount
    told ← transpose (λ text. clean_description (some text)) description
    r ← find_active db id
    later ← later_occurrence db r due_date
    planned ← optional_amount (amount_text r)
    paid ← ok_or (elim actual [ some n ↦ some n | none ↦ planned ]) invalid_input
    let occurrence = unwrap_or later r.next_due_date in
        let created = fresh transaction_id db.transactions in
        let t = payment created r occurrence paid planned day (unwrap_or told r.description) in
        insert_payment db r occurrence t >>= λ inserted.
        apply_template inserted created id paid >>= λ split.
        (elim later [ none ↦ advance split r | some _ ↦ ok split ]) >>= λ after.
        Transactions.get after created >>= λ out. ok (after, out)

  unfoldable pub skip : Db → ℕ → Option Text → Result (Db × Recurring)
  unfolding find_active later_occurrence advance sort Table.update get
  skip db id due_date = do
    r ← find_active db id
    later ← later_occurrence db r due_date
    after ← elim later [
      | none ↦ advance db r
      | some date ↦ ok (
          write_item db id
            (λ x. record x { skipped_dates = sort text_leb (r.skipped_dates ++ date ∷ []) }))
    ]
    out ← get after id
    ok (after, out)

  unfoldable pub set_active : Db → ℕ → Bool → Result (Db × Recurring)
  unfolding get Table.update
  set_active db id active = do
    r ← get db id
    fail_if (active && past_end c r.end_date r.next_due_date) invalid_input
    let after : Db = write_item db id (λ x. record x { is_active = active }) in
        get after id >>= λ out. ok (after, out)

  -- `max` and `min` of days
  abbrev pub later_day : c.Day → c.Day → c.Day
  later_day a b = if leb (c.number a) (c.number b) then b else a

  abbrev pub sooner_day : c.Day → c.Day → c.Day
  sooner_day a b = if leb (c.number a) (c.number b) then a else b

  unfoldable pub end : Db → ℕ → Text → Result (Db × Recurring)
  unfolding get parse_date Table.update
  end db id today_text = do
    r ← get db id
    today ← parse_date c today_text
    start ← parse_date c r.start_date
    last ← elim r.end_date [
      | none ↦ ok (later_day today start)
      | some text ↦
          parse_date c text >>= λ existing. ok (sooner_day (later_day today start) existing)
    ]
    let after : Db =
          write_item db id
            (λ x. record x { is_active = false; end_date = some (c.show_day last) }) in
        get after id >>= λ out. ok (after, out)
