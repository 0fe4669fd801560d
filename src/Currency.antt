-- ===== src/Currency.antt =====
-- Changing the currency: src-tauri/src/currency.rs. A change that fails leaves every table as it was.
-- The audit log, which the code only writes, is left out.
pub mod Rounding
pub mod Parts
pub mod Rows
pub mod Tables
pub mod Checked
use meow_ny.Common.{
  ℕ, suc, ◌+◌, ◌-◌, ◌*◌, ◌/◌, ◌^◌, ◌≡◌, Bool, true, false, not, ◌&&◌, ◌||◌, Option, none, some,
  List, [], ◌∷◌, ◌++◌, ltb, leb, ◌==◌, max, all, any, map, length, if◌then◌else◌,
}
use meow_ny.Common.Text.{Text, utf8_len, is_digit, is_empty, starts_with, split_once, text_eq}
use meow_ny.Common.Decimal.{value}
use meow_ny.Common.Error.{
  unwrap_or, Result, ok, err, invalid_input, internal, ◌>>=◌, ◌>>◌, fail_if, ok_or, transpose,
  traverse,
}
use meow_ny.Money.{max_minor}
use meow_ny.Fields.{trim}
use meow_ny.Store.{Transaction, Recurring, Entry, Budget, CurrencyChange, Db}
use meow_ny.Store.Table.{update}
use meow_ny.Splits.Bill.{transaction_id, rescale}
use meow_ny.Splits.Check.{check}
use meow_ny.Stamp.{tick, format}

pub record Rate : Type 0 where
  pub numerator : ℕ
  pub denominator : ℕ

pub record Conversion : Type 0 where
  pub transactions : ℕ
  pub recurring : ℕ
  pub budgets : ℕ
  pub ledger : ℕ

abbrev pub nothing_converted : Conversion
nothing_converted = record { transactions = 0; recurring = 0; budgets = 0; ledger = 0 }

-- `text.split_once('.').unwrap_or((text, ""))`
unfoldable pub rate_parts : Text → Text × Text
unfolding split_once
rate_parts text = elim (split_once b'.' text) [ none ↦ (text, []) | some parts ↦ parts ]

abbrev pub has_dot : Text → Bool
has_dot text = any (λ c. c == b'.') text

unfoldable pub well_formed : Text → Text → Text → Bool
well_formed text whole fraction =
    not (is_empty whole)
    && leb (utf8_len whole) 9
    && all is_digit whole
    && not (ltb 1 (utf8_len whole) && starts_with b'0' whole)
    && all is_digit fraction
    && leb (utf8_len fraction) 8
    && not (has_dot text && is_empty fraction)

-- The numerator has at most 17 digits, so it is an `i128`.
unfoldable pub parse_rate : Text → Result Rate
unfolding rate_parts well_formed
parse_rate text =
    let (whole, fraction) = rate_parts text in
    if not (well_formed text whole fraction)
    then err invalid_input
    else if value (whole ++ fraction) == 0
    then err invalid_input
    else ok (record { numerator = value (whole ++ fraction); denominator = 10 ^ utf8_len fraction })

unfoldable pub convert : ℕ → Rate → Result ℕ
convert minor rate =
    let rounded = (minor * rate.numerator * 2 + rate.denominator) / (2 * rate.denominator) in
    if leb rounded max_minor then ok rounded else err invalid_input

unfoldable pub convert_at : ℕ → Text → Result ℕ
unfolding parse_rate convert
convert_at minor rate = parse_rate rate >>= λ r. convert minor r

abbrev pub upper_ascii : ℕ → ℕ
upper_ascii c = if leb b'a' c && leb c b'z' then c - 32 else c

abbrev pub is_upper : ℕ → Bool
is_upper c = leb b'A' c && leb c b'Z'

unfoldable pub normalize_code : Text → Result Text
unfolding trim
normalize_code code =
    let c = map upper_ascii (trim code) in
    if (utf8_len c == 3) && all is_upper c then ok c else err invalid_input

abbrev pub at_least_one : ℕ → ℕ
at_least_one minor = max minor 1

-- `UPDATE transactions SET amount_minor = ?1, planned_amount_minor = ?2 WHERE id = ?3`
abbrev pub set_amounts : ℕ → Option ℕ → Transaction → Transaction
set_amounts amount planned t = record t { amount = amount; planned = planned }

-- The loop of `convert_transactions`, over the rows as they were read.
unfoldable pub convert_rows : Rate → List Transaction → Db → Result Db
unfolding convert update rescale
convert_rows rate [] db = ok db
convert_rows rate (t ∷ ts) db = do
  amount ← convert t.amount rate
  planned ← transpose (λ p. convert p rate) t.planned
  rescaled ←
      rescale
        (record db {
          transactions =
              update transaction_id t.id (set_amounts (at_least_one amount) planned)
                db.transactions;
        })
        t.id t.amount (at_least_one amount)
  convert_rows rate ts rescaled

unfoldable pub convert_transactions : Rate → Db → Result Db
unfolding convert_rows
convert_transactions rate db = convert_rows rate db.transactions db

abbrev pub convert_entry : Rate → Entry → Result Entry
convert_entry rate e = convert e.amount rate >>= λ n. ok (record e { amount = at_least_one n })

abbrev pub convert_item : Rate → Recurring → Result Recurring
convert_item rate r =
    transpose (λ a. convert a rate >>= λ n. ok (at_least_one n)) r.amount >>= λ amount.
    ok (record r { amount = amount })

abbrev pub convert_budget : Rate → Budget → Result Budget
convert_budget rate b =
    transpose (λ l. convert l rate) b.limit >>= λ limit. ok (record b { limit = limit })

unfoldable pub convert_ledger : Rate → Db → Result Db
convert_ledger rate db =
    traverse (convert_entry rate) db.ledger >>= λ ledger. ok (record db { ledger = ledger })

unfoldable pub convert_recurring : Rate → Db → Result Db
convert_recurring rate db =
    traverse (convert_item rate) db.recurring >>= λ items. ok (record db { recurring = items })

unfoldable pub convert_budgets : Rate → Db → Result Db
convert_budgets rate db =
    traverse (convert_budget rate) db.budgets >>= λ budgets. ok (record db { budgets = budgets })

abbrev pub with_amount : List Recurring → ℕ
with_amount [] = 0
with_amount (r ∷ rs) = elim r.amount [ none ↦ with_amount rs | some _ ↦ suc (with_amount rs) ]

abbrev pub with_limit : List Budget → ℕ
with_limit [] = 0
with_limit (b ∷ bs) = elim b.limit [ none ↦ with_limit bs | some _ ↦ suc (with_limit bs) ]

-- `if let Some(rate) = rate { .. }`
unfoldable pub convert_all : Option Rate → Db → Result (Db × Conversion)
unfolding convert_transactions convert_recurring convert_budgets convert_ledger
convert_all none db = ok (db, nothing_converted)
convert_all (some rate) db = do
  a ← convert_transactions rate db
  b ← convert_recurring rate a
  c ← convert_budgets rate b
  d ← convert_ledger rate c
  ok (
    d,
    record {
      transactions = length db.transactions;
      recurring = with_amount db.recurring;
      budgets = with_limit db.budgets;
      ledger = length db.ledger;
    },
  )

-- `currency_generation + 1` and the row of `currency_changes`.
abbrev pub recorded : ℕ → Text → Text → Option Text → Text → Db → Db
recorded generation old new rate stamp db = record db {
  currency = new;
  currency_generation = generation;
  currency_changes =
      db.currency_changes
      ++ record {
        id = generation;
        from_currency = old;
        to_currency = new;
        rate = rate;
        stamp = stamp;
      }
        ∷ [];
}

unfoldable pub change : Db → Text → Option Text → ℕ → Result (Db × Conversion)
unfolding normalize_code parse_rate convert_all check tick format
change db new_currency rate_text now = do
  new ← normalize_code new_currency
  rate ← transpose parse_rate rate_text
  fail_if (text_eq db.currency new) invalid_input
  (converted, done) ← convert_all rate (record db { applying = true })
  fail_if (not (check converted)) internal
  let (ticked, stamp) = tick now converted in
      let after =
        recorded (ticked.currency_generation + 1) db.currency new rate_text (format stamp) ticked in
      ok (record after { applying = false }, done)

-- A change that another device made (`Recorded`).
pub record Recorded : Type 0 where
  pub generation : ℕ
  pub from : Text
  pub to : Text
  pub rate : Option Text
  pub stamp : Text

unfoldable pub apply_recorded : Db → Recorded → Result (Db × Conversion)
unfolding normalize_code parse_rate convert_all check
apply_recorded db c = do
  fail_if
      (not (c.generation == db.currency_generation + 1)
        || not (text_eq db.currency c.from)
        || text_eq c.from c.to)
      invalid_input
  code ← normalize_code c.to
  fail_if (not (text_eq code c.to)) invalid_input
  rate ← transpose parse_rate c.rate
  (converted, done) ← convert_all rate db
  fail_if (not (check converted)) internal
  ok (recorded c.generation c.from c.to c.rate c.stamp converted, done)
