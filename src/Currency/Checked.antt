-- ===== src/Currency/Checked.antt =====
-- What holds after a change of the currency.
use meow_ny.Common.{ℕ, ◌+◌, ◌≡◌, refl, true, false, Option, arith, inl, inr, Bool-cases}
use meow_ny.Common.Text.{Text, text_eq}
use meow_ny.Common.Error.{ok, transpose, Result-cases}
use meow_ny.Common.Sort.{Pairwise}
use meow_ny.Store.{Db}
use meow_ny.Splits.Check.{check, transaction_ok, recurring_ok, of_income}
use meow_ny.Stamp.{tick, format}
use meow_ny.Currency.Rows.{OtherId}
use meow_ny.Currency.Tables.{Converted, convert_all-Converted, same_tables}
use meow_ny.Currency.{Rate, Conversion, parse_rate, normalize_code, convert_all, recorded, change}

-- The tables as they are committed, from those that are converted.
abbrev committed : Db → Db → Text → Option Text → ℕ → Db
committed db converted new rate now =
    let (t, stamp) = tick now converted in
    record (recorded (t.currency_generation + 1) db.currency new rate (format stamp) t) {
      applying = false;
    }

committed_lem :
    (r : Option Rate) (db converted : Db) (new : Text) (rate : Option Text) (now : ℕ)
    → Converted r (record db { applying = true }) converted
    → check converted ≡ true
    → text_eq db.currency new ≡ false
    → Converted r db (committed db converted new rate now)
      × (check (committed db converted new rate now) ≡ true)
      × ((committed db converted new rate now).applying ≡ false)
      × (text_eq db.currency (committed db converted new rate now).currency ≡ false)
unfolding check transaction_ok recurring_ok of_income tick
committed_lem r db converted new rate now tables whole other = (
  same_tables r db converted (committed db converted new rate now) tables refl refl refl refl,
  whole,
  refl,
  other,
)

-- After a change of the currency that succeeds, with transactions of different ids: with a rate, each
-- transaction has its amount converted (a cent at least) and its planned amount converted, its parts are
-- the parts before rescaled from the old amount to the new one, and nothing else of its row changes;
-- each entry of the ledger and each recurring item with an amount has that amount converted (a cent at
-- least), and each budget its limit. Without a rate these tables are as they were. The rules of the parts
-- and templates hold of the tables as a whole, the currency is another one, and nothing is writing past
-- the checks any more.
pub change-check :
    (db after : Db) (new_currency : Text) (rate : Option Text) (now : ℕ) (done : Conversion)
    → Pairwise OtherId db.transactions
    → change db new_currency rate now ≡ ok (after, done)
    → (r : Option Rate) × (transpose parse_rate rate ≡ ok r)
      × Converted r db after
      × (check after ≡ true)
      × (after.applying ≡ false)
      × (text_eq db.currency after.currency ≡ false)
unfolding change check transaction_ok recurring_ok of_income tick
change-check db after new_currency rate now done apart e =
    elim (Result-cases (normalize_code new_currency)) [
      | inr (_, bad) ↦ absurd (ground arith)
      | inl (new, named) ↦ elim (Result-cases (transpose parse_rate rate)) [
        | inr (_, bad) ↦ absurd (ground arith)
        | inl (r, rated) ↦ elim (Bool-cases (text_eq db.currency new)) [
          | inl same ↦ absurd (ground arith)
          | inr other ↦ elim (Result-cases (convert_all r (record db { applying = true }))) [
            | inr (_, bad) ↦ absurd (ground arith)
            | inl ((converted, did), went) ↦ elim (Bool-cases (check converted)) [
              | inr broken ↦ absurd (cc)
              | inl whole ↦
                  let same : committed db converted new rate now ≡ after = ground arith in
                  let tables =
                    convert_all-Converted r (record db { applying = true }) converted did apart
                      went in
                  let (tables', whole', open_again, other') =
                    committed_lem r db converted new rate now tables whole other in
                  rw (← same) (r, rated, tables', whole', open_again, other')
            ]
          ]
        ]
      ]
    ]
