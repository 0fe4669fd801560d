-- ===== src/Tests/Changes.antt =====
-- A change of the currency of the small database, and its clock.
use meow_ny.Common.{◌+◌, ◌*◌, ◌≤◌, ◌<◌, ◌≡◌, refl, Option, some, [], ◌∷◌, true, false, arith}
use meow_ny.Common.Text.{Text, text_eq}
use meow_ny.Common.Error.{ok, transpose}
use meow_ny.Money.{max_minor}
use meow_ny.Store.{Db}
use meow_ny.Splits.Lines.{shrink_lines, wanted, grow_lines, update_line, add_lines}
use meow_ny.Splits.Check.{check}
use meow_ny.Stamp.{Stamp, tick, observe, parse, format}
use meow_ny.Stamp.Newer.{Before, tick_after_observe}
use meow_ny.Stamp.RoundTrip.{parse-format}
use meow_ny.Currency.{Rate, Conversion, parse_rate, convert, change, recorded}
use meow_ny.Currency.Rounding.{convert_half_up}
use meow_ny.Currency.Tables.{Converted}
use meow_ny.Currency.Checked.{change-check}
use meow_ny.Tests.Data.{ana_part, guest_part, dinner, rent, loan, device, books}

abbrev seen : Stamp
seen = record { ms = 5000; counter = 65535; device = b'8' ∷ [] }

tick_after_observe_example :
    Before 5000 65535 (tick 3000 (observe seen books)).1
    × Before 1000 7 (tick 3000 (observe seen books)).1
    × ((tick 3000 (observe seen books)).1.counter ≤ 65535)
tick_after_observe_example = tick_after_observe books seen 3000 (omega arith) (omega arith)

abbrev written_stamp : Stamp
written_stamp = record {
  ms = 2000;
  counter = 48879;
  device = b'0' ∷ b'1' ∷ b'2' ∷ b'3' ∷ b'a' ∷ b'b' ∷ b'c' ∷ b'f' ∷ [];
}

parse-format_example : parse (format written_stamp) ≡ some written_stamp
parse-format_example = parse-format written_stamp (omega arith) (omega arith) refl refl

abbrev three_halves : Rate
three_halves = record { numerator = 15; denominator = 10 }

half_up : convert 333 three_halves ≡ ok 500
unfolding convert
half_up = refl

convert_half_up_example :
    (500 * 10 * 2 ≤ 333 * 15 * 2 + 10) × (333 * 15 * 2 < 500 * 10 * 2 + 10) × (500 ≤ max_minor)
convert_half_up_example = convert_half_up 333 500 three_halves (omega arith) half_up

abbrev usd : Text
usd = b'U' ∷ b'S' ∷ b'D' ∷ []

abbrev two : Text
two = b'2' ∷ []

abbrev doubled : Db
doubled = record books {
  transactions =
      record dinner {
        amount = 2000;
        lines = record ana_part { amount = 600 } ∷ record guest_part { amount = 400 } ∷ [];
      }
      ∷ [];
  recurring = record rent { amount = some 1000 } ∷ [];
  ledger = record loan { amount = 100 } ∷ [];
  budgets = record { id = 1; limit = some 40000 } ∷ [];
  clock = record { last_ms = 2000; last_counter = 0; device_id = device };
}

abbrev new_stamp : Text
new_stamp = format (record {
  ms = 2000;
  counter = 0;
  device = b'0' ∷ b'1' ∷ b'2' ∷ b'3' ∷ b'4' ∷ b'5' ∷ b'6' ∷ b'7' ∷ [];
})

abbrev in_usd : Db
in_usd = recorded 1 books.currency usd (some two) new_stamp doubled

abbrev four_rows : Conversion
four_rows = record { transactions = 1; recurring = 1; budgets = 1; ledger = 1 }

doubled_made : change books usd (some two) 2000 ≡ ok (in_usd, four_rows)
unfolding change shrink_lines wanted grow_lines update_line add_lines
doubled_made = refl

change-check_example :
    (r : Option Rate) × (transpose parse_rate (some two) ≡ ok r)
    × Converted r books in_usd
    × (check in_usd ≡ true)
    × (in_usd.applying ≡ false)
    × (text_eq books.currency in_usd.currency ≡ false)
change-check_example = change-check books in_usd usd (some two) 2000 four_rows (tt, tt) doubled_made
