-- ===== src/Fields/Shown.antt =====
-- Ids and amounts that the program writes are read back as themselves.
use meow_ny.Common.{ℕ, ◌≤◌, ◌<◌, ◌≡◌, true, [], ◌∷◌, arith, all}
use meow_ny.Common.Int.{pos}
use meow_ny.Common.Text.{Text, is_digit}
use meow_ny.Common.Decimal.{show, digits_of, value, value-digits_of, digits_of-digits}
use meow_ny.Common.Error.{ok}
use meow_ny.Money.{max_minor, parse_positive_amount, format_amount}
use meow_ny.Money.RoundTrip.{parse_amount-format_amount}
use meow_ny.Fields.{parse_id}

parse_id-digits :
    (s : Text) (id : ℕ)
    → all is_digit s ≡ true
    → value s ≡ id
    → 1 ≤ id
    → id < 0x8000000000000000
    → parse_id s ≡ ok id
unfolding parse_id
parse_id-digits [] id ds v some_id small = absurd (omega arith)
parse_id-digits (c ∷ s) id ds v some_id small = rw (ds, v) (ground arith)

pub parse_id-show : (id : ℕ) → 1 ≤ id → id < 0x8000000000000000 → parse_id (show id) ≡ ok id
unfolding show
parse_id-show id some_id small =
    parse_id-digits (digits_of 20 id) id (digits_of-digits 20 id)
      (value-digits_of 20 id (omega arith) (omega arith)) some_id small

pub parse_positive_amount-format_amount :
    (n : ℕ) → 1 ≤ n → n ≤ max_minor → parse_positive_amount (format_amount (pos n)) ≡ ok n
unfolding parse_positive_amount
parse_positive_amount-format_amount n some_n small =
    ground (arith, parse_amount-format_amount n small)
