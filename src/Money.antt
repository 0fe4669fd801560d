-- ===== src/Money.antt =====
-- Amounts of money: src-tauri/src/money.rs. An amount in minor units is an `i64`; one that was read
-- is not negative, so it is a natural here, and one that is shown is in ℤ.
pub mod RoundTrip
use meow_ny.Common.{
  ℕ, ◌+◌, ◌*◌, ◌/◌, ◌%◌, Bool, true, not, ◌&&◌, ◌||◌, Option, none, some, List, [], ◌∷◌, ◌++◌, ltb,
  leb, ◌==◌, if◌then◌else◌, all,
}
use meow_ny.Common.Int.{ℤ, pos, negsuc, abs, ltb_ℤ}
use meow_ny.Common.Text.{Text, utf8_len, is_digit, is_empty, starts_with, split_once}
use meow_ny.Common.Decimal.{show, value}
use meow_ny.Common.Error.{Result, ok, err, invalid_input, ◌>>=◌, ◌>>◌, fail_if, ok_or}

abbrev pub max_minor : ℕ
max_minor = 999_999_999_999

-- The closure `digits`: at least one character, and only ASCII digits.
abbrev pub digits : Text → Bool
digits s = not (is_empty s) && all is_digit s

-- `parse::<i64>` of a text of digits, which fails when the number is no `i64`.
abbrev pub parse_i64 : Text → Option ℕ
parse_i64 s = if ltb (value s) 0x8000000000000000 then some (value s) else none

-- The test on the whole part, and the one on the decimals.
unfoldable pub whole_ok : Text → Bool
whole_ok whole = not (
    not (digits whole)
    || ltb 10 (utf8_len whole)
    || (ltb 1 (utf8_len whole) && starts_with b'0' whole))

unfoldable pub fraction_ok : Text → Bool
fraction_ok fraction = not (not (utf8_len fraction == 2) || not (digits fraction))

unfoldable pub parse_amount : Text → Result ℕ
parse_amount text = do
  (whole, fraction) ← ok_or (split_once b'.' text) invalid_input
  fail_if (not (whole_ok whole)) invalid_input
  fail_if (not (fraction_ok fraction)) invalid_input
  minor ← ok_or (parse_i64 (whole ++ fraction)) invalid_input
  fail_if (ltb max_minor minor) invalid_input
  ok minor

unfoldable pub parse_positive_amount : Text → Result ℕ
unfolding parse_amount
parse_positive_amount text = do
  minor ← parse_amount text
  if minor == 0 then err invalid_input else ok minor

-- `{:02}` of a number below 100
abbrev pub two_digits : ℕ → Text
two_digits n = (n / 10 + b'0') ∷ (n % 10 + b'0') ∷ []

unfoldable pub format_amount : ℤ → Text
format_amount minor =
    let sign : Text = if ltb_ℤ minor (pos 0) then b'-' ∷ [] else [] in
    sign ++ (show (abs minor / 100) ++ b'.' ∷ two_digits (abs minor % 100))
