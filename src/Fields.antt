-- ===== src/Fields.antt =====
-- The checks on single fields that come in as text: `parse_id` and `clean_name` of
-- src-tauri/src/categories.rs, the cleaners of src-tauri/src/transactions.rs and `clean_note` of
-- src-tauri/src/debts/ledger.rs. The calendar is the crate `chrono`, a parameter.
pub mod Shown
use meow_ny.Common.{
  ℕ, ◌+◌, Bool, true, false, not, ◌&&◌, ◌||◌, Option, none, some, List, [], ◌∷◌, ltb, leb, ◌==◌,
  if◌then◌else◌, all, any, length, map, ◌≡◌,
}
use mathlib.Core.List.{reverse}
use meow_ny.Common.Text.{Text, utf8_len, is_digit, is_empty, text_eq, lower_ascii}
use meow_ny.Common.Decimal.{value}
use meow_ny.Common.Error.{Result, ok, err, invalid_input, internal, ◌>>=◌, ◌>>◌, fail_if, ok_or}
use meow_ny.Money.{parse_i64}

-- `char::is_whitespace` and `char::is_control`
abbrev pub is_whitespace : ℕ → Bool
is_whitespace c =
    (leb 0x9 c && leb c 0xd)
    || (c == 0x20)
    || (c == 0x85)
    || (c == 0xa0)
    || (c == 0x1680)
    || (leb 0x2000 c && leb c 0x200a)
    || (c == 0x2028)
    || (c == 0x2029)
    || (c == 0x202f)
    || (c == 0x205f)
    || (c == 0x3000)

abbrev pub is_control : ℕ → Bool
is_control c = leb c 0x1f || (leb 0x7f c && leb c 0x9f)

unfoldable pub trim_start : Text → Text
trim_start [] = []
trim_start (c ∷ s) = if is_whitespace c then trim_start s else c ∷ s

-- `str::trim`
unfoldable pub trim : Text → Text
unfolding trim_start
trim s = reverse (trim_start (reverse (trim_start s)))

-- An id is decimal digits for an `i64` above 0.
unfoldable pub parse_id : Text → Result ℕ
parse_id text =
    if not (is_empty text) && all is_digit text
    then elim (parse_i64 text) [
      | none ↦ err invalid_input
      | some id ↦ if ltb 0 id then ok id else err invalid_input
    ]
    else err invalid_input

abbrev pub no_controls : Text → Bool
no_controls s = not (any is_control s)

-- `clean_name` of categories.rs and of transactions.rs, which are the same.
unfoldable pub clean_name : Text → Result Text
unfolding trim
clean_name name =
    let t = trim name in
    if (length t == 0) || ltb 50 (length t) || not (no_controls t) then err invalid_input else ok t

-- `text.map(str::trim).filter(|t| !t.is_empty())`, then at most `most` characters and no controls.
unfoldable pub clean_optional : ℕ → Option Text → Result (Option Text)
unfolding trim
clean_optional most none = ok none
clean_optional most (some text) =
    let t = trim text in
    if is_empty t
    then ok none
    else if ltb most (length t) || not (no_controls t)
    then err invalid_input
    else ok (some t)

abbrev pub clean_description : Option Text → Result (Option Text)
clean_description = clean_optional 255

abbrev pub clean_note : Option Text → Result (Option Text)
clean_note = clean_optional 200

abbrev pub is_hex_digit : ℕ → Bool
is_hex_digit c = is_digit c || (leb 0x61 c && leb c 0x66) || (leb 0x41 c && leb c 0x46)

-- `text.split('-')`
unfoldable pub split_on : ℕ → Text → List Text
split_on d [] = [] ∷ []
split_on d (c ∷ s) = elim (split_on d s) [
  | [] ↦ []
  | g ∷ gs ↦ if c == d then [] ∷ g ∷ gs else (c ∷ g) ∷ gs
]

-- `groups.iter().zip(shape).all(..)`
abbrev pub in_shape : List Text → List ℕ → Bool
in_shape [] shape = true
in_shape (g ∷ gs) [] = true
in_shape (g ∷ gs) (n ∷ shape) = ((utf8_len g == n) && all is_hex_digit g) && in_shape gs shape

unfoldable pub clean_uuid : Text → Result Text
unfolding split_on
clean_uuid text =
    let groups = split_on 0x2d text in
    if (length groups == 5) && in_shape groups (8 ∷ 4 ∷ 4 ∷ 4 ∷ 12 ∷ [])
    then ok (map lower_ascii text)
    else err invalid_input

-- What the code uses of `chrono::NaiveDate`: a day, its number, reading and showing it.
pub record Calendar : Type 1 where
  pub Day : Type 0
  -- `NaiveDate::parse_from_str(text, "%Y-%m-%d")`, which reads one-digit fields too
  pub read : Text → Option Day
  -- `text.parse::<NaiveDate>()`
  pub from_str : Text → Option Day
  -- `to_string` and `format("%Y-%m-%d")`
  pub show_day : Day → Text
  -- days since a fixed day: the order of days and the difference of two
  pub number : Day → ℕ
  pub add_days : Day → ℕ → Option Day
  pub add_months : Day → ℕ → Option Day

module _ (c : Calendar) where
  -- Only the text that the day is shown as is a date.
  unfoldable pub clean_date : Text → Result Text
  clean_date text = do
    day ← ok_or (c.read text) invalid_input
    if text_eq (c.show_day day) text then ok text else err invalid_input

  -- `parse_date` of recurring.rs: a clean date, read again.
  unfoldable pub parse_date : Text → Result c.Day
  unfolding clean_date
  parse_date text = do clean ← clean_date text; ok_or (c.from_str clean) internal
