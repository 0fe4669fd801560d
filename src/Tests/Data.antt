-- ===== src/Tests/Data.antt =====
-- A small database, and a calendar: a day is a number, shown in decimal digits.
use meow_ny.Common.{
  ℕ, ◌+◌, ◌*◌, ◌%◌, refl, true, false, not, ◌&&◌, Option, none, some, [], ◌∷◌, all, if◌then◌else◌,
  arith, map,
}
use meow_ny.Common.Text.{Text, is_digit, is_empty, lower_ascii, text_eq_iff}
use meow_ny.Common.Decimal.{show, value}
use meow_ny.Fields.{Calendar}
use meow_ny.Store.{
  person, guest, Line, Category, expense, Person, Transaction, Recurring, lent, Entry, Db, month,
}
use meow_ny.Splits.Lines.{Bill}
use meow_ny.Splits.Lines.Exact.{IsBill}
use meow_ny.Splits.Input.Named.{FoldsAscii}
use meow_ny.Recurring.{u32_size}
use meow_ny.Recurring.Open.{Bounded}

abbrev pub read_number : Text → Option ℕ
read_number text = if not (is_empty text) && all is_digit text then some (value text) else none

abbrev pub flat : Calendar
flat = record {
  Day = ℕ;
  read = read_number;
  from_str = read_number;
  show_day = show;
  number = λ d. d % u32_size;
  add_days = λ d n. some (d + n);
  add_months = λ d n. some (d + 30 * n);
}

pub flat-Bounded : Bounded flat
flat-Bounded d = omega arith

-- `to_lowercase`, for texts of ASCII
abbrev pub to_lower : Text → Text
to_lower = map lower_ascii

pub to_lower-FoldsAscii : FoldsAscii to_lower
to_lower-FoldsAscii s t same = (text_eq_iff (map lower_ascii s) (map lower_ascii t)).0 same

abbrev pub food : Category
food = record { id = 1; kind = expense; deleted = false }

abbrev pub ana : Person
ana = record {
  id = 1;
  sync_id = b'a' ∷ [];
  name = b'A' ∷ [];
  archived = false;
  merged = false;
  remind_on = some (b'9' ∷ []);
  remind_every_days = none;
}

abbrev pub ana_part : Line
ana_part = record { id = 1; who = person 1; amount = 300 }

abbrev pub guest_part : Line
guest_part = record { id = 2; who = guest (b'g' ∷ []); amount = 200 }

abbrev pub dinner : Transaction
dinner = record {
  id = 1;
  category_id = 1;
  client_uuid = none;
  name = b'd' ∷ [];
  amount = 1000;
  planned = none;
  payment_date = b'5' ∷ [];
  description = none;
  recurring_id = none;
  recurring_due_date = none;
  lines = ana_part ∷ guest_part ∷ [];
}

abbrev pub rent : Recurring
rent = record {
  id = 1;
  category_id = 1;
  name = b'r' ∷ [];
  description = none;
  amount = some 500;
  start_date = b'1' ∷ [];
  interval_unit = month;
  interval_count = 1;
  next_due_date = b'1' ∷ [];
  end_date = none;
  is_active = true;
  skipped_dates = (b'3' ∷ b'1' ∷ []) ∷ [];
  my_weight = none;
  template = [];
}

abbrev pub loan : Entry
loan = record {
  id = 1;
  person_id = 1;
  kind = lent;
  amount = 50;
  date = b'5' ∷ [];
  note = none;
  transaction_id = none;
  origin_id = none;
}

abbrev pub device : Text
device = b'0' ∷ b'1' ∷ b'2' ∷ b'3' ∷ b'4' ∷ b'5' ∷ b'6' ∷ b'7' ∷ b'8' ∷ []

abbrev pub books : Db
books = record {
  categories = food ∷ [];
  people = ana ∷ [];
  transactions = dinner ∷ [];
  recurring = rent ∷ [];
  ledger = loan ∷ [];
  budgets = record { id = 1; limit = some 20000 } ∷ [];
  clock = record { last_ms = 1000; last_counter = 7; device_id = device };
  currency_changes = [];
  applying = false;
  currency = b'E' ∷ b'U' ∷ b'R' ∷ [];
  currency_generation = 0;
}

abbrev pub dinner_bill : Bill
dinner_bill = record { amount = 1000; income = false; applying = false }

pub dinner-IsBill : IsBill dinner_bill (ana_part ∷ guest_part ∷ [])
dinner-IsBill = record {
  ids = ground arith;
  people = (refl, (refl, tt));
  within = omega arith;
  at_most_30 = omega arith;
}
