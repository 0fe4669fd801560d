-- ===== src/Store.antt =====
-- The rows of the database that the modelled code reads and writes (src-tauri/migrations; the Rust
-- structs of src-tauri/src/debts/splits.rs, ledger.rs, people.rs, transactions.rs and recurring.rs
-- are read from them), and the SQL statements on a table. A table is the list of its rows in the
-- order of their ids, which is the order that SQLite keeps. The parts of a bill and the weights of a
-- template are kept in the row that they belong to, numbered there: they are read by that row only,
-- in the order of their ids, and go with it (ON DELETE CASCADE). An id is an `i64` above 0, so a
-- natural; an amount column holds 1 to 999999999999, so a natural too.
pub mod Table
use meow_ny.Common.{
  ℕ, ◌+◌, ◌≡◌, ◌↔◌, refl, ap, Bool, true, false, Option, none, some, List, [], ◌∷◌, arith, ◌==◌,
  sum, map, if◌then◌else◌,
}
use meow_ny.Common.Text.{Text, text_eq, text_eq_iff, nocase_eq}

-- Who has a part of a bill, apart from you (`Who`).
pub data Who : Type 0 where
  person : ℕ → Who
  guest : Text → Who

-- `==` of the derived `PartialEq`
abbrev pub who_eq : Who → Who → Bool
who_eq (person i) (person j) = i == j
who_eq (person i) (guest t) = false
who_eq (guest s) (person j) = false
who_eq (guest s) (guest t) = text_eq s t

-- The unique indexes `uq_split_lines_person` and `uq_split_lines_guest`: two parts of one bill that
-- may not stand together.
abbrev pub who_conflict : Who → Who → Bool
who_conflict (person i) (person j) = i == j
who_conflict (person i) (guest t) = false
who_conflict (guest s) (person j) = false
who_conflict (guest s) (guest t) = nocase_eq s t

pub who_eq_iff : (a b : Who) → (who_eq a b ≡ true) ↔ (a ≡ b)
who_eq_iff (person i) (person j) = ground arith
who_eq_iff (person i) (guest t) = (λ h. absurd (cc), λ h. absurd (cc))
who_eq_iff (guest s) (person j) = (λ h. absurd (cc), λ h. absurd (cc))
who_eq_iff (guest s) (guest t) = ground (arith, text_eq_iff s t)

-- A row of `transaction_split_lines`.
pub record Line : Type 0 where
  pub id : ℕ
  pub who : Who
  pub amount : ℕ

-- A row of `recurring_split_lines`.
pub record TemplateLine : Type 0 where
  pub who : Who
  pub weight : ℕ

pub data CategoryType : Type 0 where
  income expense : CategoryType

-- A row of `categories`; `deleted` says that `deleted_at` is set.
pub record Category : Type 0 where
  pub id : ℕ
  pub kind : CategoryType
  pub deleted : Bool

-- A row of `people`; `merged` says that `merged_into` is set.
pub record Person : Type 0 where
  pub id : ℕ
  pub sync_id : Text
  pub name : Text
  pub archived : Bool
  pub merged : Bool
  pub remind_on : Option Text
  pub remind_every_days : Option ℕ

-- A row of `transactions` with its parts.
pub record Transaction : Type 0 where
  pub id : ℕ
  pub category_id : ℕ
  pub client_uuid : Option Text
  pub name : Text
  pub amount : ℕ
  pub planned : Option ℕ
  pub payment_date : Text
  pub description : Option Text
  pub recurring_id : Option ℕ
  pub recurring_due_date : Option Text
  pub lines : List Line

pub data IntervalUnit : Type 0 where
  day week month year : IntervalUnit

-- A row of `recurring_transactions` with its template.
pub record Recurring : Type 0 where
  pub id : ℕ
  pub category_id : ℕ
  pub name : Text
  pub description : Option Text
  pub amount : Option ℕ
  pub start_date : Text
  pub interval_unit : IntervalUnit
  pub interval_count : ℕ
  pub next_due_date : Text
  pub end_date : Option Text
  pub is_active : Bool
  pub skipped_dates : List Text
  pub my_weight : Option ℕ
  pub template : List TemplateLine

-- The four kinds of an entry of the ledger.
pub data Kind : Type 0 where
  lent borrowed repaid_to_me repaid_by_me : Kind

-- A row of `ledger_entries`.
pub record Entry : Type 0 where
  pub id : ℕ
  pub person_id : ℕ
  pub kind : Kind
  pub amount : ℕ
  pub date : Text
  pub note : Option Text
  pub transaction_id : Option ℕ
  pub origin_id : Option Text

-- A row of `budgets`: no limit (`none`) is a budget that was removed.
pub record Budget : Type 0 where
  pub id : ℕ
  pub limit : Option ℕ

-- The row of `sync_clock`, apart from `applying`.
pub record Clock : Type 0 where
  pub last_ms : ℕ
  pub last_counter : ℕ
  pub device_id : Text

-- A row of `currency_changes`.
pub record CurrencyChange : Type 0 where
  pub id : ℕ
  pub from_currency : Text
  pub to_currency : Text
  pub rate : Option Text
  pub stamp : Text

-- The tables, and of the one-row tables what is used: whether a sync, a restore or a conversion is
-- writing (`sync_clock.applying`), the currency and its generation.
pub record Db : Type 0 where
  pub categories : List Category
  pub people : List Person
  pub transactions : List Transaction
  pub recurring : List Recurring
  pub ledger : List Entry
  pub budgets : List Budget
  pub clock : Clock
  pub currency_changes : List CurrencyChange
  pub applying : Bool
  pub currency : Text
  pub currency_generation : ℕ
