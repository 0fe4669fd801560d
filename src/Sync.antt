-- ===== src/Sync.antt =====
-- What the modules of the sync share: the tables of src-tauri/src/sync/wire.rs, and the errors of
-- wire.rs, engine.rs and flow.rs, with the result type and its `?`.
pub mod Digest
pub mod Messages
pub mod Conflicts
pub mod Hello
pub mod Documents
use Prim.Native.String.{String}
use Prim.Native.Char.{code}
use meow_ny.Common.{
  ℕ, ◌≡◌, ◌↔◌, refl, sym, ap, ◌∙◌, Bool, true, false, Option, none, some, List, [], ◌∷◌, arith,
  ◌==◌, if◌then◌else◌, ◌||◌, ==_iff,
}
use meow_ny.Common.Text.{Text}

-- A text that stands in the code.
abbrev pub codes : String → Text
codes String.[] = []
codes (String.◌∷◌ c s) = code c ∷ codes s

pub data Table : Type 0 where
  settings categories people recurring_transactions budgets : Table
  transactions ledger_entries documents document_links : Table

-- The place of a table in `Table::ALL`, by which the derived `Eq` and `Ord` compare.
abbrev pub place : Table → ℕ
place settings = 0
place categories = 1
place people = 2
place recurring_transactions = 3
place budgets = 4
place transactions = 5
place ledger_entries = 6
place documents = 7
place document_links = 8

abbrev pub table_eq : Table → Table → Bool
table_eq s t = place s == place t

-- `Table::ALL`, in the order in which tables are sent and applied.
abbrev pub all_tables : List Table
all_tables =
    settings ∷ categories ∷ people ∷ recurring_transactions ∷ budgets ∷ transactions
    ∷ ledger_entries ∷ documents ∷ document_links ∷ []

at_place : ℕ → Table
at_place n =
    if n == 0
    then settings
    else if n == 1
    then categories
    else if n == 2
    then people
    else if n == 3
    then recurring_transactions
    else if n == 4
    then budgets
    else if n == 5
    then transactions
    else if n == 6
    then ledger_entries
    else if n == 7
    then documents
    else document_links

at_place-place : (t : Table) → at_place (place t) ≡ t
unfolding at_place
at_place-place settings = refl
at_place-place categories = refl
at_place-place people = refl
at_place-place recurring_transactions = refl
at_place-place budgets = refl
at_place-place transactions = refl
at_place-place ledger_entries = refl
at_place-place documents = refl
at_place-place document_links = refl

pub table_eq_iff : (s t : Table) → (table_eq s t ≡ true) ↔ (s ≡ t)
table_eq_iff s t = (
  λ h. sym (at_place-place s) ∙ ap at_place ((==_iff _ _).0 h) ∙ at_place-place t,
  λ h. (==_iff _ _).1 (ap place h),
)

pub table_eq_refl : (t : Table) → table_eq t t ≡ true
table_eq_refl t = (table_eq_iff t t).1 refl

-- `tables.contains(&table)`
abbrev pub has_table : Table → List Table → Bool
has_table t [] = false
has_table t (s ∷ ss) = table_eq s t || has_table t ss

pub data WireError : Type 0 where
  format : WireError
  invalid : Text → WireError
  order : WireError

pub data SyncError : Type 0 where
  schema_mismatch : (newer_here : Bool) → SyncError
  protocol_mismatch clock_far_off currency : SyncError
  invalid : Text → SyncError
  locked not_empty : SyncError
  wire : WireError → SyncError
  database internal : SyncError

-- `Result<A, E>`
pub data Answer (E A : Type 0) : Type 0 where
  fails : E → Answer E A
  gives : A → Answer E A

infixl 5 ◌>>=◌ ◌>>◌
-- `?`: an error is the answer at once.
abbrev pub ◌>>=◌ : {E A B : Type 0} → Answer E A → (A → Answer E B) → Answer E B
fails e >>= next = fails e
gives a >>= next = next a

abbrev pub ◌>>◌ : {E B : Type 0} → Answer E (Unit {0}) → Answer E B → Answer E B
fails e >> next = fails e
gives _ >> next = next

-- `if c { return Err(e) }`
abbrev pub fail_if : {E : Type 0} → Bool → E → Answer E (Unit {0})
fail_if true e = fails e
fail_if false e = gives tt

-- `Option::ok_or`
abbrev pub ok_or : {E A : Type 0} → Option A → E → Answer E A
ok_or none e = fails e
ok_or (some a) e = gives a

-- `map_err`, as `?` converts errors with `From`.
abbrev pub map_err : {E F A : Type 0} → (E → F) → Answer E A → Answer F A
map_err f (fails e) = fails (f e)
map_err f (gives a) = gives a
