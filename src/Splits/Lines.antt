-- ===== src/Splits/Lines.antt =====
-- The parts of a bill as they are written (`write_lines` of src-tauri/src/debts/splits.rs), with the
-- checks that the database makes at each statement (the triggers and indexes on
-- `transaction_split_lines` in src-tauri/migrations/0012_debts.sql). A statement that the database
-- refuses is an `Internal` error, as the conversion from SQLite's errors has it.
pub mod Passes
pub mod Counting
mod Added
pub mod Exact
pub mod Invariant
use meow_ny.Common.{
  ℕ, ◌+◌, ◌≤◌, ◌<◌, ◌≡◌, Bool, true, false, not, ◌&&◌, ◌||◌, Option, none, some, List, [], ◌∷◌,
  ◌++◌, ltb, leb, ◌==◌, if◌then◌else◌, any, sum, map, length,
}
use meow_ny.Common.Error.{Result, ok, err, internal, ◌>>=◌, ◌>>◌, fail_if}
use meow_ny.Money.{max_minor}
use meow_ny.Store.{Who, who_eq, who_conflict, Line}
use meow_ny.Store.Table.{update, delete, fresh}

-- What the checks read of the bill that the parts belong to.
pub record Bill : Type 0 where
  pub amount : ℕ
  pub income : Bool
  pub applying : Bool

abbrev pub line_id : Line → ℕ
line_id l = l.id

abbrev pub line_amount : Line → ℕ
line_amount l = l.amount

abbrev pub line_who : Line → Who
line_who l = l.who

-- `SUM(amount_minor)` over the parts.
abbrev pub lines_sum : List Line → ℕ
lines_sum ls = sum (map line_amount ls)

-- `ck_split_amount`
abbrev pub amount_in_range : ℕ → Bool
amount_in_range a = leb 1 a && leb a max_minor

-- `DELETE FROM transaction_split_lines WHERE id = ?`
abbrev pub delete_line : ℕ → List Line → List Line
delete_line = delete line_id

-- `UPDATE transaction_split_lines SET amount_minor = ? WHERE id = ?`, with the trigger
-- `trg_split_lines_update_checks`, which adds up the other parts.
unfoldable pub update_line : Bill → ℕ → ℕ → List Line → Result (List Line)
update_line bill target id ls = do
  fail_if (not (amount_in_range target)) internal
  fail_if (not bill.applying && ltb bill.amount (lines_sum (delete_line id ls) + target)) internal
  ok (update line_id id (λ l. record l { amount = target }) ls)

-- `INSERT INTO transaction_split_lines ..`, with the trigger `trg_split_lines_insert_checks` and the
-- unique indexes.
unfoldable pub insert_line : Bill → Who → ℕ → List Line → Result (List Line)
insert_line bill who amount ls = do
  fail_if (not (amount_in_range amount)) internal
  fail_if (not bill.applying && leb 30 (length ls)) internal
  fail_if (not bill.applying && bill.income) internal
  fail_if (not bill.applying && ltb bill.amount (lines_sum ls + amount)) internal
  fail_if (any (λ l. who_conflict l.who who) ls) internal
  ok (ls ++ record { id = fresh line_id ls; who = who; amount = amount } ∷ [])

-- `wanted.get(who)` of the map that is collected from `new`: the last amount given for a person.
unfoldable pub wanted : List (Who × ℕ) → Who → Option ℕ
wanted [] who = none
wanted ((w, a) ∷ new) who = elim (wanted new who) [
  | some b ↦ some b
  | none ↦ if who_eq w who then some a else none
]

-- The first loop of `write_lines`, over the parts as they were: those that nobody wants go, those
-- that shrink are written, and those that grow are put off. It returns the table and `growing`.
unfoldable pub shrink_lines :
    Bill → List (Who × ℕ) → List Line → List Line → Result (List Line × List (ℕ × ℕ))
shrink_lines bill new [] table = ok (table, [])
shrink_lines bill new (l ∷ ls) table = elim (wanted new l.who) [
  | none ↦ shrink_lines bill new ls (delete_line l.id table)
  | some target ↦ elim (ltb target l.amount) [
    | true ↦ update_line bill target l.id table >>= λ table'. shrink_lines bill new ls table'
    | false ↦ shrink_lines bill new ls table >>= λ (table', growing).
        ok (table', if ltb l.amount target then (l.id, target) ∷ growing else growing)
  ]
]

-- The second loop: the parts that grow.
unfoldable pub grow_lines : Bill → List (ℕ × ℕ) → List Line → Result (List Line)
grow_lines bill [] table = ok table
grow_lines bill ((id, target) ∷ growing) table =
    update_line bill target id table >>= λ table'. grow_lines bill growing table'

-- `present.contains(who)`, for somebody who is wanted.
abbrev pub is_present : List Line → Who → Bool
is_present current who = any (λ l. who_eq l.who who) current

-- The third loop: the parts of people who had none.
unfoldable pub add_lines : Bill → List Line → List (Who × ℕ) → List Line → Result (List Line)
add_lines bill current [] table = ok table
add_lines bill current ((who, amount) ∷ new) table = elim (is_present current who) [
  | true ↦ add_lines bill current new table
  | false ↦ insert_line bill who amount table >>= λ table'. add_lines bill current new table'
]

-- Makes the parts of a bill be exactly `new`.
unfoldable pub write_lines : Bill → List (Who × ℕ) → List Line → Result (List Line)
write_lines bill new current = do
  (shrunk, growing) ← shrink_lines bill new current current
  grown ← grow_lines bill growing shrunk
  add_lines bill current new grown
