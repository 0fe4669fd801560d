-- ===== src/Splits/Bill/Write.antt =====
-- Writing the parts of one bill in the tables: it succeeds, and changes that bill only.
use meow_ny.Common.{ℕ, ◌≡◌, ◌≢◌, refl, subst, false, some, List, arith, inl, inr, Option-cases}
use meow_ny.Common.Error.{ok}
use meow_ny.Store.{Who, Line, Transaction, Db}
use meow_ny.Store.Table.{find, update, find-update_self, find-update_ne}
use meow_ny.Splits.Lines.{Bill, lines_sum, wanted}
use meow_ny.Splits.Lines.Counting.{measure}
use meow_ny.Splits.Lines.Exact.{IsBill, Fits, part_of, write_lines-exact}
use meow_ny.Splits.Lines.Invariant.{write_lines-IsBill}
use meow_ny.Splits.Bill.{transaction_id, category_key, bill, lines_of, with_lines, write_parts}

-- What a bill that is found says: its row, and its category.
pub bill-eq-ok :
    (db : Db) (id : ℕ) {b : Bill}
    → bill db id ≡ ok b
    → (t : Transaction) × (find transaction_id id db.transactions ≡ some t)
      × (t.amount ≡ b.amount)
      × (b.applying ≡ db.applying)
unfolding bill
bill-eq-ok db id {b} e = elim (Option-cases (find transaction_id id db.transactions)) [
  | inl gone ↦ absurd (ground arith)
  | inr (t, here) ↦ elim (Option-cases (find category_key t.category_id db.categories)) [
    | inl gone ↦ absurd (ground arith)
    | inr (c, known) ↦ (t, here, ground arith, ground arith)
  ]
]

-- The tables after the parts of one bill changed: the rules hold, and nothing else is touched.
pub record PartsOnly (b : Bill) (db : Db) (id : ℕ) (after : Db) : Type 0 where
  pub is_bill : IsBill b (lines_of after id)
  pub row :
      (t : Transaction)
      → find transaction_id id db.transactions ≡ some t
      → find transaction_id id after.transactions ≡ some (with_lines (lines_of after id) t)
  pub others :
      (j : ℕ)
      → id ≢ j
      → find transaction_id j after.transactions ≡ find transaction_id j db.transactions
  pub same_bill : bill after id ≡ bill db id
  pub rest : after ≡ record db { transactions = after.transactions }

-- The tables after the parts of a bill were written.
pub record Written (b : Bill) (db : Db) (id : ℕ) (new : List (Who × ℕ)) (after : Db) : Type 0 where
  pub parts : (w : Who) → part_of (lines_of after id) w ≡ wanted new w
  pub total : lines_sum (lines_of after id) ≡ measure (λ a. a) new
  pub only : PartsOnly b db id after

pub write_parts-Written :
    (b : Bill) (db : Db) (id : ℕ) (new : List (Who × ℕ))
    → bill db id ≡ ok b
    → b.income ≡ false
    → IsBill b (lines_of db id)
    → Fits b new
    → (after : Db) × (write_parts db id new ≡ ok after) × Written b db id new after
unfolding write_parts lines_of bill
write_parts-Written b db id new e expense now fits =
    let (table, made, parts, total, count) =
      write_lines-exact b new (lines_of db id) expense now fits in
    let kept_rules = write_lines-IsBill b new (lines_of db id) table expense now fits made in
    let (t, here, _, _) = bill-eq-ok db id e in
    let found =
      find-update_self transaction_id id (with_lines table) db.transactions (λ a. refl) here in
    let lines : lines_of (after table) id ≡ table = ground (arith, found) in
    (
      after table,
      ground (arith, made),
      record {
        parts = λ w. rw lines (parts w);
        total = rw lines total;
        only = record {
          is_bill = subst (IsBill b) (ground (arith, found)) kept_rules;
          row = λ u there. ground (arith, found);
          others = λ j ne.
              find-update_ne transaction_id id j (with_lines table) db.transactions (λ a. refl) ne;
          same_bill = ground (arith, found);
          rest = refl;
        };
      },
    )
  where
    after : List Line → Db
    after table = record db {
      transactions = update transaction_id id (with_lines table) db.transactions;
    }
