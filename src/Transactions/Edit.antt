-- ===== src/Transactions/Edit.antt =====
-- Editing a transaction that may be shared: the parts and the amount are written in an order that the
-- checks of the database never refuse.
use meow_ny.Common.{
  ℕ, ◌≤◌, ◌<◌, ◌≡◌, refl, sym, subst, ap, true, false, some, List, [], ◌∷◌, arith, ltb, ◌==◌,
  length, inl, inr, Bool-cases, Option-cases,
}
use meow_ny.Common.Error.{ok}
use meow_ny.Money.{max_minor}
use meow_ny.Store.{Line, Transaction, Db}
use meow_ny.Store.Table.{find, find-update_self}
use meow_ny.Store.Table as Table
use meow_ny.Splits.Lines.{Bill, lines_sum}
use meow_ny.Splits.Lines.Exact.{IsBill}
use meow_ny.Splits.Bill.{transaction_id, category_key, bill, lines_of, with_lines, rescale, key_of}
use meow_ny.Splits.Bill.Rescale.{rescale-Written}
use meow_ny.Splits.Bill.Shared.{Known, Indexed}
use meow_ny.Transactions.{category_is_expense}
use meow_ny.Transactions.Update.{Columns, set_columns, write_row, store}

IsBill-within :
    (b : Bill) (amount : ℕ) (ls : List Line)
    → IsBill b ls
    → lines_sum ls ≤ amount
    → IsBill (record b { amount = amount }) ls
IsBill-within b amount ls h within = record {
  ids = h.ids;
  people = h.people;
  within = within;
  at_most_30 = h.at_most_30;
}

-- A bill after its columns were written.
abbrev bill_of : Db → Columns → Bill
bill_of db new = record { amount = new.minor; income = false; applying = db.applying }

abbrev row_written : Db → Transaction → Columns → Db
row_written db t new = record db {
  transactions = Table.update transaction_id t.id (set_columns new) db.transactions;
}

write_row_lem :
    (db : Db) (t : Transaction) (new : Columns)
    → find transaction_id t.id db.transactions ≡ some t
    → lines_sum t.lines ≤ new.minor
    → category_is_expense db new.category_id ≡ true
    → (write_row db t.id new ≡ ok (row_written db t new))
      × (find transaction_id t.id (row_written db t new).transactions ≡ some (set_columns new t))
      × (bill (row_written db t new) t.id ≡ ok (bill_of db new))
unfolding write_row bill category_is_expense
write_row_lem db t new here within kind =
    let found =
      find-update_self transaction_id t.id (set_columns new) db.transactions (λ a. refl) here in
    (
      ground (arith, here),
      found,
      elim (Option-cases (find category_key new.category_id db.categories)) [
        | inl gone ↦ absurd (ground arith)
        | inr (k, known) ↦ ground (arith, found)
      ],
    )

lines_here :
    (db : Db) (t : Transaction)
    → find transaction_id t.id db.transactions ≡ some t
    → lines_of db t.id ≡ t.lines
unfolding lines_of
lines_here db t here = ground arith

-- What an edit leaves: the row has the new columns, its parts keep the rules of a bill of the new
-- amount, and only the table of transactions changes.
pub record Stored (db : Db) (t : Transaction) (new : Columns) (after : Db) : Type 0 where
  pub ls : List Line
  pub row : find transaction_id t.id after.transactions ≡ some (set_columns new (with_lines ls t))
  pub is_bill : IsBill (bill_of db new) ls
  pub rest : after ≡ record db { transactions = after.transactions }

module _ (db : Db) (t : Transaction) (new : Columns)
    (here : find transaction_id t.id db.transactions ≡ some t)
    (found : bill db t.id
      ≡ ok (record { amount = t.amount; income = false; applying = db.applying }))
    (now : IsBill (record { amount = t.amount; income = false; applying = db.applying }) t.lines)
    (known : Known db t.lines) (apart : Indexed t.lines) (some_old : 1 ≤ t.amount)
    (small_old : t.amount ≤ max_minor) (some_new : 1 ≤ new.minor)
    (small_new : new.minor ≤ max_minor) (kind : category_is_expense db new.category_id ≡ true) where
  abbrev old_bill : Bill
  old_bill = record { amount = t.amount; income = false; applying = db.applying }

  -- The parts fit the new amount already: the columns alone are written.
  columns_only :
      lines_sum t.lines ≤ new.minor
      → (after : Db) × (write_row db t.id new ≡ ok after) × Stored db t new after
  columns_only within =
      let (made, row, _) = write_row_lem db t new here within kind in
      (
        row_written db t new,
        made,
        record {
          ls = t.lines;
          row = row;
          is_bill = IsBill-within old_bill new.minor t.lines now within;
          rest = refl;
        },
      )

  shrunk :
      new.minor < t.amount
      → (middle : Db) × (after : Db) × (rescale db t.id t.amount new.minor ≡ ok middle)
        × (write_row middle t.id new ≡ ok after)
        × Stored db t new after
  unfolding category_is_expense
  shrunk less =
      let same = sym (lines_here db t here) in
      let enough = now.within in
      let (middle, made, within, only, _, _) =
        rescale-Written old_bill db t.id t.amount new.minor found refl
          (subst (IsBill old_bill) same now) some_old (omega (arith, enough, ap lines_sum same))
          (subst (Known db) same known) (subst Indexed same apart) (omega arith) small_old in
      let kind' : category_is_expense middle new.category_id ≡ true =
        subst (λ d. category_is_expense d new.category_id ≡ true) (sym only.rest) kind in
      let t1 = with_lines (lines_of middle t.id) t in
      let (made', row, _) = write_row_lem middle t1 new (only.row t here) within kind' in
      (
        middle,
        row_written middle t1 new,
        made,
        made',
        record {
          ls = lines_of middle t.id;
          row = row;
          is_bill = IsBill-within old_bill new.minor (lines_of middle t.id) only.is_bill within;
          rest =
              ap {A = Db}
                (λ d. record d { transactions = (row_written middle t1 new).transactions })
                only.rest;
        },
      )

  grown :
      t.amount < new.minor
      → (middle : Db) × (after : Db) × (write_row db t.id new ≡ ok middle)
        × (rescale middle t.id t.amount new.minor ≡ ok after)
        × Stored db t new after
  unfolding key_of
  grown more =
      let enough = now.within in
      let (made, row, found') = write_row_lem db t new here (omega (arith, enough)) kind in
      let middle = row_written db t new in
      let same = sym (lines_here middle (set_columns new t) row) in
      let now' = IsBill-within old_bill new.minor t.lines now (omega (arith, enough)) in
      let (after, made', within, only, _, _) =
        rescale-Written (bill_of db new) middle t.id t.amount new.minor found' refl
          (subst (IsBill (bill_of db new)) same now') some_old
          (omega (arith, enough, ap lines_sum same)) (subst (Known middle) same known)
          (subst Indexed same apart) (omega arith) small_new in
      (
        middle,
        after,
        made,
        made',
        record {
          ls = lines_of after t.id;
          row = only.row (set_columns new t) row;
          is_bill = only.is_bill;
          rest = only.rest;
        },
      )

  -- An edit of a bill that keeps the rules, whatever its new amount and its new expense category, is
  -- refused by no check of the database, and the parts keep the rules under the new amount.
  pub store-Stored : (after : Db) × (store db t new ≡ ok after) × Stored db t new after
  unfolding store
  store-Stored = elim (Bool-cases (length t.lines == 0)) [
    | inl empty ↦
        let (after, made, stored) = columns_only (nothing t.lines (ground arith)) in
        (after, ground arith, stored)
    | inr parts ↦ elim (Bool-cases (ltb new.minor t.amount)) [
      | inl less ↦
          let (middle, after, first, second, stored) = shrunk (ground arith) in
          (after, ground arith, stored)
      | inr no_less ↦ elim (Bool-cases (ltb t.amount new.minor)) [
        | inl more ↦
            let (middle, after, first, second, stored) = grown (ground arith) in
            (after, ground arith, stored)
        | inr no_more ↦
            let enough = now.within in
            let (after, made, stored) = columns_only (ground (arith, enough)) in
            (after, ground arith, stored)
      ]
    ]
  ]
    where
      nothing : (ls : List Line) → length ls ≡ 0 → lines_sum ls ≤ new.minor
      nothing [] h = omega arith
      nothing (l ∷ ls) h = absurd (omega arith)
