-- ===== src/Currency/Parts.antt =====
-- What `rescale` of src-tauri/src/debts/splits.rs leaves of the tables, for a bill in any state, as
-- `convert_transactions` of src-tauri/src/currency.rs calls it.
use meow_ny.Common.{
  ℕ, ◌≡◌, ◌≢◌, ◌⊎◌, true, refl, ap, sym, subst, ◌∙◌, some, List, [], ◌∷◌, arith, ◌==◌, length,
  Bool-cases, inl, inr,
}
use meow_ny.Common.Error.{ok, Result-cases}
use meow_ny.Store.{Who, Line, Transaction, Db}
use meow_ny.Store.Table.{find, update, find-update_self, find-update_ne}
use meow_ny.Splits.Bill.{transaction_id, bill, lines_of, with_lines, rescaled, write_parts, rescale}
use meow_ny.Splits.Bill.{in_shared_order, key_of}
use meow_ny.Splits.Bill.Write.{bill-eq-ok}
use meow_ny.Splits.Lines.{Bill, write_lines}

-- The parts of a bill after a rescale: none where there were none, and otherwise the parts that
-- `rescaled` works out, as `write_lines` writes them to a bill of the new amount.
abbrev pub PartsRescaled : Db → Transaction → ℕ → ℕ → List Line → Type 0
PartsRescaled db t old_amount new_amount ls =
    ((t.lines ≡ []) × (ls ≡ []))
    ⊎ ((new : List (Who × ℕ)) × (b : Bill) × (rescaled db t.lines old_amount new_amount ≡ ok new)
        × (b.amount ≡ t.amount)
        × (write_lines b new t.lines ≡ ok ls))

-- What rescaling one bill changes: the parts of that bill.
pub record LinesOnly (db : Db) (id old_amount new_amount : ℕ) (after : Db) : Type 0 where
  pub row :
      (t : Transaction)
      → find transaction_id id db.transactions ≡ some t
      → (ls : List Line) × PartsRescaled db t old_amount new_amount ls
        × (find transaction_id id after.transactions ≡ some (with_lines ls t))
  pub others :
      (j : ℕ)
      → id ≢ j
      → find transaction_id j after.transactions ≡ find transaction_id j db.transactions
  pub rest : after ≡ record db { transactions = after.transactions }

lines_here :
    (db : Db) (id : ℕ) (t : Transaction)
    → find transaction_id id db.transactions ≡ some t
    → lines_of db id ≡ t.lines
unfolding lines_of
lines_here db id t here = rw (lines_of, here) refl

nil_of_length : (ls : List Line) → (length ls == 0) ≡ true → ls ≡ []
nil_of_length [] h = refl
nil_of_length (l ∷ ls) h = absurd (ground arith)

LinesOnly-none :
    (db : Db) (id old_amount new_amount : ℕ)
    → (length (lines_of db id) == 0) ≡ true
    → LinesOnly db id old_amount new_amount db
LinesOnly-none db id old_amount new_amount empty = record {
  row = λ t there.
      let none_there : t.lines ≡ [] =
        sym (lines_here db id t there) ∙ nil_of_length (lines_of db id) empty in
      (t.lines, inl (none_there, none_there), there);
  others = λ j ne. refl;
  rest = refl;
}

write_parts-LinesOnly :
    (db after : Db) (id old_amount new_amount : ℕ) (new : List (Who × ℕ))
    → rescaled db (lines_of db id) old_amount new_amount ≡ ok new
    → write_parts db id new ≡ ok after
    → LinesOnly db id old_amount new_amount after
unfolding write_parts
write_parts-LinesOnly db after id old_amount new_amount new worked_out e =
    elim (Result-cases (bill db id)) [
      | inr (_, gone) ↦ absurd (ground (arith, e, gone))
      | inl (b, found) ↦ elim (Result-cases (write_lines b new (lines_of db id))) [
        | inr (_, bad) ↦ absurd (ground (arith, e, found, bad))
        | inl (table, made) ↦
            let made_of : Db = record db {
              transactions = update transaction_id id (with_lines table) db.transactions;
            } in
            let same : made_of ≡ after = ground (arith, e, found, made) in
            let (u, there_u, amount, _) = bill-eq-ok db id found in
            subst (LinesOnly db id old_amount new_amount) same (record {
              row = λ t there.
                  let here = lines_here db id t there in
                  let agree : u ≡ t = cc in
                  (
                    table,
                    inr (
                      new,
                      b,
                      subst (λ ls. rescaled db ls old_amount new_amount ≡ ok new) here worked_out,
                      sym amount ∙ ap (λ (v : Transaction). v.amount) agree,
                      subst (λ ls. write_lines b new ls ≡ ok table) here made,
                    ),
                    find-update_self transaction_id id (with_lines table) db.transactions
                        (λ a. refl) there,
                  );
              others = λ j ne.
                  find-update_ne transaction_id id j (with_lines table) db.transactions (λ a. refl)
                    ne;
              rest = refl;
            })
      ]
    ]

pub rescale-LinesOnly :
    (db after : Db) (id old_amount new_amount : ℕ)
    → rescale db id old_amount new_amount ≡ ok after
    → LinesOnly db id old_amount new_amount after
unfolding rescale
rescale-LinesOnly db after id old_amount new_amount e =
    elim (Bool-cases (length (lines_of db id) == 0)) [
      | inl empty ↦
          let same : db ≡ after = ground (arith, e, empty) in
          subst (LinesOnly db id old_amount new_amount) same
            (LinesOnly-none db id old_amount new_amount empty)
      | inr some_part ↦ elim (Result-cases (rescaled db (lines_of db id) old_amount new_amount)) [
        | inr (_, bad) ↦ absurd (ground (arith, e, some_part, bad))
        | inl (new, made) ↦
            write_parts-LinesOnly db after id old_amount new_amount new made
              (ground (arith, e, some_part, made))
      ]
    ]

-- The new parts read the people of the database only.
rescaled-people :
    (db other : Db) (ls : List Line) (old_amount new_amount : ℕ)
    → db.people ≡ other.people
    → rescaled db ls old_amount new_amount ≡ rescaled other ls old_amount new_amount
unfolding rescaled in_shared_order key_of
rescaled-people db other ls old_amount new_amount same =
    ap (λ ps. rescaled (record db { people = ps }) ls old_amount new_amount) same

pub Parts-moved :
    (db other : Db) (t : Transaction) (old_amount new_amount : ℕ) (ls : List Line)
    → db.people ≡ other.people
    → PartsRescaled db t old_amount new_amount ls
    → PartsRescaled other t old_amount new_amount ls
Parts-moved db other t old_amount new_amount ls same (inl no_parts) = inl no_parts
Parts-moved db other t old_amount new_amount ls same (inr (new, b, worked_out, amount, made)) =
    inr (
      new,
      b,
      sym (rescaled-people db other t.lines old_amount new_amount same) ∙ worked_out,
      amount,
      made,
    )
