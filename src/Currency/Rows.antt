-- ===== src/Currency/Rows.antt =====
-- The loop of `convert_transactions` of src-tauri/src/currency.rs, row by row.
use meow_ny.Common.{
  ℕ, ◌≡◌, ◌≢◌, refl, ap, sym, subst, ◌∙◌, Option, some, List, [], ◌∷◌, arith, max, All, All-with,
  All-map, inl, inr,
}
use meow_ny.Common.Error.{ok, transpose, Result-cases}
use meow_ny.Common.Sort.{Pairwise}
use meow_ny.Store.{Line, Transaction, Db}
use meow_ny.Store.Table.{find, update, find-update_self, find-update_ne}
use meow_ny.Splits.Bill.{transaction_id, with_lines, rescale}
use meow_ny.Currency.{Rate, at_least_one, set_amounts, convert, convert_rows, convert_transactions}
use meow_ny.Currency.Parts.{PartsRescaled, rescale-LinesOnly, Parts-moved}

-- Two rows with different ids.
abbrev pub OtherId : Transaction → Transaction → Type 0
OtherId t u = t.id ≢ u.id

abbrev pub StandsIn : Db → Transaction → Type 0
StandsIn db t = find transaction_id t.id db.transactions ≡ some t

-- The row of a transaction after a conversion: its amount is the converted one, and at least a cent,
-- its planned amount is the converted one, its parts are rescaled, and nothing else changes.
abbrev pub RowConverted : Rate → Db → Db → Transaction → Type 0
RowConverted rate db after t =
    (amount : ℕ) × (planned : Option ℕ) × (ls : List Line) × (convert t.amount rate ≡ ok amount)
    × (transpose (λ p. convert p rate) t.planned ≡ ok planned)
    × PartsRescaled db (set_amounts (max amount 1) planned t) t.amount (max amount 1) ls
    × (find transaction_id t.id after.transactions
        ≡ some (with_lines ls (set_amounts (max amount 1) planned t)))

-- The step of the loop: the row, and what is left of the others.
pub record StepOnly (rate : Rate) (t : Transaction) (db after : Db) : Type 0 where
  pub row : StandsIn db t → RowConverted rate db after t
  pub others :
      (j : ℕ)
      → t.id ≢ j
      → find transaction_id j after.transactions ≡ find transaction_id j db.transactions
  pub rest : after ≡ record db { transactions = after.transactions }

convert_rows-step :
    (rate : Rate) (t : Transaction) (ts : List Transaction) (db after : Db)
    → convert_rows rate (t ∷ ts) db ≡ ok after
    → (middle : Db) × StepOnly rate t db middle × (convert_rows rate ts middle ≡ ok after)
unfolding convert_rows
convert_rows-step rate t ts db after e = elim (Result-cases (convert t.amount rate)) [
  | inr (_, bad) ↦ absurd (ground (arith, e, bad))
  | inl (amount, amount_made) ↦ elim (Result-cases (transpose (λ p. convert p rate) t.planned)) [
    | inr (_, bad) ↦ absurd (ground (arith, e, amount_made, bad))
    | inl (planned, planned_made) ↦
        let f = set_amounts (at_least_one amount) planned in
        let written : Db = record db {
          transactions = update transaction_id t.id f db.transactions;
        } in
        elim (Result-cases (rescale written t.id t.amount (at_least_one amount))) [
          | inr (_, bad) ↦ absurd (ground (arith, e, amount_made, planned_made, bad))
          | inl (middle, made) ↦
              let only =
                rescale-LinesOnly written middle t.id t.amount (at_least_one amount) made in
              (
                middle,
                record {
                  row = λ here.
                      let (ls, parts, found) =
                        only.row (f t) (
                          find-update_self transaction_id t.id f db.transactions (λ a. refl)
                            here) in
                      (
                        amount,
                        planned,
                        ls,
                        amount_made,
                        planned_made,
                        Parts-moved written db (f t) t.amount (at_least_one amount) ls refl parts,
                        found,
                      );
                  others = λ j ne.
                      only.others j ne
                      ∙ find-update_ne transaction_id t.id j f db.transactions (λ a. refl) ne;
                  rest = only.rest;
                },
                ground (arith, e, amount_made, planned_made, made),
              )
        ]
  ]
]

-- What the loop leaves: each row that it went through is converted, and no other row changes.
pub record Looped (rate : Rate) (ts : List Transaction) (db after : Db) : Type 0 where
  pub rows : All (RowConverted rate db after) ts
  pub others :
      (j : ℕ)
      → All (λ t. t.id ≢ j) ts
      → find transaction_id j after.transactions ≡ find transaction_id j db.transactions
  pub rest : after ≡ record db { transactions = after.transactions }

pub Row-moved :
    (rate : Rate) (db other middle after : Db) (t : Transaction)
    → db.people ≡ other.people
    → find transaction_id t.id after.transactions ≡ find transaction_id t.id middle.transactions
    → RowConverted rate db middle t
    → RowConverted rate other after t
Row-moved rate db other middle after t people same (amount, planned, ls, a, p, parts, here) = (
  amount,
  planned,
  ls,
  a,
  p,
  Parts-moved db other (set_amounts (max amount 1) planned t) t.amount (max amount 1) ls people
      parts,
  same ∙ here,
)

convert_rows_lem :
    (rate : Rate) (ts : List Transaction) (db after : Db)
    → convert_rows rate ts db ≡ ok after
    → Pairwise OtherId ts
    → All (StandsIn db) ts
    → Looped rate ts db after
unfolding convert_rows
convert_rows_lem rate [] db after e apart here =
    let same : db ≡ after = ground arith in
    subst (Looped rate [] db) same (record { rows = tt; others = λ j away. refl; rest = refl })
convert_rows_lem rate (t ∷ ts) db after e apart here =
    let (middle, step, later) = convert_rows-step rate t ts db after e in
    let here' : All (StandsIn middle) ts =
      All-with (OtherId t) (StandsIn db) (StandsIn middle)
        (λ u other at. step.others u.id other ∙ at) ts apart.0 here.1 in
    let looped = convert_rows_lem rate ts middle after later apart.1 here' in
    let people : middle.people ≡ db.people = ap (λ (d : Db). d.people) step.rest in
    let back : All (λ u. u.id ≢ t.id) ts =
      All-map (OtherId t) (λ u. u.id ≢ t.id) (λ u other same. other (sym same)) ts apart.0 in
    record {
      rows = (
        Row-moved rate db db middle after t refl (looped.others t.id back) (step.row here.0),
        All-map (RowConverted rate middle after) (RowConverted rate db after)
            (λ u. Row-moved rate middle db after after u people refl) ts looped.rows,
      );
      others = λ j away. looped.others j away.1 ∙ step.others j away.0;
      rest =
          looped.rest ∙ ap (λ (d : Db). record d { transactions = after.transactions }) step.rest;
    }

rows_found :
    (ts : List Transaction)
    → Pairwise OtherId ts
    → All (λ t. find transaction_id t.id ts ≡ some t) ts
unfolding find
rows_found [] apart = tt
rows_found (t ∷ ts) apart = (
  ground arith,
  All-with (OtherId t) (λ u. find transaction_id u.id ts ≡ some u)
      (λ u. find transaction_id u.id (t ∷ ts) ≡ some u) (λ u other at. ground (arith, other, at)) ts
      apart.0 (rows_found ts apart.1),
)

pub convert_transactions_lem :
    (rate : Rate) (db after : Db)
    → convert_transactions rate db ≡ ok after
    → Pairwise OtherId db.transactions
    → Looped rate db.transactions db after
unfolding convert_transactions
convert_transactions_lem rate db after e apart =
    convert_rows_lem rate db.transactions db after e apart (rows_found db.transactions apart)
