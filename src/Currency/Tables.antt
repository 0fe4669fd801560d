-- ===== src/Currency/Tables.antt =====
-- The tables after `convert_transactions`, `convert_recurring`, `convert_budgets` and `convert_ledger`
-- of src-tauri/src/currency.rs.
use meow_ny.Common.{
  ℕ, ◌≤◌, ◌≡◌, refl, ap, ◌∙◌, subst, Option, none, some, true, List, [], ◌∷◌, arith, max, All,
  All-map, sym, inl, inr,
}
use meow_ny.Common.Error.{Result, ok, traverse, Result-cases}
use meow_ny.Common.Sort.{Pairwise}
use meow_ny.Store.{Recurring, Entry, Budget, Db}
use meow_ny.Store.Table.{find}
use meow_ny.Splits.Bill.{transaction_id}
use meow_ny.Currency.{
  Rate, Conversion, convert, convert_entry, convert_item, convert_budget, convert_ledger,
  convert_recurring, convert_budgets, convert_transactions, convert_all,
}
use meow_ny.Currency.Rows.{OtherId, RowConverted, Row-moved, convert_transactions_lem}

-- Two tables of the same length with each row made from the row at its place.
abbrev pub Each : {A : Type 0} → (A → A → Type 0) → List A → List A → Type 0
Each R [] [] = Unit
Each R (x ∷ xs) (y ∷ ys) = R x y × Each R xs ys
Each R xs ys = 1 ≤ 0

abbrev pub EntryConverted : Rate → Entry → Entry → Type 0
EntryConverted rate e e' =
    (n : ℕ) × (convert e.amount rate ≡ ok n) × (e' ≡ record e { amount = max n 1 })

-- An amount that is there becomes the converted one, and at least a cent.
abbrev pub AmountConverted : Rate → Option ℕ → Option ℕ → Type 0
AmountConverted rate none none = Unit
AmountConverted rate (some a) (some b) = (n : ℕ) × (convert a rate ≡ ok n) × (b ≡ max n 1)
AmountConverted rate a b = 1 ≤ 0

abbrev pub ItemConverted : Rate → Recurring → Recurring → Type 0
ItemConverted rate r r' =
    (a : Option ℕ) × AmountConverted rate r.amount a × (r' ≡ record r { amount = a })

-- A limit may become 0.
abbrev pub LimitConverted : Rate → Option ℕ → Option ℕ → Type 0
LimitConverted rate none none = Unit
LimitConverted rate (some a) (some b) = convert a rate ≡ ok b
LimitConverted rate a b = 1 ≤ 0

abbrev pub BudgetConverted : Rate → Budget → Budget → Type 0
BudgetConverted rate b b' =
    (l : Option ℕ) × LimitConverted rate b.limit l × (b' ≡ record b { limit = l })

-- Without a rate the tables are as they were; with one each row is converted.
abbrev pub Converted : Option Rate → Db → Db → Type 0
Converted none db after =
    (after.transactions ≡ db.transactions)
    × (after.recurring ≡ db.recurring)
    × (after.budgets ≡ db.budgets)
    × (after.ledger ≡ db.ledger)
Converted (some rate) db after =
    All (RowConverted rate db after) db.transactions
    × Each (ItemConverted rate) db.recurring after.recurring
    × Each (BudgetConverted rate) db.budgets after.budgets
    × Each (EntryConverted rate) db.ledger after.ledger

traverse-Each :
    {A : Type 0} (f : A → Result A) (R : A → A → Type 0)
    → ((x y : A) → f x ≡ ok y → R x y)
    → (xs ys : List A) → traverse f xs ≡ ok ys
    → Each R xs ys
traverse-Each f R step [] ys e = let same : [] ≡ ys = ground arith in subst (Each R []) same tt
traverse-Each f R step (x ∷ xs) ys e = elim (Result-cases (f x)) [
  | inr (_, bad) ↦ absurd (ground (arith, e, bad))
  | inl (y, made) ↦ elim (Result-cases (traverse f xs)) [
    | inr (_, bad) ↦ absurd (ground (arith, e, made, bad))
    | inl (rest, went) ↦
        let same : (y ∷ rest) ≡ ys = ground (arith, e, made, went) in
        subst (Each R (x ∷ xs)) same (step x y made, traverse-Each f R step xs rest went)
  ]
]

moved :
    {A : Type 0} (R : A → A → Type 0) {xs xs' ys ys' : List A}
    → xs ≡ xs'
    → ys ≡ ys'
    → Each R xs ys
    → Each R xs' ys'
moved R {xs} {xs'} {ys} {ys'} e f each =
    subst (λ l. Each R l ys') e (subst (λ l. Each R xs l) f each)

entry_converted :
    (rate : Rate) (x y : Entry) → convert_entry rate x ≡ ok y → EntryConverted rate x y
entry_converted rate x y e = elim (Result-cases (convert x.amount rate)) [
  | inr (_, bad) ↦ absurd (ground (arith, e, bad))
  | inl (n, made) ↦ (n, made, ground (arith, e, made))
]

item_converted :
    (rate : Rate) (x y : Recurring) → convert_item rate x ≡ ok y → ItemConverted rate x y
item_converted rate x y e = go x.amount refl
  where
    go : (a : Option ℕ) → x.amount ≡ a → ItemConverted rate x y
    go none same = (none, rw same tt, ground (arith, e, same))
    go (some a) same = elim (Result-cases (convert a rate)) [
      | inr (_, bad) ↦ absurd (ground (arith, e, same, bad))
      | inl (n, made) ↦ (some (max n 1), rw same (n, made, refl), ground (arith, e, same, made))
    ]

budget_converted :
    (rate : Rate) (x y : Budget) → convert_budget rate x ≡ ok y → BudgetConverted rate x y
budget_converted rate x y e = go x.limit refl
  where
    go : (l : Option ℕ) → x.limit ≡ l → BudgetConverted rate x y
    go none same = (none, rw same tt, ground (arith, e, same))
    go (some l) same = elim (Result-cases (convert l rate)) [
      | inr (_, bad) ↦ absurd (ground (arith, e, same, bad))
      | inl (n, made) ↦ (some n, rw same made, ground (arith, e, same, made))
    ]

items_written :
    (rate : Rate) (db after : Db)
    → convert_recurring rate db ≡ ok after
    → (items : List Recurring) × Each (ItemConverted rate) db.recurring items
      × (after ≡ record db { recurring = items })
unfolding convert_recurring
items_written rate db after e = elim (Result-cases (traverse (convert_item rate) db.recurring)) [
  | inr (_, bad) ↦ absurd (ground (arith, e, bad))
  | inl (items, went) ↦ (
    items,
    traverse-Each (convert_item rate) (ItemConverted rate) (item_converted rate) db.recurring items
        went,
    ground (arith, e, went),
  )
]

budgets_written :
    (rate : Rate) (db after : Db)
    → convert_budgets rate db ≡ ok after
    → (budgets : List Budget) × Each (BudgetConverted rate) db.budgets budgets
      × (after ≡ record db { budgets = budgets })
unfolding convert_budgets
budgets_written rate db after e = elim (Result-cases (traverse (convert_budget rate) db.budgets)) [
  | inr (_, bad) ↦ absurd (ground (arith, e, bad))
  | inl (budgets, went) ↦ (
    budgets,
    traverse-Each (convert_budget rate) (BudgetConverted rate) (budget_converted rate) db.budgets
        budgets went,
    ground (arith, e, went),
  )
]

entries_written :
    (rate : Rate) (db after : Db)
    → convert_ledger rate db ≡ ok after
    → (ledger : List Entry) × Each (EntryConverted rate) db.ledger ledger
      × (after ≡ record db { ledger = ledger })
unfolding convert_ledger
entries_written rate db after e = elim (Result-cases (traverse (convert_entry rate) db.ledger)) [
  | inr (_, bad) ↦ absurd (ground (arith, e, bad))
  | inl (ledger, went) ↦ (
    ledger,
    traverse-Each (convert_entry rate) (EntryConverted rate) (entry_converted rate) db.ledger ledger
        went,
    ground (arith, e, went),
  )
]

tables_after :
    (rate : Rate) (db a b c d : Db)
    → Pairwise OtherId db.transactions
    → convert_transactions rate db ≡ ok a
    → convert_recurring rate a ≡ ok b
    → convert_budgets rate b ≡ ok c
    → convert_ledger rate c ≡ ok d
    → Converted (some rate) db d
tables_after rate db a b c d apart ea eb ec ed =
    let looped = convert_transactions_lem rate db a ea apart in
    let (items, each_item, made_b) = items_written rate a b eb in
    let (budgets, each_budget, made_c) = budgets_written rate b c ec in
    let (ledger, each_entry, made_d) = entries_written rate c d ed in
    let of_a = looped.rest in
    let d_transactions : d.transactions ≡ a.transactions = cc in
    let d_recurring : d.recurring ≡ items = cc in
    let d_budgets : d.budgets ≡ budgets = cc in
    let d_ledger : d.ledger ≡ ledger = cc in
    let a_recurring : a.recurring ≡ db.recurring = cc in
    let b_budgets : b.budgets ≡ db.budgets = cc in
    let c_ledger : c.ledger ≡ db.ledger = cc in
    (
      All-map (RowConverted rate db a) (RowConverted rate db d)
          (λ t. Row-moved rate db db a d t refl (ap (find transaction_id t.id) d_transactions))
          db.transactions looped.rows,
      moved (ItemConverted rate) a_recurring (sym d_recurring) each_item,
      moved (BudgetConverted rate) b_budgets (sym d_budgets) each_budget,
      moved (EntryConverted rate) c_ledger (sym d_ledger) each_entry,
    )

pub convert_all-Converted :
    (r : Option Rate) (db after : Db) (done : Conversion)
    → Pairwise OtherId db.transactions
    → convert_all r db ≡ ok (after, done)
    → Converted r db after
unfolding convert_all
convert_all-Converted none db after done apart e =
    let same : db ≡ after = ground arith in subst (Converted none db) same (refl, refl, refl, refl)
convert_all-Converted (some rate) db after done apart e =
    elim (Result-cases (convert_transactions rate db)) [
      | inr (_, bad) ↦ absurd (ground (arith, e, bad))
      | inl (a, ea) ↦ elim (Result-cases (convert_recurring rate a)) [
        | inr (_, bad) ↦ absurd (ground (arith, e, ea, bad))
        | inl (b, eb) ↦ elim (Result-cases (convert_budgets rate b)) [
          | inr (_, bad) ↦ absurd (ground (arith, e, ea, eb, bad))
          | inl (c, ec) ↦ elim (Result-cases (convert_ledger rate c)) [
            | inr (_, bad) ↦ absurd (ground (arith, e, ea, eb, ec, bad))
            | inl (d, ed) ↦
                let same : d ≡ after = ground (arith, e, ea, eb, ec, ed) in
                subst (Converted (some rate) db) same
                  (tables_after rate db a b c d apart ea eb ec ed)
          ]
        ]
      ]
    ]

-- What is said of the tables stays true when other columns of the database change.
pub same_tables :
    (r : Option Rate) (db converted after : Db)
    → Converted r (record db { applying = true }) converted
    → after.transactions ≡ converted.transactions
    → after.recurring ≡ converted.recurring
    → after.budgets ≡ converted.budgets
    → after.ledger ≡ converted.ledger
    → Converted r db after
same_tables none db converted after (t, i, b, l) t' i' b' l' = (t' ∙ t, i' ∙ i, b' ∙ b, l' ∙ l)
same_tables (some rate) db converted after (t, i, b, l) t' i' b' l' = (
  All-map (RowConverted rate (record db { applying = true }) converted) (RowConverted rate db after)
      (λ u.
        Row-moved rate (record db { applying = true }) db converted after u refl
          (ap (find transaction_id u.id) t'))
      db.transactions t,
  moved (ItemConverted rate) refl (sym i') i,
  moved (BudgetConverted rate) refl (sym b') b,
  moved (EntryConverted rate) refl (sym l') l,
)
