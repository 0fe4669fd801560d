-- ===== src/Transactions/Again.antt =====
-- A transaction that is sent twice is made once.
use meow_ny.Common.{
  ◌≡◌, true, none, some, List, [], ◌∷◌, ◌++◌, arith, inl, inr, Bool-cases, Option-cases,
}
use meow_ny.Common.Text.{Text, text_eq_refl}
use meow_ny.Common.Error.{ok, Result-cases}
use meow_ny.Money.{parse_positive_amount}
use meow_ny.Fields.{Calendar, parse_id, clean_name, clean_description, clean_date, clean_uuid}
use meow_ny.Store.{Transaction, Db}
use meow_ny.Store.Table.{fresh}
use meow_ny.Splits.Bill.{transaction_id}
use meow_ny.Transactions.{
  Shown, NewTransaction, shown, has_uuid, find_by_uuid, category_is_active, one_made, create,
}

find_by_uuid-last :
    (uuid : Text) (ts : List Transaction) (t : Transaction)
    → find_by_uuid uuid ts ≡ none
    → has_uuid uuid t ≡ true
    → find_by_uuid uuid (ts ++ t ∷ []) ≡ some t
unfolding find_by_uuid
find_by_uuid-last uuid [] t e h = ground arith
find_by_uuid-last uuid (x ∷ ts) t e h = ground (arith, find_by_uuid-last uuid ts t)

module _ (c : Calendar) where
  -- Sending a transaction with a `client_uuid` again changes nothing and answers with the same
  -- transaction: a lost answer can be asked for again.
  pub create-again :
      (db after : Db) (input : NewTransaction) (uuid : Text) (out : Shown)
      → input.client_uuid ≡ some uuid
      → create c db input ≡ ok (after, out)
      → create c after input ≡ ok (after, out)
  unfolding create
  create-again db after input uuid out given e = elim (Result-cases (clean_name input.name)) [
    | inr (_, bad) ↦ absurd (ground arith)
    | inl (name, named) ↦ elim (Result-cases (parse_positive_amount input.amount)) [
      | inr (_, bad) ↦ absurd (ground arith)
      | inl (minor, priced) ↦ elim (Result-cases (clean_date c input.payment_date)) [
        | inr (_, bad) ↦ absurd (ground arith)
        | inl (date, dated) ↦ elim (Result-cases (parse_id input.category_id)) [
          | inr (_, bad) ↦ absurd (ground arith)
          | inl (category, filed) ↦ elim (Result-cases (clean_description input.description)) [
            | inr (_, bad) ↦ absurd (ground arith)
            | inl (text, told) ↦ elim (Result-cases (clean_uuid uuid)) [
              | inr (_, bad) ↦ absurd (ground arith)
              | inl (u, clean) ↦ elim (Option-cases (find_by_uuid u db.transactions)) [
                | inr (t, there) ↦
                    let same : db ≡ after = ground arith in rw (← same) (ground arith)
                | inl new ↦ elim (Bool-cases (category_is_active db category)) [
                  | inr closed ↦ absurd (ground arith)
                  | inl active ↦
                      let t =
                        one_made (fresh transaction_id db.transactions) category (some u) name minor
                          date text in
                      let made : Db = record db { transactions = db.transactions ++ t ∷ [] } in
                      let same_db : made ≡ after = ground arith in
                      let same_out : shown db t ≡ out = ground arith in
                      let last = find_by_uuid-last u db.transactions t new (text_eq_refl u) in
                      rw (← same_db, ← same_out) (ground (arith, last))
                ]
              ]
            ]
          ]
        ]
      ]
    ]
  ]
