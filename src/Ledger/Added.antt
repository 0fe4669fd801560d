-- ===== src/Ledger/Added.antt =====
-- What adding an entry and clearing a reminder do to the balance.
use meow_ny.Common.{
  ℕ, ◌≡◌, refl, ap, ◌∙◌, Option, List, [], ◌∷◌, ◌++◌, arith, ◌==◌, if◌then◌else◌, inl, inr,
  Option-cases,
}
use meow_ny.Common.Int.{ℤ, pos, ◌+ℤ◌, +ℤ_comm, +ℤ_assoc}
use meow_ny.Common.Text.{Text}
use meow_ny.Common.Error.{ok, transpose, Result-cases}
use meow_ny.Money.{parse_positive_amount}
use meow_ny.Fields.{Calendar, parse_id, clean_date, clean_note}
use meow_ny.Store.{Entry, Db}
use meow_ny.Store.Table.{find, fresh, find-update_self}
use meow_ny.Splits.Bill.{person_key}
use meow_ny.Ledger.{signed, EntryOut, NewEntry, entry_id, insert_entry, add_from}
use meow_ny.Ledger.Balance.{
  bills_of_person, entries_of_person, balance_minor, no_reminder, clear_reminder,
}

-- What an entry that was added is.
pub record Added (db : Db) (input : NewEntry) (after : Db) : Type 0 where
  pub e : Entry
  pub stored : after ≡ record db { ledger = db.ledger ++ e ∷ [] }
  pub of_person : parse_id input.person_id ≡ ok e.person_id
  pub of_kind : e.kind ≡ input.kind
  pub of_amount : parse_positive_amount input.amount ≡ ok e.amount

pub add-Added :
    (c : Calendar) (db after : Db) (input : NewEntry) (origin : Option Text) (out : EntryOut)
    → add_from c db input origin ≡ ok (after, out)
    → Added db input after
unfolding add_from insert_entry
add-Added c db after input origin out made = elim (Result-cases (parse_id input.person_id)) [
  | inr (_, bad) ↦ absurd (ground arith)
  | inl (person_id, p) ↦ elim (Result-cases (parse_positive_amount input.amount)) [
    | inr (_, bad) ↦ absurd (ground arith)
    | inl (minor, m) ↦ elim (Result-cases (clean_date c input.date)) [
      | inr (_, bad) ↦ absurd (ground arith)
      | inl (date, d) ↦ elim (Result-cases (clean_note input.note)) [
        | inr (_, bad) ↦ absurd (ground arith)
        | inl (note, n) ↦ elim (Result-cases (transpose parse_id input.transaction_id)) [
          | inr (_, bad) ↦ absurd (ground arith)
          | inl (link, l) ↦
              let e : Entry = record {
                id = fresh entry_id db.ledger;
                person_id = person_id;
                kind = input.kind;
                amount = minor;
                date = date;
                note = note;
                transaction_id = link;
                origin_id = origin;
              } in
              record { e = e; stored = ground arith; of_person = p; of_kind = refl; of_amount = m }
        ]
      ]
    ]
  ]
]

pub entries-append :
    (id : ℕ) (es : List Entry) (e : Entry)
    → entries_of_person id (es ++ e ∷ [])
      ≡ entries_of_person id es +ℤ (if e.person_id == id then signed e.kind e.amount else pos 0)
unfolding entries_of_person
entries-append id [] e =
    +ℤ_comm (if e.person_id == id then signed e.kind e.amount else pos 0) (pos 0)
entries-append id (x ∷ es) e =
    ap (λ n. (if x.person_id == id then signed x.kind x.amount else pos 0) +ℤ n)
      (entries-append id es e)
    ∙ +ℤ_assoc (if x.person_id == id then signed x.kind x.amount else pos 0)
        (entries_of_person id es) (if e.person_id == id then signed e.kind e.amount else pos 0)

pub balance_of :
    (db : Db) (id : ℕ) (e : Entry) (before : ℤ)
    → balance_minor db id ≡ ok before
    → e.person_id ≡ id
    → balance_minor (record db { ledger = db.ledger ++ e ∷ [] }) id
      ≡ ok (before +ℤ signed e.kind e.amount)
unfolding balance_minor
balance_of db id e before now same = elim (Option-cases (find person_key id db.people)) [
  | inl gone ↦ absurd (ground arith)
  | inr (p, here) ↦
      let old : pos (bills_of_person id db.transactions) +ℤ entries_of_person id db.ledger
          ≡ before =
        ground arith in
      let step = entries-append id db.ledger e in
      let joined =
        +ℤ_assoc (pos (bills_of_person id db.transactions)) (entries_of_person id db.ledger)
          (signed e.kind e.amount) in
      ground (arith, old, step, joined)
]

pub balance-clear_reminder :
    (db : Db) (id : ℕ) {n : ℤ}
    → balance_minor db id ≡ ok n
    → balance_minor (clear_reminder db id) id ≡ ok n
unfolding balance_minor clear_reminder
balance-clear_reminder db id {n} e = elim (Option-cases (find person_key id db.people)) [
  | inl gone ↦ absurd (ground arith)
  | inr (p, here) ↦
      let found = find-update_self person_key id no_reminder db.people (λ a. refl) here in
      ground (arith, found)
]
