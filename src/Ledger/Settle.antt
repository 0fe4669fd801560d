-- ===== src/Ledger/Settle.antt =====
-- Marking a payment between you and a friend.
use meow_ny.Common.{
  ℕ, ◌^◌, ◌≤◌, ◌<◌, ◌≡◌, refl, ap, sym, subst, ◌∙◌, Bool, true, false, Option, none, some, [], ◌∷◌,
  ◌++◌, arith, if◌then◌else◌, inl, inr, Bool-cases,
}
use meow_ny.Common.Int.{ℤ, pos, ◌+ℤ◌, ◌-ℤ◌, abs, ltb_ℤ, is_zero, eq_of_parts}
use meow_ny.Common.Text.{Text}
use meow_ny.Common.Decimal.{show}
use meow_ny.Common.Error.{unwrap_or, ok, Result-cases}
use meow_ny.Money.{parse_amount, parse_positive_amount, format_amount}
use meow_ny.Money.RoundTrip.{format_amount-parse_amount, format_amount-injective}
use meow_ny.Transactions.Update.{or_else}
use meow_ny.Fields.{Calendar}
use meow_ny.Fields.Shown.{parse_id-show}
use meow_ny.Store.{Kind, Person, Entry, Db, repaid_to_me, repaid_by_me}
use meow_ny.Store.Table.{find, find-update_self}
use meow_ny.Splits.Bill.{person_key}
use meow_ny.Ledger.{EntryOut, signed, NewEntry, add_from, add}
use meow_ny.Ledger.Balance.{balance_minor, no_reminder, clear_reminder, Settled, settle}
use meow_ny.Ledger.Added.{balance_of, balance-clear_reminder, add-Added}

-- The amount that was asked for: the whole balance, or the one that the text says.
abbrev pub Asked : Option Text → ℤ → ℕ → Type 0
Asked none before n = n ≡ abs before
Asked (some text) before n = parse_positive_amount text ≡ ok n

-- The payment of a settlement, before the reminder is looked at.
record Payment (db : Db) (id : ℕ) (amount : Option Text) (added : Db) : Type 0 where
  before : ℤ
  e : Entry
  now : balance_minor db id ≡ ok before
  not_zero : is_zero before ≡ false
  person_id : e.person_id ≡ id
  kind : e.kind ≡ (if ltb_ℤ (pos 0) before then repaid_to_me else repaid_by_me)
  asked : Asked amount before e.amount
  stored : added ≡ record db { ledger = db.ledger ++ e ∷ [] }
  balance : balance_minor added id ≡ ok (before +ℤ signed e.kind e.amount)

amount_read :
    (minor got : ℕ)
    → minor < 10 ^ 20
    → parse_positive_amount (format_amount (pos minor)) ≡ ok got
    → got ≡ minor
unfolding parse_positive_amount
amount_read minor got small e = elim (Result-cases (parse_amount (format_amount (pos minor)))) [
  | inr (_, bad) ↦ absurd (ground arith)
  | inl (n, read) ↦
      let (in_range, same) = format_amount-parse_amount (format_amount (pos minor)) n read in
      let back = format_amount-injective n minor (omega (arith, in_range)) small same in
      ground arith
]

amount-Asked :
    (amount : Option Text) (before : ℤ) (minor : ℕ)
    → abs before < 0x8000000000000000
    → or_else amount parse_positive_amount (ok (abs before)) ≡ ok minor
    → (minor < 10 ^ 20) × Asked amount before minor
unfolding parse_positive_amount
amount-Asked none before minor small e = (ground arith, ground arith)
amount-Asked (some text) before minor small small_e = elim (Result-cases (parse_amount text)) [
  | inr (_, bad) ↦ absurd (ground arith)
  | inl (n, read) ↦ (ground (arith, (format_amount-parse_amount text n read).0), small_e)
]

-- The tables after the payment, with the reminder cleared or not.
abbrev maybe_cleared : Bool → Db → ℕ → Db
maybe_cleared done added id = if done then clear_reminder added id else added

settle-Payment :
    (c : Calendar) (db after : Db) (id : ℕ) (amount date note : Option Text) (today : Text)
    (s : Settled)
    → 1 ≤ id
    → id < 0x8000000000000000
    → ((before : ℤ) → balance_minor db id ≡ ok before → abs before < 0x8000000000000000)
    → settle c db id amount date note today ≡ ok (after, s)
    → (added : Db) × (p : Payment db id amount added) × (maybe_cleared
          (is_zero (p.before +ℤ signed p.e.kind p.e.amount))
          added
          id
        ≡ after)
unfolding settle add
settle-Payment c db after id amount date note today s some_id small fits made =
    elim (Result-cases (balance_minor db id)) [
      | inr (_, bad) ↦ absurd (ground arith)
      | inl (before, now) ↦ elim (Bool-cases (is_zero before)) [
        | inl zero_balance ↦ absurd (ground arith)
        | inr not_zero ↦
            elim (Result-cases (or_else amount parse_positive_amount (ok (abs before)))) [
              | inr (_, bad) ↦ absurd (ground arith)
              | inl (minor, read) ↦ elim (Result-cases (add_from c db (input before minor) none)) [
                | inr (_, bad) ↦ absurd (ground arith)
                | inl ((added, out), put) ↦
                    let p = paid before minor added out now not_zero read put in
                    let balance = p.balance in (added, p, ground (arith, balance))
              ]
            ]
      ]
    ]
  where
    input : ℤ → ℕ → NewEntry
    input before minor = record {
      person_id = show id;
      kind = if ltb_ℤ (pos 0) before then repaid_to_me else repaid_by_me;
      amount = format_amount (pos minor);
      date = unwrap_or date today;
      note = note;
      transaction_id = none;
    }

    paid :
        (before : ℤ) (minor : ℕ) (added : Db) (out : EntryOut)
        → balance_minor db id ≡ ok before
        → is_zero before ≡ false
        → or_else amount parse_positive_amount (ok (abs before)) ≡ ok minor
        → add_from c db (input before minor) none ≡ ok (added, out)
        → Payment db id amount added
    paid before minor added out now not_zero read put =
        let a = add-Added c db added (input before minor) none out put in
        let person_same : a.e.person_id ≡ id =
          ground (arith, a.of_person, parse_id-show id some_id small) in
        let (in_range, asked) = amount-Asked amount before minor (fits before now) read in
        record {
          before = before;
          e = a.e;
          now = now;
          not_zero = not_zero;
          person_id = person_same;
          kind = a.of_kind;
          asked =
              subst (Asked amount before) (sym (amount_read minor a.e.amount in_range a.of_amount))
                asked;
          stored = a.stored;
          balance =
              subst (λ d. balance_minor d id ≡ ok (before +ℤ signed a.e.kind a.e.amount))
                (sym a.stored) (balance_of db id a.e before now person_same);
        }

-- Clearing the reminder touches neither the ledger nor the transactions.
maybe_cleared_lem :
    (done : Bool) (added : Db) (id : ℕ) {n : ℤ}
    → balance_minor added id ≡ ok n
    → (balance_minor (maybe_cleared done added id) id ≡ ok n)
      × ((maybe_cleared done added id).ledger ≡ added.ledger)
      × ((maybe_cleared done added id).transactions ≡ added.transactions)
unfolding clear_reminder
maybe_cleared_lem true added id e = (balance-clear_reminder added id e, refl, refl)
maybe_cleared_lem false added id e = (e, refl, refl)

effect_of :
    (before : ℤ) (kind : Kind) (n : ℕ)
    → kind ≡ (if ltb_ℤ (pos 0) before then repaid_to_me else repaid_by_me)
    → before +ℤ signed kind n ≡ (if ltb_ℤ (pos 0) before then before -ℤ pos n else before +ℤ pos n)
unfolding ◌+ℤ◌ ◌-ℤ◌
effect_of before kind n k = elim (Bool-cases (ltb_ℤ (pos 0) before)) [
  | inl owed ↦
      let same : kind ≡ repaid_to_me = ground (arith, k, owed) in
      rw (same, owed) (eq_of_parts _ _ (ground arith))
  | inr owing ↦ let same : kind ≡ repaid_by_me = ground (arith, k, owing) in rw (same, owing) refl
]

settled :
    (before : ℤ) (n : ℕ)
    → is_zero before ≡ false
    → n ≡ abs before
    → (if ltb_ℤ (pos 0) before then before -ℤ pos n else before +ℤ pos n) ≡ pos 0
unfolding ◌+ℤ◌ ◌-ℤ◌
settled before n nz same = ground arith

-- "Mark as paid", when it succeeds, adds one entry for the friend and no transaction: their
-- repayment when they owe you, and yours otherwise, of the amount that was asked for or else of the
-- whole balance, so the balance goes down by that when they owe you and up by it when you owe them.
-- The id and the balance before it are within an `i64`.
pub settle-balance :
    (c : Calendar) (db after : Db) (id : ℕ) (amount date note : Option Text) (today : Text)
    (s : Settled)
    → 1 ≤ id
    → id < 0x8000000000000000
    → ((before : ℤ) → balance_minor db id ≡ ok before → abs before < 0x8000000000000000)
    → settle c db id amount date note today ≡ ok (after, s)
    → (before : ℤ) × (e : Entry) × (balance_minor db id ≡ ok before)
      × (after.ledger ≡ db.ledger ++ e ∷ [])
      × (e.person_id ≡ id)
      × (e.kind ≡ (if ltb_ℤ (pos 0) before then repaid_to_me else repaid_by_me))
      × Asked amount before e.amount
      × (after.transactions ≡ db.transactions)
      × (balance_minor after id
          ≡ ok (if ltb_ℤ (pos 0) before then before -ℤ pos e.amount else before +ℤ pos e.amount))
settle-balance c db after id amount date note today s some_id small fits made =
    let (added, p, here) =
      settle-Payment c db after id amount date note today s some_id small fits made in
    let effect = effect_of p.before p.e.kind p.e.amount p.kind in
    let done = is_zero (p.before +ℤ signed p.e.kind p.e.amount) in
    let (balance, ledger, transactions) = maybe_cleared_lem done added id p.balance in
    (
      p.before,
      p.e,
      p.now,
      ap (λ (d : Db). d.ledger) (sym here) ∙ ledger ∙ ap (λ (d : Db). d.ledger) p.stored,
      p.person_id,
      p.kind,
      p.asked,
      ap (λ (d : Db). d.transactions) (sym here)
          ∙ transactions
          ∙ ap (λ (d : Db). d.transactions) p.stored,
      ap (λ d. balance_minor d id) (sym here) ∙ balance ∙ ap ok effect,
    )

-- "Mark as paid" with no amount, when it succeeds, makes the balance 0 and clears the reminder of the
-- friend. The id and the balance before it are within an `i64`.
pub settle_whole :
    (c : Calendar) (db after : Db) (id : ℕ) (date note : Option Text) (today : Text) (s : Settled)
    (p : Person)
    → 1 ≤ id
    → id < 0x8000000000000000
    → ((before : ℤ) → balance_minor db id ≡ ok before → abs before < 0x8000000000000000)
    → find person_key id db.people ≡ some p
    → settle c db id none date note today ≡ ok (after, s)
    → (balance_minor after id ≡ ok (pos 0))
      × (find person_key id after.people ≡ some (no_reminder p))
unfolding clear_reminder
settle_whole c db after id date note today s p some_id small fits there made =
    let (added, q, here) =
      settle-Payment c db after id none date note today s some_id small fits made in
    let effect = effect_of q.before q.e.kind q.e.amount q.kind in
    let zero_after = effect ∙ settled q.before q.e.amount q.not_zero q.asked in
    let cleared : clear_reminder added id ≡ after =
      ap (λ n. maybe_cleared (is_zero n) added id) (sym zero_after) ∙ here in
    let still_there = ap (λ (d : Db). find person_key id d.people) q.stored ∙ there in
    (
      ap (λ d. balance_minor d id) (sym cleared)
          ∙ balance-clear_reminder added id q.balance
          ∙ ap ok zero_after,
      ap (λ (d : Db). find person_key id d.people) (sym cleared)
          ∙ find-update_self person_key id no_reminder added.people (λ a. refl) still_there,
    )
