-- ===== src/Recurring.antt =====
-- The occurrences of a recurring item: `due_date`, `first_on_or_after`, `next_after` and the loop of
-- `advance` of src-tauri/src/recurring.rs. The counter of the occurrences is an `u32`, which bounds the
-- two searches; the loop of `advance` is recursion on fuel.
pub mod Items
pub mod Moves
pub mod First
pub mod Open
use meow_ny.Common.{
  ℕ, zero, suc, ◌*◌, ◌≡◌, Bool, true, false, not, ◌&&◌, ◌||◌, Option, none, some, List, [], ◌∷◌,
  ltb, leb, ◌==◌, any, if◌then◌else◌,
}
use meow_ny.Common.Text.{Text, text_eq, text_leb}
use meow_ny.Fields.{Calendar}
use meow_ny.Store.{IntervalUnit, day, week, month, year, Transaction}

abbrev pub u32_size : ℕ
u32_size = 0x100000000

-- `a.as_str() > b`
abbrev pub text_after : Text → Text → Bool
text_after a b = not (text_leb a b)

-- `transactions` has a payment of the occurrence (`is_paid`).
abbrev pub pays : ℕ → Text → Transaction → Bool
pays id date t = elim t.recurring_id [
  | none ↦ false
  | some r ↦ (r == id) && elim t.recurring_due_date [ none ↦ false | some d ↦ text_eq d date ]
]

abbrev pub is_paid : List Transaction → ℕ → Text → Bool
is_paid ts id date = any (pays id date) ts

abbrev pub is_skipped : List Text → Text → Bool
is_skipped skipped date = any (λ d. text_eq d date) skipped

module _ (c : Calendar) where
  -- `Months::new(u32::try_from(months).ok()?)`
  unfoldable pub add_u32_months : c.Day → ℕ → Option c.Day
  add_u32_months start months = if ltb months u32_size then c.add_months start months else none

  unfoldable pub due_date : c.Day → IntervalUnit → ℕ → ℕ → Option c.Day
  unfolding add_u32_months
  due_date start day count k = c.add_days start (count * k)
  due_date start week count k = c.add_days start (count * k * 7)
  due_date start month count k = add_u32_months start (count * k)
  due_date start year count k = add_u32_months start (count * k * 12)

  -- `(k..).map_while(|k| due_date(..)).find(..)`, for the next `fuel` values of `k`
  unfoldable pub search : (c.Day → Bool) → c.Day → IntervalUnit → ℕ → ℕ → ℕ → Option c.Day
  unfolding due_date
  search is_it start unit count zero k = none
  search is_it start unit count (suc fuel) k = elim (due_date start unit count k) [
    | none ↦ none
    | some due ↦ elim (is_it due) [
      | true ↦ some due
      | false ↦ search is_it start unit count fuel (suc k)
    ]
  ]

  unfoldable pub first_on_or_after : c.Day → IntervalUnit → ℕ → c.Day → Option c.Day
  unfolding search
  first_on_or_after start unit count date =
      search (λ due. leb (c.number date) (c.number due)) start unit count u32_size 0

  unfoldable pub next_after : c.Day → IntervalUnit → ℕ → c.Day → Option c.Day
  unfolding search
  next_after start unit count date =
      search (λ due. ltb (c.number date) (c.number due)) start unit count u32_size 0

  -- Past the end date, which is text as it is stored.
  abbrev pub past_end : Option Text → Text → Bool
  past_end none text = false
  past_end (some end) text = text_after text end

  -- The loop of `advance`: on to the oldest occurrence that is neither skipped nor paid, or past the
  -- end date.
  unfoldable pub open_from :
      (Text → Bool) → Option Text → c.Day → IntervalUnit → ℕ → ℕ → Option c.Day → Option c.Day
  unfolding next_after
  open_from is_closed end start unit count zero next = next
  open_from is_closed end start unit count (suc fuel) none = none
  open_from is_closed end start unit count (suc fuel) (some candidate) =
      elim (past_end end (c.show_day candidate)) [
        | true ↦ some candidate
        | false ↦ elim (is_closed (c.show_day candidate)) [
          | false ↦ some candidate
          | true ↦
              open_from is_closed end start unit count fuel (next_after start unit count candidate)
        ]
      ]
