-- ===== src/Recurring/Open.antt =====
-- The loop of `advance`: it stops, and where.
use meow_ny.Common.{
  ℕ, zero, suc, ◌+◌, ◌≤◌, ◌<◌, ◌≡◌, ◌⊎◌, refl, Bool, true, false, not, Option, none, some, List,
  arith, inl, inr, Bool-cases, Option-cases,
}
use meow_ny.Common.Text.{Text}
use meow_ny.Common.Error.{ok, Result-cases}
use meow_ny.Fields.{Calendar, parse_date}
use meow_ny.Store.{IntervalUnit, Recurring, Transaction}
use meow_ny.Recurring.{u32_size, next_after, past_end, open_from}
use meow_ny.Recurring.First.{next_after-first}
use meow_ny.Recurring.Moves.{advanced, landed, closed, next_open}

-- The days of the calendar have numbers below 2 ^ 32: `chrono` counts from the year -262143 to 262142.
abbrev pub Bounded : Calendar → Type 0
Bounded c = (d : c.Day) → c.number d < u32_size

module _ (c : Calendar) (is_closed : Text → Bool) (end : Option Text) (start : c.Day)
    (unit : IntervalUnit) (count : ℕ) where
  -- From one occurrence to a later one, over occurrences that are within the end date and closed.
  pub data Passes : c.Day → c.Day → Type 0 where
    arrived : {d : c.Day} → Passes d d
    onward :
        {a b d : c.Day}
        → past_end c end (c.show_day a) ≡ false
        → is_closed (c.show_day a) ≡ true
        → next_after c start unit count a ≡ some b
        → Passes b d
        → Passes a d

  -- The loop stops at an occurrence that is past the end date, or not closed.
  abbrev pub IsStop : c.Day → Type 0
  IsStop d = (past_end c end (c.show_day d) ≡ true) ⊎ (is_closed (c.show_day d) ≡ false)

  -- Off the calendar: after the last occurrence that is passed there is none. That one is within the
  -- end date and closed, like the others.
  abbrev pub RunsOut : c.Day → Type 0
  RunsOut a =
      (d : c.Day) × Passes a d
      × (past_end c end (c.show_day d) ≡ false)
      × (is_closed (c.show_day d) ≡ true)
      × (next_after c start unit count d ≡ none)

  open_from-none : (fuel : ℕ) → open_from c is_closed end start unit count fuel none ≡ none
  unfolding open_from
  open_from-none zero = refl
  open_from-none (suc fuel) = refl

  pub open_from-Passes :
      Bounded c
      → (fuel : ℕ) (a : c.Day) → u32_size ≤ fuel + c.number a
      → ((d : c.Day) × (open_from c is_closed end start unit count fuel (some a) ≡ some d)
          × Passes a d
          × IsStop d)
        ⊎ ((open_from c is_closed end start unit count fuel (some a) ≡ none) × RunsOut a)
  unfolding open_from
  open_from-Passes bounded zero a enough = absurd (omega (arith, bounded a))
  open_from-Passes bounded (suc fuel) a enough = elim (Bool-cases (past_end c end (c.show_day a))) [
    | inl past ↦ inl (a, ground arith, arrived, inl past)
    | inr within ↦ elim (Bool-cases (is_closed (c.show_day a))) [
      | inr still ↦ inl (a, ground arith, arrived, inr still)
      | inl closed ↦ elim (Option-cases (next_after c start unit count a)) [
        | inl off ↦
            let nothing = open_from-none fuel in
            inr (ground arith, (a, arrived, within, closed, off))
        | inr (b, next) ↦
            let (_, _, later, _) = next_after-first c start unit count a b next in
            elim (open_from-Passes bounded fuel b (omega (arith, later))) [
              | inl (d, found, passes, stop) ↦
                  inl (d, ground arith, onward within closed next passes, stop)
              | inr (gone, (d, passes, inside, last, off)) ↦
                  inr (ground arith, (d, onward within closed next passes, inside, last, off))
            ]
      ]
    ]
  ]

-- The calendar ends before an open occurrence: there is none after the due date, or all of them are
-- within the end date and closed.
abbrev pub CalendarEnds : (c : Calendar) → List Transaction → Recurring → c.Day → c.Day → Type 0
CalendarEnds c payments r start due =
    (next_after c start r.interval_unit r.interval_count due ≡ none)
    ⊎ ((first : c.Day) × (next_after c start r.interval_unit r.interval_count due ≡ some first)
        × RunsOut c (closed c payments r) r.end_date start r.interval_unit r.interval_count first)

-- Where the loop of `advance` ends for an item: at an occurrence where it stops, or off the calendar.
abbrev Lands : (c : Calendar) → List Transaction → Recurring → c.Day → c.Day → Option c.Day → Type 0
Lands c payments r start due next =
    ((first : c.Day) × (d : c.Day) × (next_after c start r.interval_unit r.interval_count due
        ≡ some first)
      × Passes c (closed c payments r) r.end_date start r.interval_unit r.interval_count first d
      × (next ≡ some d)
      × IsStop c (closed c payments r) r.end_date start r.interval_unit r.interval_count d)
    ⊎ ((next ≡ none) × CalendarEnds c payments r start due)

next_open-Lands :
    (c : Calendar) (payments : List Transaction) (r : Recurring) (start due : c.Day)
    → Bounded c
    → Lands c payments r start due (next_open c payments r start due)
unfolding next_open
next_open-Lands c payments r start due bounded =
    elim (Option-cases (next_after c start r.interval_unit r.interval_count due)) [
      | inl off ↦ inr (
        rw off (
            open_from-none c (closed c payments r) r.end_date start r.interval_unit r.interval_count
              u32_size),
        inl off,
      )
      | inr (first, found) ↦
          elim (open_from-Passes c (closed c payments r) r.end_date start r.interval_unit
            r.interval_count bounded u32_size first (omega arith)) [
              | inl (d, stopped, passes, stop) ↦
                  inl (first, d, found, passes, rw found stopped, stop)
              | inr (gone, runs_out) ↦ inr (rw found gone, inr (first, found, runs_out))
            ]
    ]

-- A payment or a skip moves the item to the oldest occurrence after the one it is on that is still
-- open, passing over those within the end date that are skipped or paid; the item goes on just when
-- that one is not past the end date, and one past the end date is where it stops; it stops where it
-- is only when the calendar ends before an open occurrence. The loop needs no more steps than the
-- calendar has days.
pub advanced-open :
    (c : Calendar) (payments : List Transaction) (r : Recurring) (next : Text) (active : Bool)
    → Bounded c
    → advanced c payments r ≡ ok (next, active)
    → (start : c.Day) × (due : c.Day) × (parse_date c r.start_date ≡ ok start)
      × (parse_date c r.next_due_date ≡ ok due)
      × (((first : c.Day) × (d : c.Day) × (next_after c start r.interval_unit r.interval_count due
              ≡ some first)
            × Passes c
                (closed c payments r)
                r.end_date
                start
                r.interval_unit
                r.interval_count
                first
                d
            × (c.show_day d ≡ next)
            × (not (past_end c r.end_date next) ≡ active)
            × ((past_end c r.end_date next ≡ true) ⊎ (closed c payments r next ≡ false)))
          ⊎ ((r.next_due_date ≡ next) × (active ≡ false) × CalendarEnds c payments r start due))
unfolding advanced
advanced-open c payments r next active bounded e = elim (Result-cases (parse_date c r.start_date)) [
  | inr (_, bad) ↦ absurd (cc)
  | inl (start, s) ↦ elim (Result-cases (parse_date c r.next_due_date)) [
    | inr (_, bad) ↦ absurd (cc)
    | inl (due, d) ↦
        let made : landed c r (next_open c payments r start due) ≡ (next, active) = cc in
        (
          start,
          due,
          s,
          d,
          elim (next_open-Lands c payments r start due bounded) [
            | inl (first, x, found, passes, here, stop) ↦
                let same : c.show_day x ≡ next = cc in
                inl (first, x, found, passes, same, cc, rw (← same) stop)
            | inr (gone, ends) ↦ inr (cc, cc, ends)
          ],
        )
  ]
]
