-- ===== src/Tests/Repeats.antt =====
-- The occurrences of the rent of the small database.
use meow_ny.Common.{ℕ, ◌≤◌, ◌<◌, ◌≡◌, ◌⊎◌, refl, true, false, not, some, [], ◌∷◌}
use meow_ny.Common.Text.{Text}
use meow_ny.Common.Decimal.{show}
use meow_ny.Common.Error.{ok}
use meow_ny.Fields.{parse_date}
use meow_ny.Store.{month}
use meow_ny.Recurring.{due_date, next_after, past_end}
use meow_ny.Recurring.First.{next_after-first}
use meow_ny.Recurring.Open.{CalendarEnds, Passes, advanced-open}
use meow_ny.Recurring.Moves.{advanced, closed}
use meow_ny.Tests.Data.{flat, flat-Bounded, rent}

month_later : next_after flat 1 month 1 1 ≡ some 31
unfolding next_after
month_later = refl

next_after-first_example :
    (k : ℕ) × (due_date flat 1 month 1 k ≡ some 31)
    × (flat.number 1 < flat.number 31)
    × ((j : ℕ)
        → j < k
        → (e : flat.Day) × (due_date flat 1 month 1 j ≡ some e) × (flat.number e ≤ flat.number 1))
next_after-first_example = next_after-first flat 1 month 1 1 31 month_later

-- The occurrence on day 31 is skipped.
abbrev day_61 : Text
day_61 = b'6' ∷ b'1' ∷ []

rent_moves : advanced flat [] rent ≡ ok (day_61, true)
unfolding advanced show
rent_moves = refl

advanced-open_example :
    (start : flat.Day) × (due : flat.Day) × (parse_date flat rent.start_date ≡ ok start)
    × (parse_date flat rent.next_due_date ≡ ok due)
    × (((first : flat.Day) × (d : flat.Day) × (next_after flat start rent.interval_unit
              rent.interval_count due
            ≡ some first)
          × Passes flat
              (closed flat [] rent)
              rent.end_date
              start
              rent.interval_unit
              rent.interval_count
              first
              d
          × (flat.show_day d ≡ day_61)
          × (not (past_end flat rent.end_date day_61) ≡ true)
          × ((past_end flat rent.end_date day_61 ≡ true) ⊎ (closed flat [] rent day_61 ≡ false)))
        ⊎ ((rent.next_due_date ≡ day_61) × (true ≡ false) × CalendarEnds flat [] rent start due))
advanced-open_example = advanced-open flat [] rent day_61 true flat-Bounded rent_moves
