-- ===== src/Stamp/Newer.antt =====
-- The clock never goes backwards, and never falls behind a stamp that it has seen.
use meow_ny.Common.{ℕ, ◌≤◌, ◌<◌, ◌≡◌, ◌⊎◌, arith}
use meow_ny.Store.{Db}
use meow_ny.Stamp.{Stamp, tick, observed, observe}

-- The order of stamps, by (milliseconds, counter).
abbrev pub Before : ℕ → ℕ → Stamp → Type 0
Before ms counter s = (ms < s.ms) ⊎ ((ms ≡ s.ms) × (counter < s.counter))

-- A stamp that is made after another one was seen is newer than that one and than every stamp that the
-- clock made before, whatever the wall clock says, and its counter still fits 16 bits.
pub tick_after_observe :
    (db : Db) (seen : Stamp) (now : ℕ)
    → db.clock.last_counter ≤ 65535
    → seen.counter ≤ 65535
    → Before seen.ms seen.counter (tick now (observe seen db)).1
      × Before db.clock.last_ms db.clock.last_counter (tick now (observe seen db)).1
      × ((tick now (observe seen db)).1.counter ≤ 65535)
unfolding tick observe observed
tick_after_observe db seen now fits seen_fits = ground arith
