-- ===== src/Currency/Rounding.antt =====
-- The rounding of a conversion.
use meow_ny.Common.{ℕ, ◌+◌, ◌*◌, ◌/◌, ◌%◌, ◌≤◌, ◌<◌, ◌≡◌, arith, leb, if◌then◌else◌}
use native.Mathlib.Nat.{div-add-mod, mod-lt}
use meow_ny.Common.Error.{ok, err, invalid_input}
use meow_ny.Money.{max_minor}
use meow_ny.Currency.{Rate, convert}

rounded_is :
    (x m n : ℕ)
    → (if leb (x / m) max_minor then ok (x / m) else err invalid_input) ≡ ok n
    → (x / m ≡ n) × (n ≤ max_minor)
rounded_is x m n e = ground arith

-- A converted amount is the exact product rounded half up: it is at most half a cent more than it, and
-- less than half a cent below; and it can be stored.
pub convert_half_up :
    (minor n : ℕ) (rate : Rate)
    → 1 ≤ rate.denominator
    → convert minor rate ≡ ok n
    → (n * rate.denominator * 2 ≤ minor * rate.numerator * 2 + rate.denominator)
      × (minor * rate.numerator * 2 < n * rate.denominator * 2 + rate.denominator)
      × (n ≤ max_minor)
unfolding convert
convert_half_up minor n rate some_den e =
    let x = minor * rate.numerator * 2 + rate.denominator in
    let (same, small) = rounded_is x (2 * rate.denominator) n e in
    let split : 2 * rate.denominator * n + x % (2 * rate.denominator) ≡ x =
      rw (← same) (div-add-mod x (2 * rate.denominator)) in
    let below = mod-lt x {m = 2 * rate.denominator} (omega arith) in
    (grind (arith, split), grind (arith, split, below), small)
