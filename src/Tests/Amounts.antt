-- ===== src/Tests/Amounts.antt =====
-- Amounts and allocations at concrete numbers.
use meow_ny.Common.{
  ℕ, ◌+◌, ◌^◌, ◌≤◌, ◌<◌, ◌≡◌, ◌⊎◌, refl, List, [], ◌∷◌, sum, length, get_or, map, ◌-◌, arith,
}
use meow_ny.Common.Int.{pos}
use meow_ny.Common.Text.{Text, split_once}
use meow_ny.Common.Error.{ok, ◌>>=◌}
use meow_ny.Money.{max_minor, whole_ok, fraction_ok, parse_amount, format_amount}
use meow_ny.Money.RoundTrip.{parse_amount-format_amount, format_amount-parse_amount}
use meow_ny.Splits.Allocate.{allocate, share, remainder}
use meow_ny.Splits.Allocate.Shares.{allocate-sum, allocate-near, allocate_odd_cents}
use meow_ny.Splits.Allocate.Bounds.{allocate_fits}
use meow_ny.Splits.Allocate.Machine.{allocate_u128}

parse_amount-format_amount_example : parse_amount (format_amount (pos 1250)) ≡ ok 1250
parse_amount-format_amount_example = parse_amount-format_amount 1250 (omega arith)

abbrev price : Text
price = b'1' ∷ b'2' ∷ b'.' ∷ b'5' ∷ b'0' ∷ []

price_read : parse_amount price ≡ ok 1250
unfolding parse_amount split_once whole_ok fraction_ok
price_read = refl

format_amount-parse_amount_example : (1250 ≤ max_minor) × (format_amount (pos 1250) ≡ price)
format_amount-parse_amount_example = format_amount-parse_amount price 1250 price_read

abbrev thirds : List ℕ
thirds = 1 ∷ 1 ∷ 1 ∷ []

abbrev thirds_of_1000 : List ℕ
thirds_of_1000 = 334 ∷ 333 ∷ 333 ∷ []

thirds_made : allocate (pos 1000) thirds ≡ ok thirds_of_1000
unfolding allocate
thirds_made = refl

allocate-sum_example :
    (ps : List ℕ) × (allocate (pos 1000) thirds ≡ ok ps)
    × (length ps ≡ length thirds)
    × (sum ps ≡ 1000)
allocate-sum_example = allocate-sum 1000 thirds (omega arith)

allocate-near_example :
    (get_or thirds_of_1000 0 0 ≡ share 1000 3 1)
    ⊎ ((get_or thirds_of_1000 0 0 ≡ share 1000 3 1 + 1) × (0 < remainder 1000 3 1))
allocate-near_example = allocate-near 1000 thirds thirds_of_1000 0 thirds_made (omega arith)

allocate_odd_cents_example :
    (remainder 1000 3 1 < remainder 1000 3 1)
    ⊎ ((remainder 1000 3 1 ≡ remainder 1000 3 1) × (0 < 1))
allocate_odd_cents_example =
    allocate_odd_cents 1000 thirds thirds_of_1000 0 1 thirds_made (omega arith) (omega arith) refl
      refl

allocate_fits_example :
    allocate_u128 (pos 1000) thirds
    ≡ (allocate (pos 1000) thirds >>= λ ps. ok (map (λ p. pos p) ps))
allocate_fits_example =
    allocate_fits (pos 1000) thirds (omega arith) (omega arith, (omega arith, (omega arith, tt)))
      (omega arith)

-- The largest weight there is.
wrapped : allocate_u128 (pos 3) ((2 ^ 64 - 1) ∷ 1 ∷ []) ≡ ok (pos 3 ∷ pos 0 ∷ [])
unfolding allocate_u128
wrapped = refl
