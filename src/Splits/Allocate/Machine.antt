-- ===== src/Splits/Allocate/Machine.antt =====
-- `allocate` of src-tauri/src/debts/splits.rs in the machine's numbers: each operation of its body
-- wraps around at the width of its type, with `u128` numbers, a `usize` of 64 bits and `i64` parts.
use meow_ny.Common.{
  ℕ, suc, zero, ◌+◌, ◌-◌, ◌*◌, ◌/◌, ◌%◌, ◌^◌, ◌||◌, List, [], ◌∷◌, ltb, ◌==◌, map, take,
  if◌then◌else◌,
}
use meow_ny.Common.Int.{ℤ, pos, negsuc, pos_part, ltb_ℤ}
use meow_ny.Common.Error.{Result, ok, err, invalid_input}
use meow_ny.Common.Sort.{sort}
use meow_ny.Splits.Allocate.{not_after}

abbrev pub wrap : ℕ → ℕ
wrap n = n % 2 ^ 128

-- `iter().sum()` of `u128` numbers, from what is added up so far.
unfoldable pub sum_u128 : ℕ → List ℕ → ℕ
sum_u128 acc [] = acc
sum_u128 acc (w ∷ ws) = sum_u128 (wrap (acc + w)) ws

-- `a - b` of `u128` numbers.
abbrev pub sub_u128 : ℕ → ℕ → ℕ
sub_u128 a b = wrap (a + (2 ^ 128 - b))

-- `as usize`, of 64 bits
abbrev pub as_usize : ℕ → ℕ
as_usize n = n % 2 ^ 64

-- `as i64`, in two's complement
unfoldable pub as_i64 : ℕ → ℤ
as_i64 n = if ltb (n % 2 ^ 64) (2 ^ 63) then pos (n % 2 ^ 64) else negsuc (2 ^ 64 - 1 - n % 2 ^ 64)

abbrev pub share_u128 : ℕ → ℕ → ℕ → ℕ
share_u128 total all weight = wrap (total * weight) / all

abbrev pub remainders_u128 : ℕ → ℕ → ℕ → List ℕ → List (ℕ × ℕ)
remainders_u128 total all position [] = []
remainders_u128 total all position (w ∷ ws) =
    (wrap (total * w) % all, position) ∷ remainders_u128 total all (suc position) ws

abbrev pub bump_u128 : ℕ → List ℕ → List ℕ
bump_u128 p [] = []
bump_u128 zero (x ∷ xs) = wrap (x + 1) ∷ xs
bump_u128 (suc p) (x ∷ xs) = x ∷ bump_u128 p xs

unfoldable pub bump_all_u128 : List (ℕ × ℕ) → List ℕ → List ℕ
bump_all_u128 [] parts = parts
bump_all_u128 ((_, position) ∷ rest) parts = bump_all_u128 rest (bump_u128 position parts)

unfoldable pub shares_u128 : ℕ → ℕ → List ℕ → List ℕ
unfolding sort sum_u128 bump_all_u128
shares_u128 total all weights =
    let parts = map (share_u128 total all) weights in
    let left = as_usize (sub_u128 total (sum_u128 0 parts)) in
    bump_all_u128 (take left (sort not_after (remainders_u128 total all 0 weights))) parts

unfoldable pub allocate_u128 : ℤ → List ℕ → Result (List ℤ)
unfolding sum_u128 shares_u128 as_i64
allocate_u128 total weights =
    if ltb_ℤ total (pos 0) || (sum_u128 0 weights == 0)
    then err invalid_input
    else ok (map as_i64 (shares_u128 (pos_part total) (sum_u128 0 weights) weights))
