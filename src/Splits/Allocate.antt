-- ===== src/Splits/Allocate.antt =====
-- `allocate` of src-tauri/src/debts/splits.rs: a total split by weights, to the cent. A `u64` weight
-- and the `u128` numbers of the body are naturals here; `Allocate.Machine` has them wrap around.
mod Bumps
mod Order
pub mod Shares
pub mod Machine
pub mod Bounds
use meow_ny.Common.{
  ℕ, suc, zero, ◌+◌, ◌-◌, ◌*◌, ◌/◌, ◌%◌, Bool, true, false, ◌||◌, List, [], ◌∷◌, map, ltb, leb,
  ◌==◌, if◌then◌else◌, sum, take,
}
use meow_ny.Common.Int.{ℤ, pos, pos_part, ltb_ℤ}
use meow_ny.Common.Error.{Result, ok, err, invalid_input}
use meow_ny.Common.Sort.{sort}

-- The exact part of a weight, rounded down, and what that leaves over.
abbrev pub share : ℕ → ℕ → ℕ → ℕ
share total all weight = total * weight / all

abbrev pub remainder : ℕ → ℕ → ℕ → ℕ
remainder total all weight = total * weight % all

-- The first loop's `remainders`, from a position on.
abbrev pub remainders : ℕ → ℕ → ℕ → List ℕ → List (ℕ × ℕ)
remainders total all position [] = []
remainders total all position (w ∷ ws) =
    (remainder total all w, position) ∷ remainders total all (suc position) ws

-- `b.0.cmp(&a.0).then(a.1.cmp(&b.1))` is not `Greater`.
abbrev pub not_after : ℕ × ℕ → ℕ × ℕ → Bool
not_after (r, p) (r', p') = if ltb r' r then true else if r == r' then leb p p' else false

-- `parts[position] += 1`
abbrev pub bump : ℕ → List ℕ → List ℕ
bump p [] = []
bump zero (x ∷ xs) = (x + 1) ∷ xs
bump (suc p) (x ∷ xs) = x ∷ bump p xs

abbrev pub bump_all : List (ℕ × ℕ) → List ℕ → List ℕ
bump_all [] parts = parts
bump_all ((_, position) ∷ rest) parts = bump_all rest (bump position parts)

pub shares : ℕ → ℕ → List ℕ → List ℕ
unfolding sort
shares total all weights =
    let parts = map (share total all) weights in
    let left = total - sum parts in
    bump_all (take left (sort not_after (remainders total all 0 weights))) parts

unfoldable pub allocate : ℤ → List ℕ → Result (List ℕ)
unfolding shares
allocate total weights =
    if ltb_ℤ total (pos 0) || (sum weights == 0)
    then err invalid_input
    else ok (shares (pos_part total) (sum weights) weights)
