-- ===== src/Tests/Entry.antt =====
-- An access token that is made, used and revoked.
use meow_ny.Common.{ℕ, ◌/◌, ◌<◌, ◌≡◌, refl, true, false, some, List, [], ◌∷◌, arith, All, all, ltb}
use meow_ny.Common.Text.{Text}
use meow_ny.Common.Order.{text_ltb}
use meow_ny.Common.Error.{ok}
use meow_ny.Sync.{codes}
use meow_ny.Tokens.{
  read, write, TokenRow, NewToken, CreatedToken, Grant, Crates, IsOrderly, has_token_shape,
  hex_encode, new_row, info_of, create, revoke, verify,
}
use meow_ny.Tokens.Granted.{IsTable, Stands, unless, create-verify, verify-Stands, verify-revoke}

-- A text hashes to itself and its end, a time is shown as one code point for its second.
abbrev crates : Crates
crates = record { hash = λ t. b'#' ∷ t; stamp = λ t. t / 1000 ∷ [] }

crates-IsOrderly : IsOrderly crates
crates-IsOrderly = record { later = λ t u le. ground arith; second_later = λ t u le. ground arith }

abbrev secret : List ℕ
secret = codes "0123456789abcdef0123456789ABCDEF"

all_bytes : (bs : List ℕ) → all (λ b. ltb b 256) bs ≡ true → All (λ b. b < 256) bs
all_bytes [] e = tt
all_bytes (b ∷ bs) e = (ground arith, all_bytes bs (ground arith))

abbrev input : NewToken
input = record { name = codes " budget agent "; scope = write; expires_in_days = 30 }

abbrev old_row : TokenRow
old_row = new_row crates 1 (codes "old") read (codes "mny_old") 5000 1

abbrev hidden : Text
hidden = codes "mny_3031323334353637383961626364656630313233343536373839414243444546"

abbrev new : TokenRow
new = new_row crates 2 (codes "budget agent") write hidden 9000 30

abbrev made : CreatedToken
made = record { token = hidden; info = info_of crates false new }

was_made : create crates input secret 9000 (old_row ∷ []) ≡ ok (made, old_row ∷ new ∷ [])
unfolding create hex_encode
was_made = refl

abbrev let_in : Grant
let_in = record { id = 2; scope = write }

different : IsTable (old_row ∷ new ∷ [])
different = (((omega arith, refl), tt), (tt, tt))

was_revoked : revoke 2 (old_row ∷ new ∷ []) ≡ ok (old_row ∷ [])
unfolding revoke
was_revoked = refl

create-verify_example : (verify crates made.token 60000 (old_row ∷ new ∷ [])).0 ≡ some let_in
create-verify_example =
    create-verify crates input secret made 9000 60000 (old_row ∷ []) (old_row ∷ new ∷ [])
      crates-IsOrderly refl (all_bytes secret refl) was_made (omega arith)

verify-Stands_example :
    (r : TokenRow) × Stands r (old_row ∷ new ∷ [])
    × (let_in ≡ record { id = r.id; scope = r.scope })
    × (r.token_hash ≡ crates.hash made.token)
    × (text_ltb (crates.stamp 60000) r.expires_at ≡ true)
    × (has_token_shape made.token ≡ true)
verify-Stands_example =
    verify-Stands crates made.token 60000 (old_row ∷ new ∷ []) let_in create-verify_example

verify-revoke_example :
    (verify crates made.token 60000 (old_row ∷ [])).0
    ≡ unless 2 (verify crates made.token 60000 (old_row ∷ new ∷ [])).0
verify-revoke_example =
    verify-revoke crates 2 made.token 60000 (old_row ∷ new ∷ []) (old_row ∷ []) different
      was_revoked
