-- ===== src/Tokens/Granted.antt =====
-- Who is let in by a token: the one that was made and is not revoked or past its end, and nobody else.
use meow_ny.Common.{
  ℕ, ◌+◌, ◌*◌, ◌/◌, ◌%◌, ◌≤◌, ◌<◌, ◌≡◌, ◌≢◌, ◌⊎◌, refl, ◌∙◌, true, false, ◌&&◌, Option, none, some,
  List, [], ◌∷◌, ◌++◌, arith, length, all, ◌==◌, if◌then◌else◌, All, Bool-cases, Option-cases, inl,
  inr,
}
use meow_ny.Common.Text.{Text, utf8_len, text_eq, text_eq_iff, text_eq_refl}
use meow_ny.Common.Order.{text_ltb}
use meow_ny.Common.Error.{ok, Result-cases}
use meow_ny.Stamp.{is_lower_hex}
use meow_ny.Stamp.RoundTrip.{hex_is_hex, utf8_len-hex}
use meow_ny.Store.Table.{find, delete, fresh}
use meow_ny.Tokens.{
  TokenRow, NewToken, CreatedToken, Grant, Crates, IsOrderly, prefix, has_token_shape, clean_name,
  hex_encode, row_id, has_hash, new_row, create, revoke, lookup, verify, day,
}

-- The primary key and the unique index.
abbrev Differ : TokenRow → TokenRow → Type 0
Differ r q = (r.id ≢ q.id) × (text_eq r.token_hash q.token_hash ≡ false)

abbrev pub IsTable : List TokenRow → Type 0
IsTable [] = Unit
IsTable (r ∷ rs) = All (Differ r) rs × IsTable rs

abbrev pub Stands : TokenRow → List TokenRow → Type 0
Stands r [] = ⊥
Stands r (q ∷ qs) = (q ≡ r) ⊎ Stands r qs

hex_encode-hex : (bs : List ℕ) → All (λ b. b < 256) bs → all is_lower_hex (hex_encode bs) ≡ true
unfolding hex_encode
hex_encode-hex [] h = refl
hex_encode-hex (b ∷ bs) h =
    rw (hex_is_hex (b / 16) (omega arith), hex_is_hex (b % 16) (omega arith))
      (hex_encode-hex bs h.1)

length-hex_encode : (bs : List ℕ) → length (hex_encode bs) ≡ length bs * 2
unfolding hex_encode
length-hex_encode [] = refl
length-hex_encode (b ∷ bs) = omega (arith, length-hex_encode bs)

has_token_shape-made :
    (secret : List ℕ)
    → length secret ≡ 32
    → All (λ b. b < 256) secret
    → has_token_shape (prefix ++ hex_encode secret) ≡ true
unfolding has_token_shape
has_token_shape-made secret size bytes =
    let hex = hex_encode-hex secret bytes in
    let long : utf8_len (hex_encode secret) ≡ 64 =
      utf8_len-hex (hex_encode secret) hex ∙ length-hex_encode secret ∙ omega arith in
    rw (long, hex)

lookup-append :
    (h now : Text) (rows : List TokenRow) (r : TokenRow)
    → has_hash h rows ≡ false
    → r.token_hash ≡ h
    → text_ltb now r.expires_at ≡ true
    → lookup h now (rows ++ r ∷ []) ≡ some r
unfolding lookup
lookup-append h now [] r none_yet same valid = rw (same, text_eq_refl h, valid)
lookup-append h now (q ∷ qs) r none_yet same valid = ground (arith, lookup-append h now qs r)

lookup-Stands :
    (h now : Text) (rows : List TokenRow) {r : TokenRow}
    → lookup h now rows ≡ some r
    → Stands r rows × (r.token_hash ≡ h) × (text_ltb now r.expires_at ≡ true)
unfolding lookup
lookup-Stands h now [] e = absurd (cc)
lookup-Stands h now (q ∷ qs) {r} e =
    elim (Bool-cases (text_eq q.token_hash h && text_ltb now q.expires_at)) [
      | inl here ↦
          let same : q ≡ r = ground arith in
          (inl same, ground (arith, text_eq_iff q.token_hash h), ground arith)
      | inr later ↦
          let (stands, hash, valid) = lookup-Stands h now qs {r = r} (ground arith) in
          (inr stands, hash, valid)
    ]

module _ (c : Crates) where
  -- What was made: the row is added, and nothing else changes.
  create-adds :
      (input : NewToken) (secret : List ℕ) (made : CreatedToken) (now : ℕ)
      (rows rows' : List TokenRow)
      → create c input secret now rows ≡ ok (made, rows')
      → (name : Text) × (made.token ≡ prefix ++ hex_encode secret)
        × (made.info.id ≡ fresh row_id rows)
        × (rows'
            ≡ rows
              ++ new_row c
                  (fresh row_id rows)
                  name
                  input.scope
                  (prefix ++ hex_encode secret)
                  now
                  input.expires_in_days
                ∷ [])
        × (has_hash (c.hash (prefix ++ hex_encode secret)) rows ≡ false)
  unfolding create
  create-adds input secret made now rows rows' e = elim (Result-cases (clean_name input.name)) [
    | inr (x, bad) ↦ absurd (ground arith)
    | inl (name, good) ↦ (name, ground arith, ground arith, ground arith, ground arith)
  ]

  -- A token that was made lets its holder in with the scope that it was made with, until a second before
  -- its end, if the random bytes are 32 bytes and times are shown in their order.
  pub create-verify :
      (input : NewToken) (secret : List ℕ) (made : CreatedToken) (now later : ℕ)
      (rows rows' : List TokenRow)
      → IsOrderly c
      → length secret ≡ 32
      → All (λ b. b < 256) secret
      → create c input secret now rows ≡ ok (made, rows')
      → later + 1000 ≤ now + input.expires_in_days * day
      → (verify c made.token later rows').0
        ≡ some (record { id = made.info.id; scope = input.scope })
  unfolding verify
  create-verify input secret made now later rows rows' orderly size bytes e within =
      let (name, token, id, added, none_yet) = create-adds input secret made now rows rows' e in
      let r =
        new_row c (fresh row_id rows) name input.scope (prefix ++ hex_encode secret) now
          input.expires_in_days in
      rw (
        token,
        added,
        id,
        has_token_shape-made secret size bytes,
        lookup-append (c.hash (prefix ++ hex_encode secret)) (c.stamp later) rows r none_yet refl
            (orderly.second_later later (now + input.expires_in_days * day) within),
      )

  -- Whoever is let in has a token of the right shape whose hash stands in the table, in a row that is
  -- not past its end, and gets the scope of that row.
  pub verify-Stands :
      (token : Text) (now : ℕ) (rows : List TokenRow) (g : Grant)
      → (verify c token now rows).0 ≡ some g
      → (r : TokenRow) × Stands r rows
        × (g ≡ record { id = r.id; scope = r.scope })
        × (r.token_hash ≡ c.hash token)
        × (text_ltb (c.stamp now) r.expires_at ≡ true)
        × (has_token_shape token ≡ true)
  unfolding verify
  verify-Stands token now rows g e =
      elim (Option-cases (lookup (c.hash token) (c.stamp now) rows)) [
        | inl missing ↦ absurd (ground arith)
        | inr (r, found) ↦
            let (stands, hash, valid) =
              lookup-Stands (c.hash token) (c.stamp now) rows {r = r} found in
            (r, stands, ground arith, hash, valid, ground arith)
      ]

-- Nobody is let in under this id, and everybody else as before.
abbrev pub unless : ℕ → Option Grant → Option Grant
unless id none = none
unless id (some g) = if g.id == id then none else some g

abbrev grant_of : Option TokenRow → Option Grant
grant_of none = none
grant_of (some r) = some (record { id = r.id; scope = r.scope })

-- No other row has the hash of this one.
lookup-Differ :
    (h now : Text) (r : TokenRow) (rows : List TokenRow)
    → All (Differ r) rows
    → text_eq r.token_hash h ≡ true
    → lookup h now rows ≡ none
unfolding lookup
lookup-Differ h now r [] d e = refl
lookup-Differ h now r (q ∷ qs) d e = ground (
  arith,
  lookup-Differ h now r qs d.1 e,
  d.0.1,
  text_eq_iff r.token_hash h,
  text_eq_iff q.token_hash h,
  text_eq_iff r.token_hash q.token_hash,
)

unless-lookup :
    (h now : Text) (r : TokenRow) (rows : List TokenRow)
    → All (Differ r) rows
    → unless r.id (grant_of (lookup h now rows)) ≡ grant_of (lookup h now rows)
unfolding lookup
unless-lookup h now r [] d = refl
unless-lookup h now r (q ∷ qs) d = ground (arith, unless-lookup h now r qs d.1, d.0.0)

lookup-delete :
    (h now : Text) (id : ℕ) (rows : List TokenRow)
    → IsTable rows
    → grant_of (lookup h now (delete row_id id rows)) ≡ unless id (grant_of (lookup h now rows))
unfolding lookup delete
lookup-delete h now id [] t = refl
lookup-delete h now id (r ∷ rs) t = ground (
  arith,
  lookup-delete h now id rs t.1,
  lookup-Differ h now r rs t.0,
  unless-lookup h now r rs t.0,
)

verify-grant :
    (c : Crates) (token : Text) (now : ℕ) (rows : List TokenRow)
    → (verify c token now rows).0 ≡ (
        if has_token_shape token then grant_of (lookup (c.hash token) (c.stamp now) rows) else none)
unfolding verify
verify-grant c token now rows = elim (Option-cases (lookup (c.hash token) (c.stamp now) rows)) [
  | inl missing ↦ ground arith
  | inr (r, found) ↦ ground arith
]

-- If no two rows have the same id or hash, a revoked token lets nobody in at any time, and every other
-- token lets in as before.
pub verify-revoke :
    (c : Crates) (id : ℕ) (token : Text) (now : ℕ) (rows rows' : List TokenRow)
    → IsTable rows
    → revoke id rows ≡ ok rows'
    → (verify c token now rows').0 ≡ unless id (verify c token now rows).0
unfolding revoke
verify-revoke c id token now rows rows' table e = elim (Option-cases (find row_id id rows)) [
  | inl missing ↦ absurd (ground arith)
  | inr (r, found) ↦
      let gone : delete row_id id rows ≡ rows' = ground arith in
      let same = lookup-delete (c.hash token) (c.stamp now) id rows table in
      rw (← gone, verify-grant c token now (delete row_id id rows), verify-grant c token now rows)
        (ground (arith, same))
]
