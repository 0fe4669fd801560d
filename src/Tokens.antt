-- ===== src/Tokens.antt =====
-- Access tokens of the local API: src-tauri/src/tokens.rs. Hashing (the crate sha2), random bytes and
-- showing a time (the crate chrono) are parameters. A time is a number of milliseconds.
pub mod Granted
use meow_ny.Common.{
  ℕ, ◌+◌, ◌-◌, ◌*◌, ◌/◌, ◌%◌, ◌≤◌, ◌≡◌, Bool, true, false, not, ◌&&◌, ◌||◌, Option, none, some,
  List, [], ◌∷◌, ◌++◌, length, all, any, ltb, leb, ◌==◌, if◌then◌else◌, map,
}
use meow_ny.Common.Text.{Text, utf8_len, text_eq, text_leb}
use meow_ny.Common.Order.{text_ltb}
use meow_ny.Common.Sort.{sort}
use meow_ny.Common.Error.{
  AppError, invalid_input, not_found, internal, Result, ok, err, ◌>>=◌, ◌>>◌, fail_if,
}
use meow_ny.Fields.{trim, is_control}
use meow_ny.Stamp.{hex_digit, is_lower_hex}
use meow_ny.Store.Table.{find, update, delete, fresh}

abbrev pub name_max_chars : ℕ
name_max_chars = 50

abbrev pub max_expiry_days : ℕ
max_expiry_days = 365

abbrev pub token_len : ℕ
token_len = 68

-- `mny_`
abbrev pub prefix : Text
prefix = b'm' ∷ b'n' ∷ b'y' ∷ b'_' ∷ []

-- `LAST_USED_EVERY` and a day, in milliseconds
abbrev pub last_used_every : ℕ
last_used_every = 60000

abbrev pub day : ℕ
day = 86400000

pub data Scope : Type 0 where
  read write : Scope

-- `self >= needed`
abbrev pub allows : Scope → Scope → Bool
allows write needed = true
allows read read = true
allows read write = false

-- A row of `api_tokens`.
pub record TokenRow : Type 0 where
  pub id : ℕ
  pub name : Text
  pub scope : Scope
  pub token_hash : Text
  pub created_at : Text
  pub expires_at : Text
  pub last_used_at : Option Text

pub record NewToken : Type 0 where
  pub name : Text
  pub scope : Scope
  pub expires_in_days : ℕ

pub record TokenInfo : Type 0 where
  pub id : ℕ
  pub name : Text
  pub scope : Scope
  pub created_at : Text
  pub expires_at : Text
  pub last_used_at : Option Text
  pub expired : Bool

pub record CreatedToken : Type 0 where
  pub token : Text
  pub info : TokenInfo

pub record Grant : Type 0 where
  pub id : ℕ
  pub scope : Scope

-- What the crates do: the hash of a text as hex, and a time as it is shown.
pub record Crates : Type 0 where
  pub hash : Text → Text
  pub stamp : ℕ → Text

-- A later time is not shown as an earlier one, and a time that is a second later is shown as later.
pub record IsOrderly (c : Crates) : Type 0 where
  pub later : (t u : ℕ) → t ≤ u → text_leb (c.stamp t) (c.stamp u) ≡ true
  pub second_later : (t u : ℕ) → t + 1000 ≤ u → text_ltb (c.stamp t) (c.stamp u) ≡ true

-- `strip_prefix`
abbrev pub strip_prefix : Text → Text → Option Text
strip_prefix [] s = some s
strip_prefix (c ∷ p) [] = none
strip_prefix (c ∷ p) (d ∷ s) = if c == d then strip_prefix p s else none

abbrev pub is_secret : Option Text → Bool
is_secret none = false
is_secret (some rest) = all is_lower_hex rest

unfoldable pub has_token_shape : Text → Bool
has_token_shape text = (utf8_len text == token_len) && is_secret (strip_prefix prefix text)

abbrev hides : ℕ → Bool
hides c =
    (c == 0x200e)
    || (c == 0x200f)
    || (leb 0x202a c && leb c 0x202e)
    || (leb 0x2066 c && leb c 0x2069)
    || (c == 0xfeff)

unfoldable pub is_plain_text : Text → Bool
is_plain_text s = not (any (λ c. is_control c || hides c) s)

unfoldable pub clean_name : Text → Result Text
unfolding trim is_plain_text
clean_name name =
    let t = trim name in
    fail_if ((length t == 0) || ltb name_max_chars (length t) || not (is_plain_text t))
      invalid_input
    >> ok t

-- `hex_encode` of keys.rs
unfoldable pub hex_encode : List ℕ → Text
hex_encode [] = []
hex_encode (b ∷ bs) = hex_digit (b / 16) ∷ hex_digit (b % 16) ∷ hex_encode bs

abbrev pub row_id : TokenRow → ℕ
row_id r = r.id

-- The unique index `uq_api_tokens_hash` refuses a second row with the hash.
abbrev pub has_hash : Text → List TokenRow → Bool
has_hash h = any (λ r. text_eq r.token_hash h)

unfoldable pub revoke : ℕ → List TokenRow → Result (List TokenRow)
unfolding find delete
revoke id rows = elim (find row_id id rows) [
  | none ↦ err not_found
  | some r ↦ ok (delete row_id id rows)
]

-- `SELECT .. WHERE token_hash = ? AND expires_at > ?`
unfoldable pub lookup : Text → Text → List TokenRow → Option TokenRow
lookup h now [] = none
lookup h now (r ∷ rs) =
    if text_eq r.token_hash h && text_ltb now r.expires_at then some r else lookup h now rs

module _ (c : Crates) where
  abbrev pub new_row : ℕ → Text → Scope → Text → ℕ → ℕ → TokenRow
  new_row id name scope token now days = record {
    id = id;
    name = name;
    scope = scope;
    token_hash = c.hash token;
    created_at = c.stamp now;
    expires_at = c.stamp (now + days * day);
    last_used_at = none;
  }

  abbrev pub info_of : Bool → TokenRow → TokenInfo
  info_of expired r = record {
    id = r.id;
    name = r.name;
    scope = r.scope;
    created_at = r.created_at;
    expires_at = r.expires_at;
    last_used_at = r.last_used_at;
    expired = expired;
  }

  -- The random bytes are an argument.
  unfoldable pub create :
      NewToken → List ℕ → ℕ → List TokenRow → Result (CreatedToken × List TokenRow)
  unfolding clean_name hex_encode fresh
  create input secret now rows = clean_name input.name >>= λ name.
      fail_if (not (leb 1 input.expires_in_days && leb input.expires_in_days max_expiry_days))
        invalid_input
      >> (let token = prefix ++ hex_encode secret in
          let row = new_row (fresh row_id rows) name input.scope token now input.expires_in_days in
          fail_if (has_hash row.token_hash rows) internal
          >> ok (record { token = token; info = info_of false row }, rows ++ row ∷ []))

  abbrev newest_first : TokenRow → TokenRow → Bool
  newest_first a b =
      text_ltb b.created_at a.created_at || (text_eq a.created_at b.created_at && leb b.id a.id)

  unfoldable pub list : ℕ → List TokenRow → List TokenInfo
  unfolding sort
  list now rows =
      map (λ r. info_of (text_leb r.expires_at (c.stamp now)) r) (sort newest_first rows)

  abbrev is_stale : ℕ → Option Text → Bool
  is_stale now none = true
  is_stale now (some used) = text_leb used (c.stamp (now - last_used_every))

  abbrev pub used : ℕ → TokenRow → TokenRow
  used now r =
      if is_stale now r.last_used_at then record r { last_used_at = some (c.stamp now) } else r

  abbrev pub granted : ℕ → Option TokenRow → List TokenRow → Option Grant × List TokenRow
  granted now none rows = (none, rows)
  granted now (some r) rows =
      (some (record { id = r.id; scope = r.scope }), update row_id r.id (used now) rows)

  unfoldable pub verify : Text → ℕ → List TokenRow → Option Grant × List TokenRow
  unfolding has_token_shape lookup update
  verify token now rows =
      if not (has_token_shape token)
      then (none, rows)
      else granted now (lookup (c.hash token) (c.stamp now) rows) rows
