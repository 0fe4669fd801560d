-- ===== src/Common/Error.antt =====
-- `AppError` of src-tauri/src/vault.rs, as far as the modelled code answers with it, and the result
-- type with its `?` operator. `internal` stands for what SQLite itself refuses, too.
use meow_ny.Common.{◌≡◌, refl, ◌⊎◌, inl, inr, Bool, true, false, Option, none, some, List, [], ◌∷◌}

pub data AppError : Type 0 where
  invalid_input not_found name_exists internal wrong_credentials invalid_backup : AppError

pub data Result {ℓ} (A : Type ℓ) : Type ℓ where
  err : AppError → Result A
  ok : A → Result A

infixl 5 ◌>>=◌ ◌>>◌
-- `?`: an error is the answer at once.
abbrev pub ◌>>=◌ {κ ℓ} : {B : Type κ} {A : Type ℓ} → Result A → (A → Result B) → Result B
err e >>= next = err e
ok a >>= next = next a

-- A check, and what comes after it.
abbrev pub ◌>>◌ {κ} : {B : Type κ} → Result (Unit {0}) → Result B → Result B
err e >> next = err e
ok _ >> next = next

-- `if c { return Err(e) }`
abbrev pub fail_if : Bool → AppError → Result (Unit {0})
fail_if true e = err e
fail_if false e = ok tt

-- `Option::ok_or`
abbrev pub ok_or {ℓ} : {A : Type ℓ} → Option A → AppError → Result A
ok_or none e = err e
ok_or (some a) e = ok a

-- `Option::unwrap_or`
abbrev pub unwrap_or {ℓ} : {A : Type ℓ} → Option A → A → A
unwrap_or none d = d
unwrap_or (some a) d = a

module _ {ℓ κ} {A : Type ℓ} {B : Type κ} where
  -- `Option<Result>::transpose` after `map`
  abbrev pub transpose : (A → Result B) → Option A → Result (Option B)
  transpose f none = ok none
  transpose f (some a) = f a >>= λ b. ok (some b)

  -- `map(..).collect::<Result<Vec<_>, _>>()`
  abbrev pub traverse : (A → Result B) → List A → Result (List B)
  traverse f [] = ok []
  traverse f (x ∷ xs) = f x >>= λ y. traverse f xs >>= λ ys. ok (y ∷ ys)

pub Result-cases {ℓ} :
    {A : Type ℓ} (r : Result A) → ((a : A) × (r ≡ ok a)) ⊎ ((e : AppError) × (r ≡ err e))
Result-cases (ok a) = inl (a, refl)
Result-cases (err e) = inr (e, refl)
