-- ===== src/Store/Table.antt =====
-- SQL statements by id on a table, a list of rows in the order of their ids.
use meow_ny.Common.{
  ℕ, suc, ◌≤◌, ◌<◌, ◌≡◌, ◌≢◌, refl, Option, none, some, List, [], ◌∷◌, ◌++◌, arith, ◌==◌, max,
  if◌then◌else◌,
}

module _ {A : Type 0} (key : A → ℕ) where
  -- `SELECT .. WHERE id = ?`
  unfoldable pub find : ℕ → List A → Option A
  find i [] = none
  find i (r ∷ rs) = if key r == i then some r else find i rs

  -- `UPDATE .. WHERE id = ?`
  unfoldable pub update : ℕ → (A → A) → List A → List A
  update i f [] = []
  update i f (r ∷ rs) = if key r == i then f r ∷ rs else r ∷ update i f rs

  -- `DELETE .. WHERE id = ?`
  unfoldable pub delete : ℕ → List A → List A
  delete i [] = []
  delete i (r ∷ rs) = if key r == i then rs else r ∷ delete i rs

  -- The id that SQLite gives a new row: one more than the largest.
  unfoldable pub fresh : List A → ℕ
  fresh [] = 1
  fresh (r ∷ rs) = max (suc (key r)) (fresh rs)

  pub find-update_self :
      (i : ℕ) (f : A → A) (rs : List A) {r : A}
      → ((a : A) → key (f a) ≡ key a)
      → find i rs ≡ some r
      → find i (update i f rs) ≡ some (f r)
  unfolding find update
  find-update_self i f [] k e = cc
  find-update_self i f (x ∷ rs) {r} k e =
      ground (arith, k x, k r, find-update_self i f rs {r = r} k)

  pub find-update_ne :
      (i j : ℕ) (f : A → A) (rs : List A)
      → ((a : A) → key (f a) ≡ key a)
      → i ≢ j
      → find j (update i f rs) ≡ find j rs
  unfolding find update
  find-update_ne i j f [] k ne = refl
  find-update_ne i j f (x ∷ rs) k ne = ground (arith, k x, find-update_ne i j f rs k ne)

  pub find-key : (i : ℕ) (rs : List A) {r : A} → find i rs ≡ some r → key r ≡ i
  unfolding find
  find-key i [] e = absurd (cc)
  find-key i (x ∷ rs) {r} e = ground (arith, find-key i rs {r = r})

  pub find-delete_ne : (i j : ℕ) (rs : List A) → i ≢ j → find j (delete i rs) ≡ find j rs
  unfolding find delete
  find-delete_ne i j [] ne = refl
  find-delete_ne i j (x ∷ rs) ne = ground (arith, find-delete_ne i j rs ne)

  pub find-lt-fresh : (i : ℕ) (rs : List A) {r : A} → find i rs ≡ some r → i < fresh rs
  unfolding find fresh
  find-lt-fresh i [] e = absurd (cc)
  find-lt-fresh i (x ∷ rs) {r} e = ground (arith, find-lt-fresh i rs {r = r})

  -- A new row is found under its id, and hides no other.
  pub find-append_fresh :
      (r : A) (rs : List A) → fresh rs ≤ key r → find (key r) (rs ++ r ∷ []) ≡ some r
  unfolding find fresh
  find-append_fresh r [] e = ground arith
  find-append_fresh r (x ∷ rs) e = ground (arith, find-append_fresh r rs)

  pub find-append_ne : (i : ℕ) (r : A) (rs : List A) → key r ≢ i → find i (rs ++ r ∷ []) ≡ find i rs
  unfolding find
  find-append_ne i r [] ne = ground arith
  find-append_ne i r (x ∷ rs) ne = ground (arith, find-append_ne i r rs)
