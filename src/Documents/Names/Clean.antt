-- ===== src/Documents/Names/Clean.antt =====
-- What the cleaners make is a clean name, and a clean name is left as it is.
use meow_ny.Common.{
  ℕ, subst, ◌≡◌, ◌↔◌, refl, Bool, true, false, some, [], ◌∷◌, arith, map, if◌then◌else◌, Bool-cases,
  inl, inr,
}
use meow_ny.Common.Text.{Text, is_empty, text_eq_refl, text_eq_iff}
use meow_ny.Documents.Names.{
  is_hidden, tidied, only_dots, is_separator, has_separator, last_part, document, cut, sanitize,
  clean_file_name, clean_title, is_clean_name,
}
use meow_ny.Documents.Names.Tidy.{any-tidied}
use meow_ny.Documents.Names.Cut.{any-cut, sanitize-Short, sanitize_kept}

last_part-separators : (s : Text) → has_separator (last_part s) ≡ false
unfolding last_part
last_part-separators [] = refl
last_part-separators (c ∷ s) = ground (arith, last_part-separators s)

last_part_kept : (s : Text) → has_separator s ≡ false → last_part s ≡ s
unfolding last_part
last_part_kept [] h = refl
last_part_kept (c ∷ s) h = rw h refl

-- A typed name has a hyphen in place of each separator.
abbrev hyphened : Text → Text
hyphened = map (λ c. if is_separator c then b'-' else c)

hyphened-separators : (s : Text) → has_separator (hyphened s) ≡ false
hyphened-separators [] = refl
hyphened-separators (c ∷ s) = ground (arith, hyphened-separators s)

hyphened_kept : (s : Text) → has_separator s ≡ false → hyphened s ≡ s
hyphened_kept [] h = refl
hyphened_kept (c ∷ s) h = ground (arith, hyphened_kept s)

full_name : (s : Text) → only_dots s ≡ false → is_empty s ≡ false
full_name [] h = absurd (cc)
full_name (c ∷ s) h = refl

module _ (is_alphanumeric : ℕ → Bool) where
  sanitize-separators :
      (raw : Text)
      → has_separator raw ≡ false
      → has_separator (sanitize is_alphanumeric raw) ≡ false
  unfolding sanitize
  sanitize-separators raw h =
      any-cut is_alphanumeric is_separator (tidied false false raw)
        (any-tidied is_separator false false raw refl h)

  sanitize-Clean :
      (raw : Text)
      → has_separator raw ≡ false
      → only_dots (sanitize is_alphanumeric raw) ≡ false
      → is_clean_name is_alphanumeric (sanitize is_alphanumeric raw) ≡ true
  unfolding is_clean_name
  sanitize-Clean raw clear full =
      let name = sanitize is_alphanumeric raw in
      rw
        (
          full_name name full,
          sanitize-separators raw clear,
          full,
          sanitize_kept is_alphanumeric name (sanitize-Short is_alphanumeric raw),
        )
        (text_eq_refl name)

  document-Clean : is_clean_name is_alphanumeric document ≡ true
  unfolding is_clean_name sanitize tidied is_hidden cut
  document-Clean = refl

  clean_file_name-Clean :
      (raw : Text) → is_clean_name is_alphanumeric (clean_file_name is_alphanumeric raw) ≡ true
  unfolding clean_file_name
  clean_file_name-Clean raw =
      elim (Bool-cases (only_dots (sanitize is_alphanumeric (last_part raw)))) [
        | inl dots ↦ rw dots document-Clean
        | inr full ↦ rw full (sanitize-Clean (last_part raw) (last_part-separators raw) full)
      ]

  parts :
      (name : Text)
      → is_clean_name is_alphanumeric name ≡ true
      → (has_separator name ≡ false)
        × (only_dots name ≡ false)
        × (sanitize is_alphanumeric name ≡ name)
  unfolding is_clean_name
  parts name h = (
    ground arith,
    ground arith,
    (text_eq_iff (sanitize is_alphanumeric name) name).0 (ground arith),
  )

  clean_file_name_kept :
      (name : Text)
      → is_clean_name is_alphanumeric name ≡ true
      → clean_file_name is_alphanumeric name ≡ name
  unfolding clean_file_name
  clean_file_name_kept name h =
      let (clear, full, same) = parts name h in rw (last_part_kept name clear, same, full) refl

  clean_title-Clean :
      (raw name : Text)
      → clean_title is_alphanumeric raw ≡ some name
      → is_clean_name is_alphanumeric name ≡ true
  unfolding clean_title
  clean_title-Clean raw name h =
      elim (Bool-cases (only_dots (sanitize is_alphanumeric (hyphened raw)))) [
        | inl dots ↦ absurd (ground (arith, dots))
        | inr full ↦
            let made : sanitize is_alphanumeric (hyphened raw) ≡ name = ground (arith, full) in
            rw (← made) (sanitize-Clean (hyphened raw) (hyphened-separators raw) full)
      ]

  clean_title_kept :
      (name : Text)
      → is_clean_name is_alphanumeric name ≡ true
      → clean_title is_alphanumeric name ≡ some name
  unfolding clean_title
  clean_title_kept name h =
      let (clear, full, same) = parts name h in rw (hyphened_kept name clear, same, full) refl

  -- The names that are taken from another device or a backup are those that the app makes itself,
  -- from the name of a file and from a title that is typed.
  pub is_clean_name_iff :
      (name : Text)
      → ((is_clean_name is_alphanumeric name ≡ true)
          ↔ ((raw : Text) × (clean_file_name is_alphanumeric raw ≡ name)))
        × ((is_clean_name is_alphanumeric name ≡ true)
            ↔ ((raw : Text) × (clean_title is_alphanumeric raw ≡ some name)))
  is_clean_name_iff name = (
    (
      (λ clean. (name, clean_file_name_kept name clean)),
      λ (raw, made).
          subst (λ n. is_clean_name is_alphanumeric n ≡ true) made (clean_file_name-Clean raw),
    ),
    (
      (λ clean. (name, clean_title_kept name clean)),
      λ (raw, made). clean_title-Clean raw name made,
    ),
  )
