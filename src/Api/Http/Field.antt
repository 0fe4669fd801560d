-- ===== src/Api/Http/Field.antt =====
-- The form of a header that `parse_head` of src-tauri/src/api/http.rs keeps.
use meow_ny.Common.{
  ℕ, ◌≡◌, refl, subst, Bool, true, false, not, ◌&&◌, [], ◌∷◌, arith, all, any, ltb, leb, ◌==◌,
  Bool-cases, inl, inr, All,
}
use meow_ny.Common.Text.{Text, is_digit}
use meow_ny.Sync.{codes}
use meow_ny.Documents.Names.{drop_end}
use meow_ny.Documents.Names.Disk.{drop_end-ends, ends-tail}
use meow_ny.Api.Http.{
  Header, is_token_char, drop_start, is_blank, trim_blanks, is_bad_value, is_upper,
}
use meow_ny.Api.Http.Guards.{IsHeader, starts, starts-drop_start, starts-drop_end, drop_start_kept}
use meow_ny.Api.Http.Form.{IsNameChar, IsValueChar, NotBlank, FirstNotBlank, LastNotBlank, IsField}

-- A Boolean test on all characters, and what it says of each.
module _ (p : ℕ → Bool) (P : ℕ → Type 0) where
  pub all-All : ((c : ℕ) → p c ≡ true → P c) → (s : Text) → all p s ≡ true → All P s
  all-All f [] h = tt
  all-All f (c ∷ s) h = (f c (ground (arith, h)), all-All f s (ground (arith, h)))

  pub All-all : ((c : ℕ) → P c → p c ≡ true) → (s : Text) → All P s → all p s ≡ true
  All-all f [] h = refl
  All-all f (c ∷ s) h = let here = f c h.0 in rw here (All-all f s h.1)

  any-All : ((c : ℕ) → p c ≡ false → P c) → (s : Text) → any p s ≡ false → All P s
  any-All f [] h = tt
  any-All f (c ∷ s) h = (f c (ground (arith, h)), any-All f s (ground (arith, h)))

  All-any : ((c : ℕ) → P c → p c ≡ false) → (s : Text) → All P s → any p s ≡ false
  All-any f [] h = refl
  All-any f (c ∷ s) h = let here = f c h.0 in rw here (All-any f s h.1)

-- The characters of a name.
token-IsNameChar : (c : ℕ) → is_token_char c ≡ true → is_upper c ≡ false → IsNameChar c
unfolding is_token_char
token-IsNameChar c h low = elim (Bool-cases (is_digit c)) [
  | inl digit ↦ inl (ground (arith, digit), ground (arith, digit))
  | inr other ↦ elim (Bool-cases (leb b'a' c && leb c b'z')) [
    | inl letter ↦ inr (inl (ground (arith, letter), ground (arith, letter)))
    | inr symbol ↦ inr (inr (ground (arith, h, low, other, symbol)))
  ]
]

IsNameChar-token : (c : ℕ) → IsNameChar c → is_token_char c ≡ true
unfolding is_token_char
IsNameChar-token c (inl digit) = ground arith
IsNameChar-token c (inr (inl letter)) = ground arith
IsNameChar-token c (inr (inr symbol)) = rw symbol (ground arith)

any-upper :
    (s : Text)
    → all (λ d. not (is_upper d)) s ≡ true
    → (c : ℕ) → any (λ d. d == c) s ≡ true
    → is_upper c ≡ false
any-upper [] h c k = absurd (cc)
any-upper (d ∷ s) h c k = elim (Bool-cases (d == c)) [
  | inl same ↦ let e : d ≡ c = ground (arith, same) in rw (← e) (ground (arith, h))
  | inr other ↦ any-upper s (ground (arith, h)) c (ground (arith, k, other))
]

IsNameChar-upper : (c : ℕ) → IsNameChar c → is_upper c ≡ false
IsNameChar-upper c (inl digit) = ground arith
IsNameChar-upper c (inr (inl letter)) = ground arith
IsNameChar-upper c (inr (inr symbol)) = any-upper (codes "!#$%&'*+-.^_`|~") refl c symbol

name_chars : (s : Text) → all is_token_char s ≡ true → any is_upper s ≡ false → All IsNameChar s
name_chars [] h k = tt
name_chars (c ∷ s) h k = (
  token-IsNameChar c (ground (arith, h)) (ground (arith, k)),
  name_chars s (ground (arith, h)) (ground (arith, k)),
)

-- The characters of a value.
value-IsValueChar : (c : ℕ) → is_bad_value c ≡ false → IsValueChar c
value-IsValueChar c h = elim (Bool-cases (ltb c 0x20)) [
  | inl control ↦ (inr (ground (arith, h, control)), ground (arith, h))
  | inr visible ↦ (inl (ground (arith, visible)), ground (arith, h))
]

IsValueChar-value : (c : ℕ) → IsValueChar c → is_bad_value c ≡ false
IsValueChar-value c (inl visible, no_delete) = ground arith
IsValueChar-value c (inr tab, no_delete) = ground arith

blank-NotBlank : (c : ℕ) → is_blank c ≡ false → NotBlank c
blank-NotBlank c h = (ground (arith, h), ground (arith, h))

NotBlank-blank : (c : ℕ) → NotBlank c → is_blank c ≡ false
NotBlank-blank c (a, b) = ground (arith, a, b)

-- A value without blanks at its ends.
first_of : (s : Text) → starts is_blank s ≡ false → FirstNotBlank s
first_of [] h = tt
first_of (c ∷ s) h = blank-NotBlank c h

first_is : (s : Text) → FirstNotBlank s → starts is_blank s ≡ false
first_is [] h = refl
first_is (c ∷ s) h = NotBlank-blank c h

last_of : (s : Text) → drop_end is_blank s ≡ s → LastNotBlank s
unfolding drop_end
last_of [] h = tt
last_of (c ∷ []) h = blank-NotBlank c (ground arith)
last_of (c ∷ d ∷ s) h = last_of (d ∷ s) (ends-tail is_blank c (d ∷ s) h)

last_is : (s : Text) → LastNotBlank s → drop_end is_blank s ≡ s
unfolding drop_end
last_is [] h = refl
last_is (c ∷ []) h = rw (NotBlank-blank c h) refl
last_is (c ∷ d ∷ s) h = rw (last_is (d ∷ s) h) refl

trimmed_ends : (s : Text) → trim_blanks s ≡ s → FirstNotBlank s × LastNotBlank s
unfolding trim_blanks
trimmed_ends s h =
    let inner = drop_start is_blank s in
    let fresh = starts-drop_end is_blank is_blank inner (starts-drop_start is_blank s) in
    (
      first_of s (subst (λ t. starts is_blank t ≡ false) h fresh),
      last_of s (subst (λ t. drop_end is_blank t ≡ t) h (drop_end-ends is_blank inner)),
    )

ends_trimmed : (s : Text) → FirstNotBlank s → LastNotBlank s → trim_blanks s ≡ s
unfolding trim_blanks
ends_trimmed s first last = rw (drop_start_kept is_blank s (first_is s first)) (last_is s last)

-- A header.
pub header-IsField : (h : Header) → IsHeader h → IsField h
header-IsField ([], value) (full, tokens, lower, clear, trimmed) = absurd (cc)
header-IsField (c ∷ name, value) (full, tokens, lower, clear, trimmed) =
    let (first, last) = trimmed_ends value trimmed in
    (
      omega arith,
      name_chars (c ∷ name) tokens lower,
      any-All is_bad_value IsValueChar value-IsValueChar value clear,
      first,
      last,
    )

pub IsField-header : (h : Header) → IsField h → IsHeader h
IsField-header ([], value) (full, chars, values, first, last) = absurd (omega arith)
IsField-header (c ∷ name, value) (full, chars, values, first, last) = (
  refl,
  All-all is_token_char IsNameChar IsNameChar-token (c ∷ name) chars,
  All-any is_upper IsNameChar IsNameChar-upper (c ∷ name) chars,
  All-any is_bad_value IsValueChar IsValueChar-value value values,
  ends_trimmed value first last,
)
