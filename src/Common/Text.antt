-- ===== src/Common/Text.antt =====
-- Text. A `&str` is the list of its characters, each by its code point; `utf8_len` is `str::len`.
-- A test on the bytes of a text that only ASCII bytes pass holds just when it holds of the
-- characters, since the bytes of any other character are 128 or more.
use meow_ny.Common.{
  ℕ, ◌+◌, ◌≡◌, ◌≢◌, ◌↔◌, refl, Bool, true, false, ◌&&◌, Option, none, some, arith, ◌++◌, All,
  length, List, [], ◌∷◌, ltb, leb, ◌==◌, if◌then◌else◌, all, sum, map, inl, inr, Bool-cases,
  Option-cases,
}

abbrev pub Text : Type 0
Text = List ℕ

abbrev pub utf8_width : ℕ → ℕ
utf8_width c = if ltb c 0x80 then 1 else if ltb c 0x800 then 2 else if ltb c 0x10000 then 3 else 4

abbrev pub utf8_len : Text → ℕ
utf8_len s = sum (map utf8_width s)

abbrev pub is_digit : ℕ → Bool
is_digit c = leb b'0' c && leb c b'9'

-- `==` of texts
abbrev pub text_eq : Text → Text → Bool
text_eq [] [] = true
text_eq [] (d ∷ t) = false
text_eq (c ∷ s) [] = false
text_eq (c ∷ s) (d ∷ t) = (c == d) && text_eq s t

-- `str::is_empty`
abbrev pub is_empty : Text → Bool
is_empty [] = true
is_empty (c ∷ s) = false

abbrev pub starts_with : ℕ → Text → Bool
starts_with d [] = false
starts_with d (c ∷ s) = c == d

-- `str::split_once` at a character: what stands before the first one, and after it.
unfoldable pub split_once : ℕ → Text → Option (Text × Text)
split_once d [] = none
split_once d (c ∷ s) =
    if c == d
    then some ([], s)
    else elim (split_once d s) [ none ↦ none | some (a, b) ↦ some (c ∷ a, b) ]

-- No character of the text is `d`.
abbrev pub Without : ℕ → Text → Type 0
Without d = All (λ c. c ≢ d)

pub split_once-append : (d : ℕ) (a b : Text) → Without d a → split_once d (a ++ d ∷ b) ≡ some (a, b)
unfolding split_once
split_once-append d [] b h = ground arith
split_once-append d (c ∷ a) b h = ground (arith, split_once-append d a b h.1)

-- A split puts back together to the text.
pub split_once-eq-some :
    (d : ℕ) (s a b : Text) → split_once d s ≡ some (a, b) → (s ≡ a ++ d ∷ b) × Without d a
unfolding split_once
split_once-eq-some d [] a b h = absurd (cc)
split_once-eq-some d (c ∷ s) a b h = elim (Bool-cases (c == d)) [
  | inl here ↦
      let front : [] ≡ a = ground arith in
      let back : s ≡ b = ground arith in
      let same : c ≡ d = ground arith in rw (← front, ← back, same) (refl, tt)
  | inr later ↦ elim (Option-cases (split_once d s)) [
    | inl e ↦ absurd (ground arith)
    | inr ((a', b'), e) ↦
        let (whole, clear) = split_once-eq-some d s a' b' e in
        let front : c ∷ a' ≡ a = ground arith in
        let back : b' ≡ b = ground arith in
        rw (← front, ← back, whole) (refl, (λ same. ground arith, clear))
  ]
]

pub digits-Without : (d : ℕ) (s : Text) → all is_digit s ≡ true → is_digit d ≡ false → Without d s
digits-Without d [] h k = tt
digits-Without d (c ∷ s) h k = ((λ e. ground arith), digits-Without d s (ground arith) k)

pub utf8_len-digits : (s : Text) → all is_digit s ≡ true → utf8_len s ≡ length s
utf8_len-digits [] h = refl
utf8_len-digits (c ∷ s) h = ground (arith, utf8_len-digits s)

pub text_eq_iff : (s t : Text) → (text_eq s t ≡ true) ↔ (s ≡ t)
text_eq_iff [] [] = (λ _. refl, λ _. refl)
text_eq_iff [] (d ∷ t) = (λ h. absurd (cc), λ h. absurd (cc))
text_eq_iff (c ∷ s) [] = (λ h. absurd (cc), λ h. absurd (cc))
text_eq_iff (c ∷ s) (d ∷ t) = ground (arith, text_eq_iff s t)

-- `COLLATE NOCASE` of SQLite compares ASCII letters without case.
abbrev pub lower_ascii : ℕ → ℕ
lower_ascii c = if leb b'A' c && leb c b'Z' then c + 32 else c

abbrev pub nocase_eq : Text → Text → Bool
nocase_eq s t = text_eq (map lower_ascii s) (map lower_ascii t)

pub text_eq_refl : (s : Text) → text_eq s s ≡ true
text_eq_refl s = (text_eq_iff s s).1 refl

pub text_eq_comm : (s t : Text) → text_eq s t ≡ text_eq t s
text_eq_comm [] [] = refl
text_eq_comm [] (d ∷ t) = refl
text_eq_comm (c ∷ s) [] = refl
text_eq_comm (c ∷ s) (d ∷ t) = ground (arith, text_eq_comm s t)

-- `str::cmp` is not `Greater`: the order of the bytes of UTF-8 is the order of the code points.
abbrev pub text_leb : Text → Text → Bool
text_leb [] t = true
text_leb (c ∷ s) [] = false
text_leb (c ∷ s) (d ∷ t) = if ltb c d then true else if c == d then text_leb s t else false
