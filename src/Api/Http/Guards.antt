-- ===== src/Api/Http/Guards.antt =====
-- What the checks of `parse_head` leave of a head that is accepted.
use meow_ny.Common.{
  ℕ, ◌+◌, ◌≡◌, ◌⊎◌, refl, ap, ◌∙◌, subst, Bool, true, false, ◌&&◌, ◌||◌, List, [], ◌∷◌, ◌++◌, arith,
  all, any, map, Bool-cases, Option-cases, inl, inr, All, All-append,
}
use meow_ny.Common.Text.{
  Text, is_empty, text_eq, text_eq_iff, text_eq_refl, split_once, lower_ascii,
}
use meow_ny.Fields.{split_on}
use meow_ny.Sync.{codes, Answer, fails, gives}
use meow_ny.Documents.Names.{drop_end}
use meow_ny.Documents.Names.Disk.{drop_end-ends}
use meow_ny.Api.Http.{
  Header, Request, is_alphanumeric, drop_start, is_blank, is_token_char, split_lines, trim_blanks,
  is_bad_value, is_upper, is_good_line, line_of, checked_header, header_of, has_name, is_single,
  add_headers, headers_of, request_of, parse_head,
}

Answer-cases :
    {E A : Type 0} (r : Answer E A) → ((a : A) × (r ≡ gives a)) ⊎ ((e : E) × (r ≡ fails e))
Answer-cases (gives a) = inl (a, refl)
Answer-cases (fails e) = inr (e, refl)

-- A header as it is kept.
abbrev pub IsHeader : Header → Type 0
IsHeader (name, value) =
    (is_empty name ≡ false)
    × (all is_token_char name ≡ true)
    × (any is_upper name ≡ false)
    × (any is_bad_value value ≡ false)
    × (trim_blanks value ≡ value)

-- A header that may appear once appears once.
abbrev pub NoRepeat : List Header → Type 0
NoRepeat [] = Unit
NoRepeat ((name, value) ∷ hs) = ((is_single name && has_name name hs) ≡ false) × NoRepeat hs

pub record Guarded (r : Request) : Type 0 where
  pub line : is_good_line r.method r.target (codes "HTTP/1.1") ≡ true
  pub headers_fit : All IsHeader r.headers
  pub once : NoRepeat r.headers
  pub not_chunked : has_name (codes "transfer-encoding") r.headers ≡ false
  pub no_body : r.body ≡ []

lower-token : (c : ℕ) → is_token_char c ≡ true → is_token_char (lower_ascii c) ≡ true
unfolding is_token_char
lower-token c h = elim (Bool-cases (is_upper c)) [
  | inl up ↦
      let low : lower_ascii c ≡ c + 32 = ground (arith, up) in
      let letter : is_alphanumeric (c + 32) ≡ true = ground (arith, up) in rw (low, letter) refl
  | inr not_up ↦ let same : lower_ascii c ≡ c = ground (arith, not_up) in rw same h
]

all-lower : (s : Text) → all is_token_char s ≡ true → all is_token_char (map lower_ascii s) ≡ true
all-lower [] h = refl
all-lower (c ∷ s) h = ground (arith, lower-token c, all-lower s)

lower-upper : (c : ℕ) → is_upper (lower_ascii c) ≡ false
lower-upper c = ground arith

any-lower : (s : Text) → any is_upper (map lower_ascii s) ≡ false
any-lower [] = refl
any-lower (c ∷ s) = rw (lower-upper c) (any-lower s)

pub lower_kept : (s : Text) → any is_upper s ≡ false → map lower_ascii s ≡ s
lower_kept [] h = refl
lower_kept (c ∷ s) h =
    let same : lower_ascii c ≡ c = ground (arith, h) in
    rw (same, lower_kept s (ground (arith, h))) refl

empty-lower : (s : Text) → is_empty s ≡ false → is_empty (map lower_ascii s) ≡ false
empty-lower [] h = h
empty-lower (c ∷ s) h = refl

abbrev pub starts : (ℕ → Bool) → Text → Bool
starts p [] = false
starts p (c ∷ s) = p c

pub starts-drop_start : (p : ℕ → Bool) (s : Text) → starts p (drop_start p s) ≡ false
unfolding drop_start
starts-drop_start p [] = refl
starts-drop_start p (c ∷ s) = ground (arith, starts-drop_start p s)

pub starts-drop_end :
    (p q : ℕ → Bool) (s : Text) → starts p s ≡ false → starts p (drop_end q s) ≡ false
unfolding drop_end
starts-drop_end p q [] h = refl
starts-drop_end p q (c ∷ s) h = ground (arith, h)

pub drop_start_kept : (p : ℕ → Bool) (s : Text) → starts p s ≡ false → drop_start p s ≡ s
unfolding drop_start
drop_start_kept p [] h = refl
drop_start_kept p (c ∷ s) h = rw h refl

trim_blanks-trim_blanks : (s : Text) → trim_blanks (trim_blanks s) ≡ trim_blanks s
unfolding trim_blanks
trim_blanks-trim_blanks s =
    let inner = drop_start is_blank s in
    let fresh = starts-drop_end is_blank is_blank inner (starts-drop_start is_blank s) in
    ap (λ t. drop_end is_blank t) (drop_start_kept is_blank (drop_end is_blank inner) fresh)
    ∙ drop_end-ends is_blank inner

checked_header-IsHeader :
    (name raw : Text) (h : Header) → checked_header (name, raw) ≡ gives h → IsHeader h
unfolding checked_header
checked_header-IsHeader name raw h e =
    let full : is_empty name ≡ false = ground (arith, e) in
    let tokens : all is_token_char name ≡ true = ground (arith, e) in
    let clear : any is_bad_value (trim_blanks raw) ≡ false = ground (arith, e) in
    let made : (map lower_ascii name, trim_blanks raw) ≡ h =
      ground (arith, e, full, tokens, clear) in
    subst IsHeader made (
      empty-lower name full,
      all-lower name tokens,
      any-lower name,
      clear,
      trim_blanks-trim_blanks raw,
    )

header_of-IsHeader : (line : Text) (h : Header) → header_of line ≡ gives h → IsHeader h
unfolding header_of
header_of-IsHeader line h e = elim (Option-cases (split_once b':' line)) [
  | inl whole ↦ absurd (ground (arith, e, whole))
  | inr ((name, raw), parts) ↦
      let checked : checked_header (name, raw) ≡ gives h = ground (arith, e, parts) in
      checked_header-IsHeader name raw h checked
]

has_name-append :
    (name n v : Text) (hs : List Header)
    → has_name name (hs ++ (n, v) ∷ []) ≡ (has_name name hs || text_eq n name)
has_name-append name n v [] = ground arith
has_name-append name n v ((m, w) ∷ hs) = ground (arith, has_name-append name n v hs)

NoRepeat-append :
    (hs : List Header) (name value : Text)
    → NoRepeat hs
    → (is_single name && has_name name hs) ≡ false
    → NoRepeat (hs ++ (name, value) ∷ [])
NoRepeat-append [] name value once new = ground arith
NoRepeat-append ((n, v) ∷ hs) name value once new = (
  rw (has_name-append n name value hs)
      (ground (arith, once.0, new, text_eq_iff name n, text_eq_refl n)),
  NoRepeat-append hs name value once.1 (ground (arith, new)),
)

add_headers-Strict :
    (hs hs' : List Header) (lines : List Text)
    → add_headers hs lines ≡ gives hs'
    → All IsHeader hs
    → NoRepeat hs
    → All IsHeader hs' × NoRepeat hs'
unfolding add_headers
add_headers-Strict hs hs' [] e fit once =
    let same : hs ≡ hs' = ground arith in
    (subst (λ l. All IsHeader l) same fit, subst NoRepeat same once)
add_headers-Strict hs hs' (line ∷ lines) e fit once = elim (Answer-cases (header_of line)) [
  | inr (x, fails_here) ↦ absurd (ground (arith, e, fails_here))
  | inl ((name, value), made) ↦
      let new : (is_single name && has_name name hs) ≡ false = ground (arith, e, made) in
      let later : add_headers (hs ++ (name, value) ∷ []) lines ≡ gives hs' =
        ground (arith, e, made, new) in
      add_headers-Strict (hs ++ (name, value) ∷ []) hs' lines later
        (All-append IsHeader hs ((name, value) ∷ []) fit
          (header_of-IsHeader line (name, value) made, tt))
        (NoRepeat-append hs name value once new)
]

headers_of-Strict :
    (lines : List Text) (hs : List Header)
    → headers_of lines ≡ gives hs
    → All IsHeader hs × NoRepeat hs × (has_name (codes "transfer-encoding") hs ≡ false)
unfolding headers_of
headers_of-Strict lines hs e = elim (Answer-cases (add_headers [] lines)) [
  | inr (x, fails_here) ↦ absurd (ground (arith, e, fails_here))
  | inl (made, added) ↦
      let clear : has_name (codes "transfer-encoding") made ≡ false = ground (arith, e, added) in
      let same : made ≡ hs = ground (arith, e, added, clear) in
      let (fit, once) = add_headers-Strict [] made lines added tt tt in
      rw (← same) (fit, once, clear)
]

good_version :
    (method target version : Text)
    → is_good_line method target version ≡ true
    → is_good_line method target (codes "HTTP/1.1") ≡ true
unfolding is_good_line
good_version method target version h = ground (arith, h)

line_of-good :
    (parts : List Text) (method target : Text)
    → line_of parts ≡ gives (method, target)
    → is_good_line method target (codes "HTTP/1.1") ≡ true
unfolding line_of
line_of-good [] method target e = absurd (cc)
line_of-good (a ∷ []) method target e = absurd (cc)
line_of-good (a ∷ b ∷ []) method target e = absurd (cc)
line_of-good (a ∷ b ∷ v ∷ []) method target e =
    let good : is_good_line a b v ≡ true = ground (arith, e) in
    let first : a ≡ method = ground (arith, e, good) in
    let second : b ≡ target = ground (arith, e, good) in
    rw (← first, ← second) (good_version a b v good)
line_of-good (a ∷ b ∷ v ∷ w ∷ ps) method target e = absurd (cc)

request-Guarded : (lines : List Text) (r : Request) → request_of lines ≡ gives r → Guarded r
unfolding request_of
request-Guarded [] r e = absurd (cc)
request-Guarded (first ∷ lines) r e = elim (Answer-cases (line_of (split_on b' ' first))) [
  | inr (x, fails_here) ↦ absurd (ground (arith, e, fails_here))
  | inl ((method, target), good) ↦ elim (Answer-cases (headers_of lines)) [
    | inr (x, fails_here) ↦ absurd (ground (arith, e, good, fails_here))
    | inl (hs, made) ↦
        let same : record { method = method; target = target; headers = hs; body = [] } ≡ r =
          ground (arith, e, good, made) in
        let (fit, once, clear) = headers_of-Strict lines hs made in
        subst Guarded same (record {
          line = line_of-good (split_on b' ' first) method target good;
          headers_fit = fit;
          once = once;
          not_chunked = clear;
          no_body = refl;
        })
  ]
]

pub parse_head-Guarded : (head : Text) (r : Request) → parse_head head ≡ gives r → Guarded r
unfolding parse_head
parse_head-Guarded head r e = request-Guarded (split_lines head) r e
