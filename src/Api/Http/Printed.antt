-- ===== src/Api/Http/Printed.antt =====
-- A strict request is read back from the head that it is written as.
use meow_ny.Common.{
  ℕ, ◌≡◌, ◌≢◌, refl, ap, sym, ◌∙◌, Bool, true, false, ◌&&◌, ◌||◌, List, [], ◌∷◌, ◌++◌, arith, all,
  any, map, ◌==◌, All, All-append,
}
use mathlib.Core.List.{append_assoc}
use meow_ny.Common.Slices.{append_nil}
use meow_ny.Common.Text.{Text, text_eq_iff, text_eq_refl, split_once-append, Without}
use meow_ny.Fields.{split_on}
use meow_ny.Sync.{codes, gives}
use meow_ny.Api.Http.{
  Header, Request, is_token_char, split_lines, is_bad_value, is_upper, is_visible, is_good_line,
  line_of, checked_header, header_of, has_name, is_single, add_headers, headers_of, request_of,
  parse_head,
}
use meow_ny.Api.Http.Guards.{IsHeader, NoRepeat, Guarded, lower_kept}
use meow_ny.Api.Http.Form.{IsStrict}
use meow_ny.Api.Http.Strict.{IsStrict-Guarded}

abbrev pub header_text : Header → Text
header_text (name, value) = name ++ b':' ∷ value

abbrev pub lines_text : List Text → Text
lines_text [] = []
lines_text (l ∷ ls) = 0xd ∷ 0xa ∷ (l ++ lines_text ls)

abbrev pub line_text : Text → Text → Text
line_text method target = method ++ b' ' ∷ (target ++ b' ' ∷ codes "HTTP/1.1")

-- The head that a client sends for a request.
abbrev pub head_of : Request → Text
head_of r = line_text r.method r.target ++ lines_text (map header_text r.headers)

split_lines-cons :
    (c : ℕ) (s line : Text) (lines : List Text)
    → c ≢ 0xd
    → split_lines s ≡ line ∷ lines
    → split_lines (c ∷ s) ≡ (c ∷ line) ∷ lines
unfolding split_lines
split_lines-cons c [] line lines other e = ground arith
split_lines-cons c (d ∷ s) line lines other e =
    let goes_on : ((c == 0xd) && (d == 0xa)) ≡ false = ground (arith, other) in
    ground (arith, goes_on, e)

split_lines-append :
    (a s line : Text) (lines : List Text)
    → Without 0xd a
    → split_lines s ≡ line ∷ lines
    → split_lines (a ++ s) ≡ (a ++ line) ∷ lines
split_lines-append [] s line lines clear e = e
split_lines-append (c ∷ a) s line lines clear e =
    split_lines-cons c (a ++ s) (a ++ line) lines clear.0
      (split_lines-append a s line lines clear.1 e)

split_lines-lines_text :
    (ls : List Text) → All (Without 0xd) ls → split_lines (lines_text ls) ≡ [] ∷ ls
unfolding split_lines
split_lines-lines_text [] clear = refl
split_lines-lines_text (l ∷ ls) clear =
    ap (λ t. [] ∷ t)
      (split_lines-append l (lines_text ls) [] ls clear.0 (split_lines-lines_text ls clear.1)
        ∙ ap (λ t. t ∷ ls) (append_nil l))

split_on-cons :
    (d c : ℕ) (s g : Text) (gs : List Text)
    → c ≢ d
    → split_on d s ≡ g ∷ gs
    → split_on d (c ∷ s) ≡ (c ∷ g) ∷ gs
unfolding split_on
split_on-cons d c s g gs other e = ground (arith, other, e)

split_on-here :
    (d : ℕ) (s g : Text) (gs : List Text) → split_on d s ≡ g ∷ gs → split_on d (d ∷ s) ≡ [] ∷ g ∷ gs
unfolding split_on
split_on-here d s g gs e = ground (arith, e)

split_on-append :
    (d : ℕ) (a s g : Text) (gs : List Text)
    → Without d a
    → split_on d s ≡ g ∷ gs
    → split_on d (a ++ d ∷ s) ≡ a ∷ g ∷ gs
split_on-append d [] s g gs clear e = split_on-here d s g gs e
split_on-append d (c ∷ a) s g gs clear e =
    split_on-cons d c (a ++ d ∷ s) a (g ∷ gs) clear.0 (split_on-append d a s g gs clear.1 e)

all-Without : (p : ℕ → Bool) (d : ℕ) (s : Text) → p d ≡ false → all p s ≡ true → Without d s
all-Without p d [] no_d h = tt
all-Without p d (c ∷ s) no_d h = (
  (λ same. absurd (ground (arith, no_d, h, ap p same))),
  all-Without p d s no_d (ground (arith, h)),
)

any-Without : (p : ℕ → Bool) (d : ℕ) (s : Text) → p d ≡ true → any p s ≡ false → Without d s
any-Without p d [] no_d h = tt
any-Without p d (c ∷ s) no_d h = (
  (λ same. absurd (ground (arith, no_d, h, ap p same))),
  any-Without p d s no_d (ground (arith, h)),
)

good_line-parts :
    (method target version : Text)
    → is_good_line method target version ≡ true
    → (all is_upper method ≡ true) × (all is_visible target ≡ true)
unfolding is_good_line
good_line-parts method target version h = (ground (arith, h), ground (arith, h))

version_alone : split_on b' ' (codes "HTTP/1.1") ≡ codes "HTTP/1.1" ∷ []
unfolding split_on
version_alone = refl

line_of-line_text :
    (method target : Text)
    → is_good_line method target (codes "HTTP/1.1") ≡ true
    → line_of (split_on b' ' (line_text method target)) ≡ gives (method, target)
unfolding line_of
line_of-line_text method target good =
    let (upper, visible) = good_line-parts method target (codes "HTTP/1.1") good in
    let parts : split_on b' ' (line_text method target) ≡ method ∷ target ∷ codes "HTTP/1.1" ∷ [] =
      split_on-append b' ' method (target ++ b' ' ∷ codes "HTTP/1.1") target (codes "HTTP/1.1" ∷ [])
        (all-Without is_upper b' ' method refl upper)
        (split_on-append b' ' target (codes "HTTP/1.1") (codes "HTTP/1.1") []
          (all-Without is_visible b' ' target refl visible) version_alone) in
    rw (parts, good) refl

token-Without :
    (d : ℕ) (name : Text) → is_token_char d ≡ false → all is_token_char name ≡ true → Without d name
token-Without d name h k = all-Without is_token_char d name h k

no_colon : is_token_char b':' ≡ false
unfolding is_token_char
no_colon = refl

no_return : is_token_char 0xd ≡ false
unfolding is_token_char
no_return = refl

header_text-Without : (h : Header) → IsHeader h → Without 0xd (header_text h)
header_text-Without (name, value) (full, tokens, lower, clear, trimmed) =
    All-append (λ c. c ≢ 0xd) name (b':' ∷ value) (token-Without 0xd name no_return tokens)
      ((λ same. absurd (ground arith)), any-Without is_bad_value 0xd value refl clear)

headers_text-Without : (hs : List Header) → All IsHeader hs → All (Without 0xd) (map header_text hs)
headers_text-Without [] fit = tt
headers_text-Without (h ∷ hs) (here, fit) =
    (header_text-Without h here, headers_text-Without hs fit)

header_of-header_text : (h : Header) → IsHeader h → header_of (header_text h) ≡ gives h
unfolding header_of checked_header
header_of-header_text (name, value) (full, tokens, lower, clear, trimmed) =
    rw
      (
        split_once-append b':' name value (token-Without b':' name no_colon tokens),
        full,
        tokens,
        trimmed,
        clear,
        lower_kept name lower,
      )
      refl

has_name-append :
    (name : Text) (a b : List Header)
    → has_name name (a ++ b) ≡ (has_name name a || has_name name b)
has_name-append name [] b = refl
has_name-append name ((m, w) ∷ a) b = ground (arith, has_name-append name a b)

-- A header that comes later is no second one.
NoRepeat-inv :
    (hs : List Header) (name value : Text) (rest : List Header)
    → NoRepeat (hs ++ (name, value) ∷ rest)
    → (is_single name && has_name name hs) ≡ false
NoRepeat-inv [] name value rest once = ground arith
NoRepeat-inv ((m, w) ∷ hs) name value rest once = ground (
  arith,
  NoRepeat-inv hs name value rest once.1,
  once.0,
  has_name-append m hs ((name, value) ∷ rest),
  text_eq_iff m name,
  text_eq_refl m,
)

add_headers-header_text :
    (hs rest : List Header)
    → All IsHeader rest
    → NoRepeat (hs ++ rest)
    → add_headers hs (map header_text rest) ≡ gives (hs ++ rest)
unfolding add_headers
add_headers-header_text hs [] fit once = ap (λ l. gives l) (sym (append_nil hs))
add_headers-header_text hs ((name, value) ∷ rest) (here, fit) once =
    let new = NoRepeat-inv hs name value rest once in
    let moved = append_assoc hs ((name, value) ∷ []) rest in
    rw (header_of-header_text (name, value) here, new)
      (add_headers-header_text (hs ++ (name, value) ∷ []) rest fit (rw moved once)
        ∙ ap (λ l. gives l) moved)

headers_of-header_text :
    (hs : List Header)
    → All IsHeader hs
    → NoRepeat hs
    → has_name (codes "transfer-encoding") hs ≡ false
    → headers_of (map header_text hs) ≡ gives hs
unfolding headers_of
headers_of-header_text hs fit once clear = rw (add_headers-header_text [] hs fit once, clear) refl

visible-Without : (s : Text) → all is_visible s ≡ true → Without 0xd s
visible-Without s h = all-Without is_visible 0xd s refl h

line_text-Without :
    (method target : Text)
    → is_good_line method target (codes "HTTP/1.1") ≡ true
    → Without 0xd (line_text method target)
line_text-Without method target good =
    let (upper, visible) = good_line-parts method target (codes "HTTP/1.1") good in
    All-append (λ c. c ≢ 0xd) method (b' ' ∷ (target ++ b' ' ∷ codes "HTTP/1.1"))
      (all-Without is_upper 0xd method refl upper)
      (
        (λ same. absurd (ground arith)),
        All-append (λ c. c ≢ 0xd) target (b' ' ∷ codes "HTTP/1.1") (visible-Without target visible)
            ((λ same. absurd (ground arith)), visible-Without (codes "HTTP/1.1") refl),
      )

head_of-Guarded : (r : Request) → Guarded r → parse_head (head_of r) ≡ gives r
unfolding parse_head request_of
head_of-Guarded r strict =
    let first = line_text r.method r.target in
    let texts = map header_text r.headers in
    let lines : split_lines (head_of r) ≡ first ∷ texts =
      split_lines-append first (lines_text texts) [] texts
        (line_text-Without r.method r.target strict.line)
        (split_lines-lines_text texts (headers_text-Without r.headers strict.headers_fit))
      ∙ ap (λ t. t ∷ texts) (append_nil first) in
    rw
      (
        lines,
        line_of-line_text r.method r.target strict.line,
        headers_of-header_text r.headers strict.headers_fit strict.once strict.not_chunked,
        strict.no_body,
      )
      refl

-- A strict request is what is read from the head that it is written as.
pub parse_head-head_of : (r : Request) → IsStrict r → parse_head (head_of r) ≡ gives r
parse_head-head_of r strict = head_of-Guarded r (IsStrict-Guarded r strict)
