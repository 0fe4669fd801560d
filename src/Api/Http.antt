-- ===== src/Api/Http.antt =====
-- The head of a request to the local API: `parse_head` and `content_length` of src-tauri/src/api/http.rs,
-- and the error of src-tauri/src/api.rs.
pub mod Field
pub mod Form
pub mod Guards
pub mod Repeats
pub mod Strict
pub mod Printed
use meow_ny.Common.{
  ℕ, ◌+◌, Bool, true, false, not, ◌&&◌, ◌||◌, Option, none, some, List, [], ◌∷◌, ◌++◌, length, all,
  any, map, ltb, leb, ◌==◌, if◌then◌else◌,
}
use meow_ny.Common.Text.{
  Text, utf8_len, is_digit, is_empty, starts_with, text_eq, split_once, lower_ascii,
}
use meow_ny.Common.Decimal.{value}
use meow_ny.Fields.{split_on}
use meow_ny.Documents.Names.{drop_end}
use meow_ny.Sync.{codes, Answer, fails, gives, ◌>>=◌, ◌>>◌, fail_if, ok_or}

pub record ApiError : Type 0 where
  pub status : ℕ
  pub code : Text
  pub message : Text

abbrev pub invalid : Text → ApiError
invalid detail = record { status = 400; code = codes "invalid_input"; message = detail }

abbrev pub max_target : ℕ
max_target = 200

abbrev pub Header : Type 0
Header = Text × Text

abbrev pub single : List Text
single =
    codes "host"
    ∷ codes "content-length"
    ∷ codes "authorization"
    ∷ codes "origin"
    ∷ codes "expect"
    ∷ []

pub record Request : Type 0 where
  pub method : Text
  pub target : Text
  pub headers : List Header
  pub body : List ℕ

unfoldable pub find_header : Text → List Header → Option Text
find_header name [] = none
find_header name ((n, v) ∷ hs) =
    let rest = find_header name hs in if text_eq n name then some v else rest

-- `Request::header`
unfoldable pub header : Text → Request → Option Text
unfolding find_header
header name request = find_header name request.headers

abbrev pub is_alphanumeric : ℕ → Bool
is_alphanumeric b = is_digit b || (leb b'A' b && leb b b'Z') || (leb b'a' b && leb b b'z')

unfoldable pub is_token_char : ℕ → Bool
is_token_char b = is_alphanumeric b || any (λ c. c == b) (codes "!#$%&'*+-.^_`|~")

-- `split("\r\n")`
unfoldable pub split_lines : Text → List Text
split_lines [] = [] ∷ []
split_lines (c ∷ []) = (c ∷ []) ∷ []
split_lines (c ∷ d ∷ s) = elim ((c == 0xd) && (d == 0xa)) [
  | true ↦ [] ∷ split_lines s
  | false ↦ elim (split_lines (d ∷ s)) [ [] ↦ [] | line ∷ lines ↦ (c ∷ line) ∷ lines ]
]

unfoldable pub drop_start : (ℕ → Bool) → Text → Text
drop_start p [] = []
drop_start p (c ∷ s) = if p c then drop_start p s else c ∷ s

abbrev pub is_blank : ℕ → Bool
is_blank c = (c == b' ') || (c == 0x9)

-- `trim_matches`
unfoldable pub trim_blanks : Text → Text
unfolding drop_start drop_end
trim_blanks s = drop_end is_blank (drop_start is_blank s)

abbrev pub bad : ApiError
bad = invalid (codes "malformed request")

abbrev pub is_bad_value : ℕ → Bool
is_bad_value b = (ltb b 0x20 && not (b == 0x9)) || (b == 0x7f)

abbrev pub is_version : Text → Bool
is_version version = text_eq version (codes "HTTP/1.1") || text_eq version (codes "HTTP/1.0")

abbrev pub is_upper : ℕ → Bool
is_upper b = leb b'A' b && leb b b'Z'

abbrev pub is_visible : ℕ → Bool
is_visible b = leb 0x21 b && leb b 0x7e

unfoldable pub is_good_line : Text → Text → Text → Bool
is_good_line method target version = not (
    not (is_version version)
    || is_empty method
    || ltb 16 (utf8_len method)
    || not (all is_upper method)
    || not (starts_with b'/' target)
    || ltb max_target (utf8_len target)
    || not (all is_visible target))

-- The request line: exactly three parts.
unfoldable pub line_of : List Text → Answer ApiError (Text × Text)
unfolding is_good_line
line_of (method ∷ target ∷ version ∷ []) =
    fail_if (not (is_good_line method target version)) bad >> gives (method, target)
line_of other = fails bad

unfoldable pub checked_header : Text × Text → Answer ApiError Header
unfolding is_token_char trim_blanks
checked_header (name, raw) =
    fail_if (is_empty name || not (all is_token_char name)) bad
    >> (let value = trim_blanks raw in
        fail_if (any is_bad_value value) bad >> gives (map lower_ascii name, value))

unfoldable pub header_of : Text → Answer ApiError Header
unfolding split_once checked_header
header_of line = ok_or (split_once b':' line) bad >>= checked_header

abbrev pub has_name : Text → List Header → Bool
has_name name = any (λ (n, v). text_eq n name)

unfoldable pub is_single : Text → Bool
is_single name = any (λ n. text_eq n name) single

unfoldable pub add_headers : List Header → List Text → Answer ApiError (List Header)
unfolding header_of
add_headers hs [] = gives hs
add_headers hs (line ∷ lines) = header_of line >>= λ (name, value).
    fail_if (is_single name && has_name name hs) (invalid (codes "a header is repeated"))
    >> add_headers (hs ++ (name, value) ∷ []) lines

unfoldable pub headers_of : List Text → Answer ApiError (List Header)
unfolding add_headers
headers_of lines = add_headers [] lines >>= λ hs.
    fail_if (has_name (codes "transfer-encoding") hs)
      (invalid (codes "chunked bodies are not supported; send Content-Length"))
    >> gives hs

unfoldable pub request_of : List Text → Answer ApiError Request
unfolding split_on line_of headers_of
request_of [] = fails bad
request_of (first ∷ lines) = line_of (split_on b' ' first) >>= λ (method, target).
    headers_of lines >>= λ hs.
    gives (record { method = method; target = target; headers = hs; body = [] })

unfoldable pub parse_head : Text → Answer ApiError Request
unfolding split_lines request_of
parse_head head = request_of (split_lines head)

abbrev pub is_length : Text → Bool
is_length v = not (is_empty v) && leb (utf8_len v) 10 && all is_digit v

-- Ten digits fit an usize.
abbrev pub length_of : Option Text → Answer ApiError ℕ
length_of none = gives 0
length_of (some v) =
    if is_length v then gives (value v) else fails (invalid (codes "bad Content-Length"))

unfoldable pub content_length : Request → Answer ApiError ℕ
unfolding header
content_length request = length_of (header (codes "content-length") request)
