-- ===== src/Api/Http/Strict.antt =====
-- What the checks of `parse_head` of src-tauri/src/api/http.rs come to: the form of a request.
use meow_ny.Common.{◌≤◌, ◌≡◌, refl, ap, true, [], ◌∷◌, arith, all, length, All-map}
use meow_ny.Common.Text.{Text, utf8_len, starts_with}
use meow_ny.Sync.{codes, gives}
use meow_ny.Api.Http.{Request, is_upper, is_visible, is_good_line, parse_head}
use meow_ny.Api.Http.Guards.{IsHeader, Guarded, parse_head-Guarded}
use meow_ny.Api.Http.Form.{Between, IsField, IsStrict}
use meow_ny.Api.Http.Field.{all-All, All-all, header-IsField, IsField-header}
use meow_ny.Api.Http.Repeats.{
  has_name-times, times-has_name, NoRepeat-OnceAtMost, OnceAtMost-NoRepeat,
}

-- The request line.
good_line-IsStrict :
    (m t : Text)
    → is_good_line m t (codes "HTTP/1.1") ≡ true
    → (1 ≤ length m)
      × (utf8_len m ≤ 16)
      × (all is_upper m ≡ true)
      × (starts_with 0x2f t ≡ true)
      × (utf8_len t ≤ 200)
      × (all is_visible t ≡ true)
unfolding is_good_line
good_line-IsStrict [] t h = absurd (ground (arith, h))
good_line-IsStrict (c ∷ m) t h = (
  omega arith,
  ground (arith, h),
  ground (arith, h),
  ground (arith, h),
  ground (arith, h),
  ground (arith, h),
)

IsStrict-good_line :
    (m t : Text)
    → 1 ≤ length m
    → utf8_len m ≤ 16
    → all is_upper m ≡ true
    → starts_with 0x2f t ≡ true
    → utf8_len t ≤ 200
    → all is_visible t ≡ true
    → is_good_line m t (codes "HTTP/1.1") ≡ true
unfolding is_good_line
IsStrict-good_line [] t a b c d e f = absurd (omega arith)
IsStrict-good_line (x ∷ m) t a b c d e f = ground (arith, a, b, c, d, e, f)

path_of : (t : Text) → starts_with 0x2f t ≡ true → (rest : Text) × (t ≡ 0x2f ∷ rest)
path_of [] h = absurd (cc)
path_of (c ∷ t) h = let same : c ≡ 0x2f = ground arith in (t, ap (λ d. d ∷ t) same)

path_starts : (t rest : Text) → t ≡ 0x2f ∷ rest → starts_with 0x2f t ≡ true
path_starts t rest e = rw e refl

-- What the checks leave is the form, and what has the form passes the checks.
Guarded-IsStrict : (r : Request) → Guarded r → IsStrict r
Guarded-IsStrict r g =
    let (some, short, upper, slash, short_target, seen) =
      good_line-IsStrict r.method r.target g.line in
    record {
      some_method = some;
      short_method = short;
      method_letters =
          all-All is_upper (Between 0x41 0x5a) (λ c h. (ground arith, ground arith)) r.method upper;
      path = path_of r.target slash;
      short_target = short_target;
      target_visible =
          all-All is_visible (Between 0x21 0x7e) (λ c h. (ground arith, ground arith)) r.target
            seen;
      fields = All-map IsHeader IsField header-IsField r.headers g.headers_fit;
      once = NoRepeat-OnceAtMost r.headers g.once;
      not_chunked = has_name-times (codes "transfer-encoding") r.headers g.not_chunked;
      no_body = g.no_body;
    }

pub IsStrict-Guarded : (r : Request) → IsStrict r → Guarded r
IsStrict-Guarded r s = record {
  line =
      IsStrict-good_line r.method r.target s.some_method s.short_method
        (All-all is_upper (Between 0x41 0x5a) (λ c h. ground (arith, h.0, h.1)) r.method
          s.method_letters)
        (path_starts r.target s.path.0 s.path.1) s.short_target
        (All-all is_visible (Between 0x21 0x7e) (λ c h. ground (arith, h.0, h.1)) r.target
          s.target_visible);
  headers_fit = All-map IsField IsHeader IsField-header r.headers s.fields;
  once = OnceAtMost-NoRepeat r.headers s.once;
  not_chunked = times-has_name (codes "transfer-encoding") r.headers s.not_chunked;
  no_body = s.no_body;
}

-- What is accepted: a method of 1 to 16 capital letters, a target that begins with `/`, of at most 200
-- bytes, all of them visible ASCII, names that are not empty and of digits, lower case letters and the
-- symbols allowed, values that neither begin nor end with a space or a tabulator and have no character
-- below 0x20 but the tabulator and no 0x7f, each of the five names that may stand once at most once, no
-- `transfer-encoding`, and no body yet.
pub parse_head-IsStrict : (head : Text) (r : Request) → parse_head head ≡ gives r → IsStrict r
parse_head-IsStrict head r e = Guarded-IsStrict r (parse_head-Guarded head r e)
