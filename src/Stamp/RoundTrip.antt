-- ===== src/Stamp/RoundTrip.antt =====
-- A stamp is written in the shape that is read.
use meow_ny.Common.{
  ℕ, zero, suc, ◌+◌, ◌-◌, ◌/◌, ◌%◌, ◌^◌, ◌<◌, ◌≡◌, refl, ap, sym, ◌∙◌, true, some, [], ◌∷◌, ◌++◌,
  arith, all, all-append, length, length-append, take, drop, get_or,
}
use meow_ny.Common.Text.{Text, utf8_len, utf8_len-digits, is_digit}
use meow_ny.Common.Decimal.{
  show, digits_of, value, digits_of-digits, value-digits_of, length-digits_of,
}
use meow_ny.Stamp.{
  Stamp, is_lower_hex, hex_value, hex_from, slice, parse, hex_digit, hex_4, zeros, pad_13, format,
}

take-length : (p r : Text) → take (length p) (p ++ r) ≡ p
take-length [] r = refl
take-length (c ∷ p) r = ap (◌∷◌ c) (take-length p r)

drop-length : (p r : Text) (k : ℕ) → drop (length p + k) (p ++ r) ≡ drop k r
drop-length [] r k = let e : 0 + k ≡ k = omega arith in ap (λ i. drop i r) e
drop-length (c ∷ p) r k =
    let e : suc (length p) + k ≡ suc (length p + k) = omega arith in
    ap (λ i. drop i (c ∷ (p ++ r))) e ∙ drop-length p r k

get_or-length : (p r : Text) (k : ℕ) → get_or (p ++ r) (length p + k) 0 ≡ get_or r k 0
get_or-length [] r k = let e : 0 + k ≡ k = omega arith in ap (λ i. get_or r i 0) e
get_or-length (c ∷ p) r k =
    let e : suc (length p) + k ≡ suc (length p + k) = omega arith in
    ap (λ i. get_or (c ∷ (p ++ r)) i 0) e ∙ get_or-length p r k

pub utf8_len-append : (p r : Text) → utf8_len (p ++ r) ≡ utf8_len p + utf8_len r
utf8_len-append [] r = omega arith
utf8_len-append (c ∷ p) r = omega (arith, utf8_len-append p r)

pub utf8_len-hex : (s : Text) → all is_lower_hex s ≡ true → utf8_len s ≡ length s
utf8_len-hex [] h = refl
utf8_len-hex (c ∷ s) h = ground (arith, utf8_len-hex s)

length-zeros : (n : ℕ) → length (zeros n) ≡ n
unfolding zeros
length-zeros zero = refl
length-zeros (suc n) = ap suc (length-zeros n)

zeros_digits : (n : ℕ) → all is_digit (zeros n) ≡ true
unfolding zeros
zeros_digits zero = refl
zeros_digits (suc n) = zeros_digits n

value-zeros : (n : ℕ) (s : Text) → value (zeros n ++ s) ≡ value s
unfolding zeros
value-zeros zero s = refl
value-zeros (suc n) s = value-zeros n s

hex_back : (d : ℕ) → d < 16 → hex_value (hex_digit d) ≡ d
hex_back d h = ground arith

pub hex_is_hex : (d : ℕ) → d < 16 → is_lower_hex (hex_digit d) ≡ true
hex_is_hex d h = ground arith

hex_4_back : (n : ℕ) → n < 65536 → hex_from 0 (hex_4 n) ≡ n
unfolding hex_from
hex_4_back n h = omega (
  arith,
  hex_back (n / 4096 % 16) (omega arith),
  hex_back (n / 256 % 16) (omega arith),
  hex_back (n / 16 % 16) (omega arith),
  hex_back (n % 16) (omega arith),
)

-- What the padded milliseconds are.
record Padded (n : ℕ) (p : Text) : Type 0 where
  thirteen : length p ≡ 13
  digits : all is_digit p ≡ true
  value_is : value p ≡ n

pad_13-Padded : (n : ℕ) → n < 10 ^ 13 → Padded n (pad_13 n)
unfolding pad_13 show
pad_13-Padded n small =
    let short = length-digits_of 20 13 n (omega arith) small in
    let ds = digits_of-digits 20 n in
    record {
      thirteen = omega (
        arith,
        length-append (zeros (13 - length (digits_of 20 n))) (digits_of 20 n),
        length-zeros (13 - length (digits_of 20 n)),
        short,
      );
      digits =
          all-append is_digit (zeros (13 - length (digits_of 20 n))) (digits_of 20 n)
            (zeros_digits (13 - length (digits_of 20 n))) ds;
      value_is =
          value-zeros (13 - length (digits_of 20 n)) (digits_of 20 n)
          ∙ value-digits_of 20 n (omega arith) (omega arith);
    }

parse_parts :
    (text p h d : Text)
    → utf8_len text ≡ 27
    → get_or text 13 0 ≡ b'-'
    → get_or text 18 0 ≡ b'-'
    → take 13 text ≡ p
    → slice 14 4 text ≡ h
    → drop 19 text ≡ d
    → all is_digit p ≡ true
    → all is_lower_hex h ≡ true
    → all is_lower_hex d ≡ true
    → parse text ≡ some (record { ms = value p; counter = hex_from 0 h; device = d })
unfolding parse
parse_parts text p h d wide dash dash' front middle back ps hs ds =
    rw (wide, dash, dash', front, middle, back, ps, hs, ds) refl

wide_of :
    (p h d : Text)
    → all is_digit p ≡ true
    → all is_lower_hex h ≡ true
    → all is_lower_hex d ≡ true
    → length p ≡ 13
    → length h ≡ 4
    → length d ≡ 8
    → utf8_len (p ++ (b'-' ∷ (h ++ (b'-' ∷ d)))) ≡ 27
wide_of p h d ps hs ds np nh nd = omega (
  arith,
  utf8_len-append p (b'-' ∷ (h ++ (b'-' ∷ d))),
  utf8_len-append h (b'-' ∷ d),
  utf8_len-digits p ps,
  utf8_len-hex h hs,
  utf8_len-hex d ds,
)

hex_4_hex : (n : ℕ) → all is_lower_hex (hex_4 n) ≡ true
hex_4_hex n =
    let a = hex_is_hex (n / 4096 % 16) (omega arith) in
    let b = hex_is_hex (n / 256 % 16) (omega arith) in
    let c = hex_is_hex (n / 16 % 16) (omega arith) in
    let d = hex_is_hex (n % 16) (omega arith) in rw (a, b, c, d) refl

parse-Padded :
    (p : Text) (s : Stamp)
    → Padded s.ms p
    → s.counter < 65536
    → length s.device ≡ 8
    → all is_lower_hex s.device ≡ true
    → parse (p ++ (b'-' ∷ (hex_4 s.counter ++ (b'-' ∷ s.device)))) ≡ some s
parse-Padded p s padded small eight hex =
    let rest = b'-' ∷ (hex_4 s.counter ++ (b'-' ∷ s.device)) in
    let n = padded.thirteen in
    parse_parts (p ++ rest) p (hex_4 s.counter) s.device
      (wide_of p (hex_4 s.counter) s.device padded.digits (hex_4_hex s.counter) hex n refl eight)
      (ap (λ i. get_or (p ++ rest) (i + 0) 0) (sym n) ∙ get_or-length p rest 0)
      (ap (λ i. get_or (p ++ rest) (i + 5) 0) (sym n) ∙ get_or-length p rest 5)
      (ap (λ i. take i (p ++ rest)) (sym n) ∙ take-length p rest)
      (ap (take 4) (ap (λ i. drop (i + 1) (p ++ rest)) (sym n) ∙ drop-length p rest 1))
      (ap (λ i. drop (i + 6) (p ++ rest)) (sym n) ∙ drop-length p rest 6) padded.digits
      (hex_4_hex s.counter) hex
    ∙ ap (λ i. some (record { ms = i; counter = hex_from 0 (hex_4 s.counter); device = s.device }))
        padded.value_is
    ∙ ap (λ i. some (record { ms = s.ms; counter = i; device = s.device }))
        (hex_4_back s.counter small)

-- A stamp with milliseconds of 13 digits, a counter of 16 bits and a device of eight lower-case hex
-- digits is read back from the text that it is written as.
pub parse-format :
    (s : Stamp)
    → s.ms < 10 ^ 13
    → s.counter < 65536
    → length s.device ≡ 8
    → all is_lower_hex s.device ≡ true
    → parse (format s) ≡ some s
unfolding format
parse-format s ms_fits counter_fits eight hex =
    parse-Padded (pad_13 s.ms) s (pad_13-Padded s.ms ms_fits) counter_fits eight hex
