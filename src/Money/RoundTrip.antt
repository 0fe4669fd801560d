-- ===== src/Money/RoundTrip.antt =====
-- Parsing and formatting amounts undo each other.
use meow_ny.Common.{
  ℕ, ◌+◌, ◌-◌, ◌*◌, ◌/◌, ◌%◌, ◌^◌, ◌≤◌, ◌<◌, ◌≡◌, refl, ap, ◌∙◌, sym, subst, inl, inr, Option-cases,
  true, false, some, [], ◌∷◌, ◌++◌, arith, all, length,
}
use meow_ny.Common.Int.{pos, ltb_ℤ}
use meow_ny.Common.Text.{
  Text, is_digit, split_once, split_once-append, split_once-eq-some, digits-Without,
  utf8_len-digits,
}
use meow_ny.Common.Decimal.{
  digits_of, show, value, value_from, IsPlain, value-digits_of, digits_of-digits, length-digits_of,
  digits_of-IsPlain, digits_of-value, digits-cons,
}
use meow_ny.Common.Error.{ok}
use meow_ny.Money.{
  max_minor, digits, whole_ok, fraction_ok, two_digits, parse_amount, format_amount,
}

value-append2 :
    (acc : ℕ) (s : Text) (c d : ℕ)
    → value_from acc (s ++ c ∷ d ∷ []) ≡ value_from acc s * 100 + (c - b'0') * 10 + (d - b'0')
value-append2 acc [] c d = omega arith
value-append2 acc (x ∷ s) c d = value-append2 (acc * 10 + (x - b'0')) s c d

-- What `whole_ok` accepts: a plain numeral of at most ten digits.
whole_ok_iff :
    (s : Text) → whole_ok s ≡ true → IsPlain s × (all is_digit s ≡ true) × (length s ≤ 10)
unfolding whole_ok
whole_ok_iff [] h = absurd (cc)
whole_ok_iff (c ∷ []) h = ground (arith, utf8_len-digits (c ∷ []))
whole_ok_iff (c ∷ d ∷ s) h = ground (arith, utf8_len-digits (c ∷ d ∷ s))

ok_of_plain : (s : Text) → IsPlain s → all is_digit s ≡ true → length s ≤ 10 → whole_ok s ≡ true
unfolding whole_ok
ok_of_plain [] p d l = absurd p
ok_of_plain (c ∷ []) p d l = ground (arith, utf8_len-digits (c ∷ []) d)
ok_of_plain (c ∷ e ∷ s) p d l = ground (arith, utf8_len-digits (c ∷ e ∷ s) d)

-- What `fraction_ok` accepts: two digits.
fraction_ok_iff :
    (s : Text)
    → fraction_ok s ≡ true
    → (c : ℕ) × (d : ℕ) × (s ≡ c ∷ d ∷ []) × (all is_digit s ≡ true)
unfolding fraction_ok
fraction_ok_iff [] h = absurd (cc)
fraction_ok_iff (c ∷ []) h = absurd (ground (arith, utf8_len-digits (c ∷ [])))
fraction_ok_iff (c ∷ d ∷ []) h = (c, d, refl, ground arith)
fraction_ok_iff (c ∷ d ∷ e ∷ s) h = absurd (ground (arith, utf8_len-digits (c ∷ d ∷ e ∷ s)))

fraction_ok-two_digits : (n : ℕ) → n < 100 → fraction_ok (two_digits n) ≡ true
unfolding fraction_ok
fraction_ok-two_digits n h = ground arith

format_amount-pos : (n : ℕ) → format_amount (pos n) ≡ show (n / 100) ++ b'.' ∷ two_digits (n % 100)
unfolding format_amount
format_amount-pos n =
    let not_negative : ltb_ℤ (pos n) (pos 0) ≡ false = ground arith in rw not_negative

-- `parse_amount` once the text is split.
parse_amount-split :
    (t w f : Text) (n : ℕ)
    → split_once b'.' t ≡ some (w, f)
    → whole_ok w ≡ true
    → fraction_ok f ≡ true
    → value (w ++ f) ≡ n
    → n ≤ max_minor
    → parse_amount t ≡ ok n
unfolding parse_amount
parse_amount-split t w f n s a b v h = rw (s, a, b, v) (ground arith)

-- An amount that is shown is read back as itself.
pub parse_amount-format_amount :
    (n : ℕ) → n ≤ max_minor → parse_amount (format_amount (pos n)) ≡ ok n
unfolding show
parse_amount-format_amount n h =
    let w = digits_of 20 (n / 100) in
    let small : n / 100 < 10 ^ 10 = omega arith in
    let split =
      split_once-append b'.' w (two_digits (n % 100))
        (digits-Without b'.' w (digits_of-digits 20 (n / 100)) refl) in
    let front =
      ok_of_plain w (digits_of-IsPlain 20 (n / 100) (omega arith) (omega arith))
        (digits_of-digits 20 (n / 100)) (length-digits_of 20 10 (n / 100) (omega arith) small) in
    let back = fraction_ok-two_digits (n % 100) (omega arith) in
    let read : value (w ++ two_digits (n % 100)) ≡ n =
      value-append2 0 w _ _
      ∙ omega (arith, value-digits_of 20 (n / 100) (omega arith) (omega arith)) in
    rw (format_amount-pos n)
      (parse_amount-split _ w (two_digits (n % 100)) n split front back read h)

-- What a successful parse has read.
record Read (t : Text) (n : ℕ) : Type 0 where
  whole : Text
  fraction : Text
  split : split_once b'.' t ≡ some (whole, fraction)
  whole_is : whole_ok whole ≡ true
  fraction_is : fraction_ok fraction ≡ true
  value_is : value (whole ++ fraction) ≡ n
  in_range : n ≤ max_minor

parse_amount-Read : (t : Text) (n : ℕ) → parse_amount t ≡ ok n → Read t n
unfolding parse_amount
parse_amount-Read t n h = elim (Option-cases (split_once b'.' t)) [
  | inl e ↦ absurd (ground arith)
  | inr ((w, f), e) ↦ record {
    whole = w;
    fraction = f;
    split = e;
    whole_is = ground arith;
    fraction_is = ground arith;
    value_is = ground arith;
    in_range = ground arith;
  }
]

-- The parser accepts only what the formatter writes: the amount that it reads is in range, and is
-- written as the text that was read.
pub format_amount-parse_amount :
    (t : Text) (n : ℕ) → parse_amount t ≡ ok n → (n ≤ max_minor) × (format_amount (pos n) ≡ t)
unfolding show
format_amount-parse_amount t n h =
    let r = parse_amount-Read t n h in
    let (plain, ds, short) = whole_ok_iff r.whole r.whole_is in
    let (c, d, two, digits) = fraction_ok_iff r.fraction r.fraction_is in
    let sum = ap (λ f. value (r.whole ++ f)) (sym two) ∙ r.value_is in
    let (c_lo, c_hi, rest) =
      digits-cons c (d ∷ []) (subst (λ f. all is_digit f ≡ true) two digits) in
    let (d_lo, d_hi, _) = digits-cons d [] rest in
    let total : value r.whole * 100 + (c - b'0') * 10 + (d - b'0') ≡ n =
      sym (value-append2 0 r.whole c d) ∙ sum in
    let bound = r.in_range in
    let front : n / 100 ≡ value r.whole = omega arith in
    let tens : n % 100 / 10 + b'0' ≡ c = omega arith in
    let units : n % 100 % 10 + b'0' ≡ d = omega arith in
    let shown = digits_of-value 20 r.whole plain ds (omega arith) (omega arith) in
    (
      bound,
      format_amount-pos n
          ∙ rw (tens, units, front, shown, ← two)
              (sym (split_once-eq-some b'.' t r.whole r.fraction r.split).0),
    )

format_pos : (n : ℕ) → format_amount (pos n) ≡ digits_of 20 (n / 100) ++ b'.' ∷ two_digits (n % 100)
unfolding show format_amount
format_pos n = ground arith

split_format :
    (n : ℕ)
    → split_once b'.' (format_amount (pos n)) ≡ some (digits_of 20 (n / 100), two_digits (n % 100))
split_format n =
    ap (split_once b'.') (format_pos n)
    ∙ split_once-append b'.' (digits_of 20 (n / 100)) (two_digits (n % 100))
        (digits-Without b'.' (digits_of 20 (n / 100)) (digits_of-digits 20 (n / 100)) refl)

-- Two amounts that are shown as the same text are the same.
pub format_amount-injective :
    (n m : ℕ) → n < 10 ^ 20 → m < 10 ^ 20 → format_amount (pos n) ≡ format_amount (pos m) → n ≡ m
format_amount-injective n m hn hm e =
    let whole : digits_of 20 (n / 100) ≡ digits_of 20 (m / 100) =
      ground (arith, split_format n, split_format m) in
    let part : two_digits (n % 100) ≡ two_digits (m % 100) =
      ground (arith, split_format n, split_format m) in
    let same : n / 100 ≡ m / 100 =
      sym (value-digits_of 20 (n / 100) (omega arith) (omega arith))
      ∙ ap value whole
      ∙ value-digits_of 20 (m / 100) (omega arith) (omega arith) in
    ground arith
