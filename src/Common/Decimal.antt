-- ===== src/Common/Decimal.antt =====
-- Decimal numerals: `{}` of an unsigned number and `parse` of a text of digits, both of the standard
-- library. A `u64` has at most 20 digits, so `show` makes at most that many.
use native.Mathlib.Nat.{pow-suc, zero-add}
use mathlib.Core.List.{append-nil, append_assoc}
use meow_ny.Common.{
  ℕ, zero, suc, ◌+◌, ◌-◌, ◌*◌, ◌/◌, ◌%◌, ◌^◌, ◌≤◌, ◌<◌, ◌≡◌, refl, ap, ◌∙◌, sym, inl, inr, true,
  false, [], ◌∷◌, ◌++◌, arith, ltb, if◌then◌else◌, length, all, length-append, all-append,
  Bool-cases,
}
use meow_ny.Common.Text.{Text, is_digit}

-- The digits of a number, `fuel` of them at most.
unfoldable pub digits_of : ℕ → ℕ → Text
digits_of zero n = []
digits_of (suc fuel) n =
    let rest = digits_of fuel (n / 10) in
    if ltb n 10 then (n + b'0') ∷ [] else rest ++ ((n % 10 + b'0') ∷ [])

unfoldable pub show : ℕ → Text
unfolding digits_of
show = digits_of 20

-- The number that a text of digits is read as, after the digits that made `acc`.
abbrev pub value_from : ℕ → Text → ℕ
value_from acc [] = acc
value_from acc (c ∷ s) = value_from (acc * 10 + (c - b'0')) s

abbrev pub value : Text → ℕ
value = value_from 0

-- No zero in front, unless it is the whole numeral.
abbrev pub IsPlain : Text → Type 0
IsPlain [] = ⊥
IsPlain (c ∷ []) = Unit
IsPlain (c ∷ d ∷ s) = b'0' < c

digits_of_more : (f n : ℕ) → 0 < f → n < 10 ^ f → digits_of (suc f) n ≡ digits_of f n
unfolding digits_of
digits_of_more zero n p h = absurd (omega arith)
digits_of_more (suc zero) n p h = ground arith
digits_of_more (suc (suc f)) n p h =
    let smaller : n / 10 < 10 ^ suc f = omega (arith, pow-suc 10 (suc f)) in
    rw (digits_of_more (suc f) (n / 10) (omega arith) smaller) refl

-- A digit more is put at the end.
pub digits_of-snoc :
    (f n d : ℕ)
    → 0 < n
    → d < 10
    → n * 10 + d < 10 ^ f
    → digits_of f (n * 10 + d) ≡ digits_of f n ++ ((d + b'0') ∷ [])
unfolding digits_of
digits_of-snoc zero n d p h lt = absurd (omega arith)
digits_of-snoc (suc zero) n d p h lt = absurd (omega arith)
digits_of-snoc (suc (suc f)) n d p h lt =
    let smaller : n < 10 ^ suc f = omega (arith, pow-suc 10 (suc f)) in
    let front : (n * 10 + d) / 10 ≡ n = omega arith in
    let back : (n * 10 + d) % 10 ≡ d = omega arith in
    let long : ltb (n * 10 + d) 10 ≡ false = ground arith in
    rw (long, front, back, digits_of_more (suc f) n (omega arith) smaller) refl

value-snoc :
    (acc : ℕ) (s : Text) (c : ℕ)
    → value_from acc (s ++ (c ∷ [])) ≡ value_from acc s * 10 + (c - b'0')
value-snoc acc [] c = refl
value-snoc acc (x ∷ s) c = value-snoc (acc * 10 + (x - b'0')) s c

pub value-digits_of : (f n : ℕ) → 0 < f → n < 10 ^ f → value (digits_of f n) ≡ n
unfolding digits_of
value-digits_of zero n p h = absurd (omega arith)
value-digits_of (suc zero) n p h = ground arith
value-digits_of (suc (suc f)) n p h =
    let smaller : n / 10 < 10 ^ suc f = omega (arith, pow-suc 10 (suc f)) in
    elim (Bool-cases (ltb n 10)) [
      | inl short ↦ rw short (omega arith)
      | inr long ↦
          rw (long, value-snoc 0 (digits_of (suc f) (n / 10)) (n % 10 + b'0'))
            (omega (arith, value-digits_of (suc f) (n / 10) (omega arith) smaller))
    ]

pub digits_of-digits : (f n : ℕ) → all is_digit (digits_of f n) ≡ true
unfolding digits_of
digits_of-digits zero n = refl
digits_of-digits (suc f) n = elim (Bool-cases (ltb n 10)) [
  | inl short ↦ rw short (ground arith)
  | inr long ↦ rw long (
      all-append is_digit (digits_of f (n / 10)) ((n % 10 + b'0') ∷ [])
        (digits_of-digits f (n / 10)) (ground arith))
]

pub length-digits_of : (f k n : ℕ) → 0 < k → n < 10 ^ k → length (digits_of f n) ≤ k
unfolding digits_of
length-digits_of zero k n p h = omega arith
length-digits_of (suc f) zero n p h = absurd (omega arith)
length-digits_of (suc f) (suc zero) n p h = ground arith
length-digits_of (suc f) (suc (suc k)) n p h =
    let smaller : n / 10 < 10 ^ suc k = omega (arith, pow-suc 10 (suc k)) in
    elim (Bool-cases (ltb n 10)) [
      | inl short ↦ rw short (omega arith)
      | inr long ↦
          rw (long, length-append (digits_of f (n / 10)) ((n % 10 + b'0') ∷ []))
            (omega (arith, length-digits_of f (suc k) (n / 10) (omega arith) smaller))
    ]

-- A text that begins with something above the digit 0.
abbrev Leads : Text → Type 0
Leads [] = ⊥
Leads (c ∷ s) = b'0' < c

Leads-append : (s t : Text) → Leads s → Leads (s ++ t)
Leads-append [] t h = absurd h
Leads-append (c ∷ s) t h = h

Leads-IsPlain : (s : Text) → Leads s → IsPlain s
Leads-IsPlain [] h = h
Leads-IsPlain (c ∷ []) h = tt
Leads-IsPlain (c ∷ d ∷ s) h = h

digits_of-Leads : (f n : ℕ) → 0 < n → n < 10 ^ f → Leads (digits_of f n)
unfolding digits_of
digits_of-Leads zero n p h = absurd (omega arith)
digits_of-Leads (suc f) n p h = elim (Bool-cases (ltb n 10)) [
  | inl short ↦ rw short (omega arith)
  | inr long ↦
      rw long
        (Leads-append _ _ (digits_of-Leads f (n / 10) (ground arith) (omega (arith, pow-suc 10 f))))
]

pub digits_of-IsPlain : (f n : ℕ) → 0 < f → n < 10 ^ f → IsPlain (digits_of f n)
unfolding digits_of
digits_of-IsPlain zero n p h = absurd (omega arith)
digits_of-IsPlain (suc f) zero p h = tt
digits_of-IsPlain (suc f) (suc n) p h =
    Leads-IsPlain (digits_of (suc f) (suc n)) (digits_of-Leads (suc f) (suc n) (omega arith) h)

le-value_from : (acc : ℕ) (s : Text) → acc ≤ value_from acc s
le-value_from acc [] = omega arith
le-value_from acc (c ∷ s) = omega (arith, le-value_from (acc * 10 + (c - b'0')) s)

pub digits-cons :
    (c : ℕ) (s : Text)
    → all is_digit (c ∷ s) ≡ true
    → (b'0' ≤ c) × (c < 58) × (all is_digit s ≡ true)
digits-cons c s h = ground arith

digits_of-value_from :
    (f acc : ℕ) (s : Text)
    → 0 < acc
    → all is_digit s ≡ true
    → value_from acc s < 10 ^ f
    → digits_of f (value_from acc s) ≡ digits_of f acc ++ s
digits_of-value_from f acc [] p ds h = sym (append-nil (digits_of f acc))
digits_of-value_from f acc (c ∷ s) p ds h =
    let (lo, hi, rest) = digits-cons c s ds in
    let bound = le-value_from (acc * 10 + (c - b'0')) s in
    let back : c - b'0' + b'0' ≡ c = omega arith in
    let step = digits_of-snoc f acc (c - b'0') p (omega arith) (omega arith) in
    digits_of-value_from f (acc * 10 + (c - b'0')) s (omega arith) rest h
    ∙ rw (step, back) (append_assoc (digits_of f acc) (c ∷ []) s)

digits_of_digit : (f c : ℕ) → b'0' ≤ c → c < 58 → 0 < f → digits_of f (c - b'0') ≡ c ∷ []
unfolding digits_of
digits_of_digit zero c lo hi p = absurd (omega arith)
digits_of_digit (suc f) c lo hi p =
    let back : c - b'0' + b'0' ≡ c = omega arith in
    let short : ltb (c - b'0') 10 ≡ true = ground arith in rw (short, back)

-- A plain numeral is what its value is shown as.
pub digits_of-value :
    (f : ℕ) (s : Text)
    → IsPlain s
    → all is_digit s ≡ true
    → value s < 10 ^ f
    → 0 < f
    → digits_of f (value s) ≡ s
digits_of-value f [] pl ds h p = absurd pl
digits_of-value f (c ∷ []) pl ds h p =
    let (lo, hi, rest) = digits-cons c [] ds in rw zero-add (digits_of_digit f c lo hi p)
digits_of-value f (c ∷ e ∷ s) pl ds h p =
    let (lo, hi, rest) = digits-cons c (e ∷ s) ds in
    let start : 0 + (c - b'0') ≡ c - b'0' = omega arith in
    let bound : value_from (c - b'0') (e ∷ s) < 10 ^ f = rw start at h in
    ap (λ n. digits_of f (value_from n (e ∷ s))) start
    ∙ digits_of-value_from f (c - b'0') (e ∷ s) (omega arith) rest bound
    ∙ ap (λ t. t ++ e ∷ s) (digits_of_digit f c lo hi p)
