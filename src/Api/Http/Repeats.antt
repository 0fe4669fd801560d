-- ===== src/Api/Http/Repeats.antt =====
-- The headers that may stand once: `SINGLE` of src-tauri/src/api/http.rs.
use meow_ny.Common.{
  ◌≤◌, ◌≡◌, refl, subst, true, false, ◌&&◌, List, [], ◌∷◌, arith, any, Bool-cases, inl, inr, All,
}
use meow_ny.Common.Text.{Text, text_eq, text_eq_iff, text_eq_refl}
use meow_ny.Sync.{codes}
use meow_ny.Api.Http.{Header, has_name, single, is_single}
use meow_ny.Api.Http.Guards.{NoRepeat}
use meow_ny.Api.Http.Form.{times, OnceAtMost}

pub has_name-times : (name : Text) (hs : List Header) → has_name name hs ≡ false → times name hs ≡ 0
has_name-times name [] h = refl
has_name-times name ((n, v) ∷ hs) h = ground (arith, has_name-times name hs)

pub times-has_name : (name : Text) (hs : List Header) → times name hs ≡ 0 → has_name name hs ≡ false
times-has_name name [] h = refl
times-has_name name ((n, v) ∷ hs) h = ground (arith, times-has_name name hs)

once-times :
    (name : Text) (hs : List Header) → is_single name ≡ true → NoRepeat hs → times name hs ≤ 1
once-times name [] h once = omega arith
once-times name ((n, v) ∷ hs) h once = elim (Bool-cases (text_eq n name)) [
  | inr other ↦ rw other (once-times name hs h once.1)
  | inl same ↦
      let e : n ≡ name = (text_eq_iff n name).0 same in
      let alone : has_name name hs ≡ false =
        ground (arith, subst (λ m. (is_single m && has_name m hs) ≡ false) e once.0, h) in
      rw (same, has_name-times name hs alone) (omega arith)
]

pub NoRepeat-OnceAtMost : (hs : List Header) → NoRepeat hs → OnceAtMost hs
unfolding is_single
NoRepeat-OnceAtMost hs once = (
  once-times (codes "host") hs refl once,
  once-times (codes "content-length") hs refl once,
  once-times (codes "authorization") hs refl once,
  once-times (codes "origin") hs refl once,
  once-times (codes "expect") hs refl once,
)

abbrev OneAtMost : List Header → Text → Type 0
OneAtMost hs name = times name hs ≤ 1

few_of :
    (hs : List Header) (names : List Text) (name : Text)
    → All (OneAtMost hs) names
    → any (λ n. text_eq n name) names ≡ true
    → times name hs ≤ 1
few_of hs [] name few h = absurd (cc)
few_of hs (n ∷ names) name few h = elim (Bool-cases (text_eq n name)) [
  | inl same ↦ subst (OneAtMost hs) ((text_eq_iff n name).0 same) few.0
  | inr other ↦ few_of hs names name few.1 (ground (arith, h, other))
]

few_tail :
    (h : Header) (hs : List Header) (names : List Text)
    → All (OneAtMost (h ∷ hs)) names
    → All (OneAtMost hs) names
few_tail h hs [] few = tt
few_tail (n, v) hs (name ∷ names) few = (ground (arith, few.0), few_tail (n, v) hs names few.1)

single_listed : (name : Text) → is_single name ≡ true → any (λ n. text_eq n name) single ≡ true
unfolding is_single
single_listed name h = h

few-NoRepeat : (hs : List Header) → All (OneAtMost hs) single → NoRepeat hs
few-NoRepeat [] few = tt
few-NoRepeat ((n, v) ∷ hs) few = (
  elim (Bool-cases (is_single n)) [
    | inr other ↦ rw other refl
    | inl one ↦
        let most = few_of ((n, v) ∷ hs) single n few (single_listed n one) in
        let none_left : times n hs ≡ 0 = ground (arith, most, text_eq_refl n) in
        rw (one, times-has_name n hs none_left) refl
  ],
  few-NoRepeat hs (few_tail (n, v) hs single few),
)

pub OnceAtMost-NoRepeat : (hs : List Header) → OnceAtMost hs → NoRepeat hs
OnceAtMost-NoRepeat hs (a, b, c, d, e) = few-NoRepeat hs (a, (b, (c, (d, (e, tt)))))
