-- ===== src/Documents/Names/Tidy.antt =====
-- The shape of a name that `sanitize` has been over: words of visible characters with one space between.
use meow_ny.Common.{
  ℕ, suc, zero, ◌⊎◌, ◌≡◌, refl, ap, ◌∙◌, Bool, true, false, not, ◌&&◌, ◌||◌, [], ◌∷◌, ◌++◌, arith,
  ◌≤◌, length, take, any, ◌==◌, if◌then◌else◌, Bool-cases, inl, inr,
}
use meow_ny.Common.Text.{Text, is_empty}
use meow_ny.Fields.{is_whitespace}
use meow_ny.Documents.Names.{is_hidden, tidied, drop_end}

unfoldable pub is_visible : ℕ → Bool
is_visible c = not (is_whitespace c) && not (is_hidden c)

-- What may stand after a visible character (`after`), or must begin with one.
unfoldable pub is_tidy : Bool → Text → Bool
is_tidy after [] = after
is_tidy after (c ∷ s) = (is_visible c || (after && (c == b' '))) && is_tidy (not (c == b' ')) s

pub visible-not_space : (c : ℕ) → is_visible c ≡ true → (c == b' ') ≡ false
unfolding is_visible
visible-not_space c h = ground arith

visible-eq : (c : ℕ) → is_whitespace c ≡ false → is_hidden c ≡ false → is_visible c ≡ true
unfolding is_visible
visible-eq c h k = rw (h, k) refl

not_visible : is_visible b' ' ≡ false
unfolding is_visible
not_visible = refl

pub visible-white : (c : ℕ) → is_visible c ≡ true → is_whitespace c ≡ false
unfolding is_visible
visible-white c h = ground arith

visible-hidden : (c : ℕ) → is_visible c ≡ true → is_hidden c ≡ false
unfolding is_visible
visible-hidden c h = ground arith

-- One round of the loop.
pub tidied-white :
    (begun space : Bool) (c : ℕ) (s : Text)
    → is_whitespace c ≡ true
    → tidied begun space (c ∷ s) ≡ tidied begun begun s
unfolding tidied
tidied-white begun space c s h = ground (arith, h)

pub tidied-hidden :
    (begun space : Bool) (c : ℕ) (s : Text)
    → is_whitespace c ≡ false
    → is_hidden c ≡ true
    → tidied begun space (c ∷ s) ≡ tidied begun space s
unfolding tidied
tidied-hidden begun space c s h k = ground (arith, h, k)

pub tidied-shown :
    (begun space : Bool) (c : ℕ) (s : Text)
    → is_visible c ≡ true
    → tidied begun space (c ∷ s)
      ≡ (if space then b' ' ∷ c ∷ tidied true false s else c ∷ tidied true false s)
unfolding tidied
tidied-shown begun space c s v = ground (arith, visible-white c v, visible-hidden c v)

pub Visible-cases :
    (c : ℕ)
    → (is_whitespace c ≡ true)
      ⊎ ((is_whitespace c ≡ false) × (is_hidden c ≡ true))
      ⊎ (is_visible c ≡ true)
Visible-cases c = elim (Bool-cases (is_whitespace c)) [
  | inl white ↦ inl white
  | inr black ↦ elim (Bool-cases (is_hidden c)) [
    | inl hidden ↦ inr (inl (black, hidden))
    | inr shown ↦ inr (inr (visible-eq c black shown))
  ]
]

pub is_tidy-cons :
    (after : Bool) (c : ℕ) (s : Text) → is_visible c ≡ true → is_tidy after (c ∷ s) ≡ is_tidy true s
unfolding is_tidy
is_tidy-cons after c s v = rw (v, visible-not_space c v) refl

is_tidy-space : (s : Text) → is_tidy true (b' ' ∷ s) ≡ is_tidy false s
unfolding is_tidy
is_tidy-space s = rw not_visible refl

is_tidy-shown :
    (space : Bool) (c : ℕ) (rest : Text)
    → is_visible c ≡ true
    → is_tidy true rest ≡ true
    → is_tidy true (if space then b' ' ∷ c ∷ rest else c ∷ rest) ≡ true
is_tidy-shown true c rest v h = is_tidy-space (c ∷ rest) ∙ is_tidy-cons false c rest v ∙ h
is_tidy-shown false c rest v h = is_tidy-cons true c rest v ∙ h

tidied-true : (space : Bool) (s : Text) → is_tidy true (tidied true space s) ≡ true
unfolding tidied is_tidy
tidied-true space [] = refl
tidied-true space (c ∷ s) = elim (Visible-cases c) [
  | inl white ↦ rw (tidied-white true space c s white) (tidied-true true s)
  | inr (inl (black, hidden)) ↦ rw (tidied-hidden true space c s black hidden) (tidied-true space s)
  | inr (inr v) ↦
      rw (tidied-shown true space c s v)
        (is_tidy-shown space c (tidied true false s) v (tidied-true false s))
]

-- Nothing, or a text that ends with a visible character.
abbrev pub is_cut : Bool → Text → Bool
is_cut after s = is_empty s || is_tidy after s

-- A name as `sanitize` leaves it.
abbrev pub is_tidy_name : Text → Bool
is_tidy_name = is_cut false

pub tidied-tidy : (s : Text) → is_tidy_name (tidied false false s) ≡ true
unfolding tidied
tidied-tidy [] = refl
tidied-tidy (c ∷ s) = elim (Visible-cases c) [
  | inl white ↦ rw (tidied-white false false c s white) (tidied-tidy s)
  | inr (inl (black, hidden)) ↦ rw (tidied-hidden false false c s black hidden) (tidied-tidy s)
  | inr (inr v) ↦
      rw (tidied-shown false false c s v)
        (is_tidy-cons false c (tidied true false s) v ∙ tidied-true false s)
]

-- A tidy name begins with a visible character, or with a space if it follows one.
is_tidy-inv :
    (after : Bool) (c : ℕ) (s : Text)
    → is_tidy after (c ∷ s) ≡ true
    → ((is_visible c ≡ true) × (is_tidy true s ≡ true))
      ⊎ ((after ≡ true) × (c ≡ b' ') × (is_tidy false s ≡ true))
unfolding is_tidy
is_tidy-inv after c s h = elim (Bool-cases (is_visible c)) [
  | inl v ↦ inl (v, ground (arith, visible-not_space c v))
  | inr n ↦ inr (ground arith, ground arith, ground arith)
]

pub is_tidy-first :
    (c : ℕ) (s : Text)
    → is_tidy false (c ∷ s) ≡ true
    → (is_visible c ≡ true) × (is_tidy true s ≡ true)
is_tidy-first c s h = elim (is_tidy-inv false c s h) [
  | inl both ↦ both
  | inr (never, _, _) ↦ absurd (cc)
]

-- On a tidy name the loop does nothing.
tidied_kept-true : (s : Text) → is_tidy true s ≡ true → tidied true false s ≡ s
unfolding tidied is_tidy
tidied_kept-true [] h = refl
tidied_kept-true (c ∷ []) h = elim (is_tidy-inv true c [] h) [
  | inl (v, _) ↦ tidied-shown true false c [] v
  | inr (_, _, never) ↦ absurd (cc)
]
tidied_kept-true (c ∷ d ∷ s) h = elim (is_tidy-inv true c (d ∷ s) h) [
  | inl (v, t) ↦ tidied-shown true false c (d ∷ s) v ∙ ap (λ r. c ∷ r) (tidied_kept-true (d ∷ s) t)
  | inr (_, space, t) ↦
      let (v, rest) = is_tidy-first d s t in
      let white : is_whitespace c ≡ true = rw space refl in
      tidied-white true false c (d ∷ s) white
      ∙ tidied-shown true true d s v
      ∙ rw (space, tidied_kept-true s rest) refl
]

pub tidied_kept : (s : Text) → is_tidy_name s ≡ true → tidied false false s ≡ s
unfolding tidied
tidied_kept [] h = refl
tidied_kept (c ∷ s) h =
    let (v, rest) = is_tidy-first c s h in
    tidied-shown false false c s v ∙ ap (λ r. c ∷ r) (tidied_kept-true s rest)

-- The beginning of a tidy name, which may end in a space.
unfoldable pub is_front : Bool → Text → Bool
is_front after [] = true
is_front after (c ∷ s) = (is_visible c || (after && (c == b' '))) && is_front (not (c == b' ')) s

pub front-append :
    (after : Bool) (a z : Text) → is_tidy after (a ++ z) ≡ true → is_front after a ≡ true
unfolding is_front is_tidy
front-append after [] z h = refl
front-append after (c ∷ a) z h = ground (arith, front-append (not (c == b' ')) a z)

pub front-tidy : (after : Bool) (s : Text) → is_tidy after s ≡ true → is_front after s ≡ true
unfolding is_front is_tidy
front-tidy after [] h = refl
front-tidy after (c ∷ s) h = ground (arith, front-tidy (not (c == b' ')) s)

cut_step :
    (after : Bool) (c : ℕ) (rest : Text)
    → (is_visible c || (after && (c == b' '))) ≡ true
    → (is_empty rest || is_tidy (not (c == b' ')) rest) ≡ true
    → is_cut after (if is_empty rest && is_whitespace c then [] else c ∷ rest) ≡ true
unfolding is_tidy
cut_step after c [] h k = elim (Bool-cases (is_visible c)) [
  | inl v ↦ rw (visible-white c v, v, visible-not_space c v) refl
  | inr n ↦ let space : c ≡ b' ' = ground arith in rw space refl
]
cut_step after c (d ∷ rest) h k = ground arith

-- Cut short, and without the spaces at its end, it is tidy again.
pub cut-tidy :
    (n : ℕ) (after : Bool) (s : Text)
    → is_front after s ≡ true
    → is_cut after (drop_end is_whitespace (take n s)) ≡ true
unfolding is_front drop_end
cut-tidy zero after s h = refl
cut-tidy (suc n) after [] h = refl
cut-tidy (suc n) after (c ∷ s) h =
    cut_step after c (drop_end is_whitespace (take n s)) (ground arith)
      (cut-tidy n (not (c == b' ')) s (ground arith))

-- Two tidy parts without a space between.
pub is_tidy-append :
    (after : Bool) (a z : Text)
    → is_tidy after a ≡ true
    → is_tidy true z ≡ true
    → is_tidy after (a ++ z) ≡ true
unfolding is_tidy
is_tidy-append after [] z h k = rw h k
is_tidy-append after (c ∷ a) z h k = ground (arith, is_tidy-append (not (c == b' ')) a z)

-- What stands behind a visible character.
pub is_tidy-behind :
    (after : Bool) (a : Text) (d : ℕ) (z : Text)
    → is_visible d ≡ true
    → is_tidy after (a ++ d ∷ z) ≡ true
    → is_tidy true z ≡ true
unfolding is_tidy
is_tidy-behind after [] d z v h = ground (arith, visible-not_space d v)
is_tidy-behind after (c ∷ a) d z v h = is_tidy-behind (not (c == b' ')) a d z v (ground arith)

pub drop_end-cons :
    (c : ℕ) (s : Text)
    → is_whitespace c ≡ false
    → drop_end is_whitespace (c ∷ s) ≡ c ∷ drop_end is_whitespace s
unfolding drop_end
drop_end-cons c s h = ground (arith, h)

pub length-drop_end : (p : ℕ → Bool) (s : Text) → length (drop_end p s) ≤ length s
unfolding drop_end
length-drop_end p [] = omega arith
length-drop_end p (c ∷ s) = ground (arith, length-drop_end p s)

pub length-take : (n : ℕ) (s : Text) → length (take n s) ≤ n
length-take zero s = omega arith
length-take (suc n) [] = omega arith
length-take (suc n) (c ∷ s) = omega (arith, length-take n s)

-- Characters that a name does not have are not in what is left of it.
pub any-take : (p : ℕ → Bool) (n : ℕ) (s : Text) → any p s ≡ false → any p (take n s) ≡ false
any-take p zero s h = refl
any-take p (suc n) [] h = refl
any-take p (suc n) (c ∷ s) h = ground (arith, any-take p n s)

pub any-drop_end : (p q : ℕ → Bool) (s : Text) → any p s ≡ false → any p (drop_end q s) ≡ false
unfolding drop_end
any-drop_end p q [] h = refl
any-drop_end p q (c ∷ s) h = ground (arith, any-drop_end p q s)

pub any-append : (p : ℕ → Bool) (a z : Text) → any p (a ++ z) ≡ (any p a || any p z)
any-append p [] z = refl
any-append p (c ∷ a) z = ground (arith, any-append p a z)

pub any-tidied :
    (p : ℕ → Bool) (begun space : Bool) (s : Text)
    → p b' ' ≡ false
    → any p s ≡ false
    → any p (tidied begun space s) ≡ false
unfolding tidied
any-tidied p begun space [] n h = refl
any-tidied p begun space (c ∷ s) n h = elim (Visible-cases c) [
  | inl white ↦
      rw (tidied-white begun space c s white) (any-tidied p begun begun s n (ground arith))
  | inr (inl (black, hidden)) ↦
      rw (tidied-hidden begun space c s black hidden) (any-tidied p begun space s n (ground arith))
  | inr (inr v) ↦ rw (tidied-shown begun space c s v) (ground (arith, any-tidied p true false s n))
]
