-- ===== src/Documents/Names/Cut.antt =====
-- A name that `sanitize` has been over is tidy and short.
use meow_ny.Common.{
  ℕ, subst, suc, zero, ◌+◌, ◌-◌, ◌≤◌, ◌≡◌, refl, sym, ◌∙◌, Bool, true, false, ◌||◌, some, [], ◌∷◌,
  ◌++◌, arith, length, take, any, leb, Bool-cases, Option-cases, inl, inr, length-append,
}
use meow_ny.Common.Text.{Text, is_empty}
use meow_ny.Fields.{is_whitespace}
use meow_ny.Documents.Names.{
  is_hidden, tidied, drop_end, split_last, name_max_chars, keeps_extension, cut_stem, cut_at, cut,
  sanitize,
}
use meow_ny.Documents.Names.Tidy.{
  is_visible, is_tidy, is_cut, is_tidy_name, tidied-tidy, tidied_kept, is_tidy-first, is_tidy-cons,
  front-append, front-tidy, cut-tidy, is_tidy-append, is_tidy-behind, drop_end-cons,
  length-drop_end, length-take, any-take, any-drop_end, any-append, visible-white,
}
use meow_ny.Common.Slices.{append_nil}

split_last-eq : (d : ℕ) (s a b : Text) → split_last d s ≡ some (a, b) → s ≡ a ++ d ∷ b
unfolding split_last
split_last-eq d [] a b h = absurd (cc)
split_last-eq d (c ∷ s) a b h = elim (Option-cases (split_last d s)) [
  | inl e ↦
      let same : c ≡ d = ground arith in
      let front : [] ≡ a = ground arith in
      let back : s ≡ b = ground arith in rw (← front, ← back, same) refl
  | inr ((a', b'), e) ↦
      let front : c ∷ a' ≡ a = ground arith in
      let back : b' ≡ b = ground arith in rw (← front, ← back, split_last-eq d s a' b' e) refl
]

dot_visible : is_visible b'.' ≡ true
unfolding is_visible is_hidden
dot_visible = refl

drop_end_full :
    (n c : ℕ) (s : Text)
    → 1 ≤ n
    → is_whitespace c ≡ false
    → is_empty (drop_end is_whitespace (take n (c ∷ s))) ≡ false
drop_end_full zero c s h k = absurd (omega arith)
drop_end_full (suc n) c s h k = rw (drop_end-cons c (take n s) k) refl

-- A cut name is a tidy one of at most 120 characters.
abbrev pub IsShort : Text → Type 0
IsShort s = (is_tidy_name s ≡ true) × (length s ≤ name_max_chars)

or-eq-false : (a b : Bool) → (a || b) ≡ false → (a ≡ false) × (b ≡ false)
or-eq-false true b h = absurd (cc)
or-eq-false false b h = (refl, h)

module _ (is_alphanumeric : ℕ → Bool) where
  whole-Short :
      (name : Text) → is_tidy_name name ≡ true → IsShort (cut_stem is_alphanumeric name [])
  unfolding drop_end
  whole-Short [] tidy = (refl, omega arith)
  whole-Short (c ∷ name) tidy =
      let kept = cut-tidy name_max_chars false (c ∷ name) (front-tidy false (c ∷ name) tidy) in
      let short = length-drop_end is_whitespace (take name_max_chars (c ∷ name)) in
      rw (append_nil (drop_end is_whitespace (take name_max_chars (c ∷ name))))
        (kept, omega (arith, short, length-take name_max_chars (c ∷ name)))

  joined-Short :
      (r after : Text)
      → is_cut false r ≡ true
      → is_empty r ≡ false
      → is_tidy true (b'.' ∷ after) ≡ true
      → length r + length (b'.' ∷ after) ≤ name_max_chars
      → IsShort (r ++ b'.' ∷ after)
  joined-Short [] after kept full behind short = absurd (cc)
  joined-Short (c ∷ r) after kept full behind short = (
    is_tidy-append false (c ∷ r) (b'.' ∷ after) kept behind,
    omega (arith, length-append (c ∷ r) (b'.' ∷ after), short),
  )

  part-Short :
      (c : ℕ) (before after : Text)
      → is_tidy false (c ∷ before ++ b'.' ∷ after) ≡ true
      → length after ≤ 11
      → IsShort (cut_stem is_alphanumeric (c ∷ before) (b'.' ∷ after))
  part-Short c before after tidy short =
      let room = 119 - length after in
      let stem =
        drop_end is_whitespace (take (name_max_chars - length (b'.' ∷ after)) (c ∷ before)) in
      let (v, _) = is_tidy-first c (before ++ b'.' ∷ after) tidy in
      let front = front-append false (c ∷ before) (b'.' ∷ after) tidy in
      let behind = is_tidy-behind false (c ∷ before) b'.' after dot_visible tidy in
      joined-Short stem after
        (cut-tidy (name_max_chars - length (b'.' ∷ after)) false (c ∷ before) front)
        (drop_end_full (name_max_chars - length (b'.' ∷ after)) c before (omega (arith, short))
          (visible-white c v))
        (is_tidy-cons true b'.' after dot_visible ∙ behind)
        (omega (
          arith,
          short,
          length-drop_end is_whitespace
              (take (name_max_chars - length (b'.' ∷ after)) (c ∷ before)),
          length-take (name_max_chars - length (b'.' ∷ after)) (c ∷ before),
        ))

  at-Short :
      (name before after : Text)
      → is_tidy_name name ≡ true
      → name ≡ before ++ b'.' ∷ after
      → IsShort (cut_at is_alphanumeric name (some (before, after)))
  at-Short name [] after tidy whole = whole-Short name tidy
  at-Short name (c ∷ before) after tidy whole =
      elim (Bool-cases (keeps_extension is_alphanumeric (c ∷ before) after)) [
        | inr bare ↦ rw bare (whole-Short name tidy)
        | inl keeps ↦
            let tidy' : is_tidy false (c ∷ before ++ b'.' ∷ after) ≡ true =
              subst (λ n. is_tidy_name n ≡ true) whole tidy in
            rw keeps (part-Short c before after tidy' (ground arith))
      ]

  cut-Short : (name : Text) → is_tidy_name name ≡ true → IsShort (cut is_alphanumeric name)
  unfolding cut
  cut-Short name tidy = elim (Bool-cases (leb (length name) name_max_chars)) [
    | inl short ↦ rw short (tidy, ground arith)
    | inr long ↦ elim (Option-cases (split_last b'.' name)) [
      | inl e ↦ rw (long, e) (whole-Short name tidy)
      | inr ((before, after), e) ↦
          rw (long, e) (at-Short name before after tidy (split_last-eq b'.' name before after e))
    ]
  ]

  cut_kept : (name : Text) → length name ≤ name_max_chars → cut is_alphanumeric name ≡ name
  unfolding cut
  cut_kept name short = ground arith

  any-whole :
      (p : ℕ → Bool) (name : Text)
      → any p name ≡ false
      → any p (cut_stem is_alphanumeric name []) ≡ false
  any-whole p name h =
      rw (append_nil (drop_end is_whitespace (take name_max_chars name)))
        (any-drop_end p is_whitespace (take name_max_chars name) (any-take p name_max_chars name h))

  any-part :
      (p : ℕ → Bool) (n : ℕ) (before after : Text)
      → any p (before ++ b'.' ∷ after) ≡ false
      → any p (drop_end is_whitespace (take n before) ++ b'.' ∷ after) ≡ false
  any-part p n before after h =
      let (front, back) =
        or-eq-false (any p before) (any p (b'.' ∷ after))
          (sym (any-append p before (b'.' ∷ after)) ∙ h) in
      any-append p (drop_end is_whitespace (take n before)) (b'.' ∷ after)
      ∙ rw (any-drop_end p is_whitespace (take n before) (any-take p n before front)) back

  pub any-cut :
      (p : ℕ → Bool) (name : Text) → any p name ≡ false → any p (cut is_alphanumeric name) ≡ false
  unfolding cut
  any-cut p name h = elim (Bool-cases (leb (length name) name_max_chars)) [
    | inl short ↦ rw short h
    | inr long ↦ elim (Option-cases (split_last b'.' name)) [
      | inl e ↦ rw (long, e) (any-whole p name h)
      | inr ((before, after), e) ↦
          elim (Bool-cases (keeps_extension is_alphanumeric before after)) [
            | inr bare ↦ rw (long, e, bare) (any-whole p name h)
            | inl keeps ↦
                rw (long, e, keeps)
                  (any-part p (name_max_chars - length (b'.' ∷ after)) before after
                    (subst (λ n. any p n ≡ false) (split_last-eq b'.' name before after e) h))
          ]
    ]
  ]

  pub sanitize-Short : (raw : Text) → IsShort (sanitize is_alphanumeric raw)
  unfolding sanitize
  sanitize-Short raw = cut-Short (tidied false false raw) (tidied-tidy raw)

  pub sanitize_kept : (name : Text) → IsShort name → sanitize is_alphanumeric name ≡ name
  unfolding sanitize
  sanitize_kept name (tidy, short) = rw (tidied_kept name tidy) (cut_kept name short)
