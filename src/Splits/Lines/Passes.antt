-- ===== src/Splits/Lines/Passes.antt =====
-- The first two loops of `write_lines`: on parts with distinct ids they make the same table as one
-- walk over the parts, and the database refuses none of their statements.
use mathlib.Core.List.{append_assoc}
use meow_ny.Common.{
  ℕ, ◌+◌, ◌≤◌, ◌≡◌, ◌≢◌, refl, sym, none, some, List, [], ◌∷◌, ◌++◌, min, arith, ltb, if◌then◌else◌,
  All, All-append, inl, inr, Bool-cases, Option-cases,
}
use meow_ny.Common.Error.{ok}
use meow_ny.Money.{max_minor}
use meow_ny.Store.{Who, Line}
use meow_ny.Store.Table.{update, delete}
use meow_ny.Splits.Lines.{
  Bill, line_id, lines_sum, delete_line, update_line, wanted, shrink_lines, grow_lines,
}

-- The parts after the first loop, after the second, and what the first puts off.
pub shrunk : List (Who × ℕ) → List Line → List Line
shrunk new [] = []
shrunk new (l ∷ ls) = elim (wanted new l.who) [
  | none ↦ shrunk new ls
  | some t ↦ record l { amount = min l.amount t } ∷ shrunk new ls
]

unfoldable pub settled : List (Who × ℕ) → List Line → List Line
settled new [] = []
settled new (l ∷ ls) = elim (wanted new l.who) [
  | none ↦ settled new ls
  | some t ↦ record l { amount = t } ∷ settled new ls
]

pub put_off : List (Who × ℕ) → List Line → List (ℕ × ℕ)
put_off new [] = []
put_off new (l ∷ ls) = elim (wanted new l.who) [
  | none ↦ put_off new ls
  | some t ↦ if ltb l.amount t then (l.id, t) ∷ put_off new ls else put_off new ls
]

-- No part has the id.
abbrev pub Clear : ℕ → List Line → Type 0
Clear i = All (λ x. x.id ≢ i)

abbrev pub DistinctIds : List Line → Type 0
DistinctIds [] = Unit
DistinctIds (l ∷ ls) = Clear l.id ls × DistinctIds ls

abbrev pub Apart : List Line → List Line → Type 0
Apart pre = All (λ l. Clear l.id pre)

Apart-snoc :
    (pre ls : List Line) (l : Line) → Apart pre ls → Clear l.id ls → Apart (pre ++ l ∷ []) ls
Apart-snoc pre [] l h c = tt
Apart-snoc pre (x ∷ ls) l h c = (
  All-append (λ y. y.id ≢ x.id) pre (l ∷ []) h.0 ((λ e. c.0 (sym e)), tt),
  Apart-snoc pre ls l h.1 c.1,
)

pub lines_sum-append : (xs ys : List Line) → lines_sum (xs ++ ys) ≡ lines_sum xs + lines_sum ys
lines_sum-append [] ys = omega arith
lines_sum-append (x ∷ xs) ys = omega (arith, lines_sum-append xs ys)

delete_line-middle :
    (pre ls : List Line) (l : Line) → Clear l.id pre → delete_line l.id (pre ++ l ∷ ls) ≡ pre ++ ls
unfolding delete
delete_line-middle [] ls l h = ground arith
delete_line-middle (x ∷ pre) ls l h = ground (arith, delete_line-middle pre ls l h.1)

update-middle :
    (pre ls : List Line) (l : Line) (f : Line → Line)
    → Clear l.id pre
    → update line_id l.id f (pre ++ l ∷ ls) ≡ pre ++ f l ∷ ls
unfolding update
update-middle [] ls l f h = ground arith
update-middle (x ∷ pre) ls l f h = ground (arith, update-middle pre ls l f h.1)

update_line-middle :
    (bill : Bill) (t : ℕ) (pre ls : List Line) (l : Line)
    → Clear l.id pre
    → 1 ≤ t
    → t ≤ max_minor
    → lines_sum pre + lines_sum ls + t ≤ bill.amount
    → update_line bill t l.id (pre ++ l ∷ ls) ≡ ok ((pre ++ record l { amount = t } ∷ []) ++ ls)
unfolding update_line
update_line-middle bill t pre ls l c lo hi room =
    rw
      (
        delete_line-middle pre ls l c,
        lines_sum-append pre ls,
        update-middle pre ls l (λ x. record x { amount = t }) c,
        append_assoc pre (record l { amount = t } ∷ []) ls,
      )
      (ground arith)

-- Every amount that is wanted fits its column.
abbrev pub InRange : List (Who × ℕ) → Type 0
InRange = All (λ e. (1 ≤ e.1) × (e.1 ≤ max_minor))

wanted_range :
    (new : List (Who × ℕ)) (w : Who) (t : ℕ)
    → InRange new
    → wanted new w ≡ some t
    → (1 ≤ t) × (t ≤ max_minor)
unfolding wanted
wanted_range [] w t h e = absurd (cc)
wanted_range ((v, a) ∷ new) w t h e = elim (Option-cases (wanted new w)) [
  | inl none_later ↦ ground arith
  | inr (b, later) ↦ wanted_range new w t h.1 (ground arith)
]

module _ (bill : Bill) (new : List (Who × ℕ)) (range : InRange new) where
  pub shrink_lines_lem :
      (pre ls : List Line)
      → Apart pre ls
      → DistinctIds ls
      → lines_sum pre + lines_sum ls ≤ bill.amount
      → shrink_lines bill new ls (pre ++ ls) ≡ ok (pre ++ shrunk new ls, put_off new ls)
  unfolding shrink_lines shrunk put_off
  shrink_lines_lem pre [] a d room = refl
  shrink_lines_lem pre (l ∷ ls) a d room = elim (Option-cases (wanted new l.who)) [
    | inl gone ↦
        ground
          (arith, delete_line-middle pre ls l a.0, shrink_lines_lem pre ls a.1 d.1 (omega arith))
    | inr (t, kept) ↦
        let (lo, hi) = wanted_range new l.who t range kept in
        elim (Bool-cases (ltb t l.amount)) [
          | inl smaller ↦
              let l' : Line = record l { amount = t } in
              let fits : lines_sum pre + lines_sum ls + t ≤ bill.amount = ground arith in
              let least : min l.amount t ≡ t = ground arith in
              let rest =
                shrink_lines_lem (pre ++ l' ∷ []) ls (Apart-snoc pre ls l' a.1 d.0) d.1
                  (rw (lines_sum-append pre (l' ∷ [])) (omega arith)) in
              ground (
                arith,
                update_line-middle bill t pre ls l a.0 lo hi fits,
                rest,
                append_assoc pre (l' ∷ []) (shrunk new ls),
              )
          | inr not_smaller ↦
              let least : min l.amount t ≡ l.amount = ground arith in
              let rest =
                shrink_lines_lem (pre ++ l ∷ []) ls (Apart-snoc pre ls l a.1 d.0) d.1
                  (rw (lines_sum-append pre (l ∷ [])) (omega arith)) in
              ground (
                arith,
                rest,
                append_assoc pre (l ∷ []) ls,
                append_assoc pre (l ∷ []) (shrunk new ls),
              )
        ]
  ]

shrunk-le-settled :
    (new : List (Who × ℕ)) (ls : List Line) → lines_sum (shrunk new ls) ≤ lines_sum (settled new ls)
unfolding shrunk settled
shrunk-le-settled new [] = omega arith
shrunk-le-settled new (l ∷ ls) = elim (Option-cases (wanted new l.who)) [
  | inl gone ↦ ground (arith, shrunk-le-settled new ls)
  | inr (t, kept) ↦
      let least : min l.amount t ≤ t = omega arith in ground (arith, shrunk-le-settled new ls)
]

module _ (bill : Bill) (new : List (Who × ℕ)) (range : InRange new) where
  pub grow_lines_lem :
      (pre ls : List Line)
      → Apart pre ls
      → DistinctIds ls
      → lines_sum pre + lines_sum (settled new ls) ≤ bill.amount
      → grow_lines bill (put_off new ls) (pre ++ shrunk new ls) ≡ ok (pre ++ settled new ls)
  unfolding grow_lines shrunk put_off settled
  grow_lines_lem pre [] a d room = refl
  grow_lines_lem pre (l ∷ ls) a d room = elim (Option-cases (wanted new l.who)) [
    | inl gone ↦ ground (arith, grow_lines_lem pre ls a.1 d.1)
    | inr (t, kept) ↦
        let (lo, hi) = wanted_range new l.who t range kept in
        let l' : Line = record l { amount = t } in
        let after : lines_sum pre + (t + lines_sum (settled new ls)) ≤ bill.amount = ground arith in
        let rest =
          grow_lines_lem (pre ++ l' ∷ []) ls (Apart-snoc pre ls l' a.1 d.0) d.1
            (rw (lines_sum-append pre (l' ∷ [])) (omega arith)) in
        elim (Bool-cases (ltb l.amount t)) [
          | inl larger ↦
              let l1 : Line = record l { amount = min l.amount t } in
              let fits : lines_sum pre + lines_sum (shrunk new ls) + t ≤ bill.amount =
                omega (arith, shrunk-le-settled new ls) in
              ground (
                arith,
                update_line-middle bill t pre (shrunk new ls) l1 a.0 lo hi fits,
                rest,
                append_assoc pre (l' ∷ []) (settled new ls),
              )
          | inr not_larger ↦
              let least : min l.amount t ≡ t = ground arith in
              ground (
                arith,
                rest,
                append_assoc pre (l' ∷ []) (shrunk new ls),
                append_assoc pre (l' ∷ []) (settled new ls),
              )
        ]
  ]
