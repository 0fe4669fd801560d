-- ===== src/Splits/Lines/Exact.antt =====
-- `write_lines` makes the parts of a bill exactly the ones that are wanted.
use meow_ny.Common.{
  ℕ, ◌+◌, ◌≤◌, ◌≡◌, refl, ◌∙◌, sym, false, Option, none, some, List, [], ◌∷◌, ◌++◌, arith,
  if◌then◌else◌, length, inl, inr, Bool-cases, Option-cases,
}
use meow_ny.Common.Error.{ok}
use meow_ny.Store.{Who, who_eq, Line}
use meow_ny.Store.Table.{fresh}
use meow_ny.Splits.Lines.{Bill, line_id, lines_sum, wanted, is_present, write_lines}
use meow_ny.Splits.Lines.Passes.{
  settled, DistinctIds, InRange, shrink_lines_lem, grow_lines_lem, Apart,
}
use meow_ny.Splits.Lines.Counting.{
  DistinctWho, DistinctLines, absent, wanted-Alone, wanted-eq, is_present-eq, measure,
  lines_measure, settled-absent,
}
use meow_ny.Splits.Lines.Added.{add_all, add_absent, absent-DistinctWho}

-- The part of a person in a table.
unfoldable pub part_of : List Line → Who → Option ℕ
part_of [] w = none
part_of (l ∷ ls) w = if who_eq l.who w then some l.amount else part_of ls w

part_of-snoc :
    (ls : List Line) (l : Line) (w : Who)
    → part_of (ls ++ l ∷ []) w ≡ elim (part_of ls w) [
      | some a ↦ some a
      | none ↦ if who_eq l.who w then some l.amount else none
    ]
unfolding part_of
part_of-snoc [] l w = refl
part_of-snoc (x ∷ ls) l w = ground (arith, part_of-snoc ls l w)

part_of-add_all-some :
    (m : List (Who × ℕ)) (ls : List Line) (w : Who) (a : ℕ)
    → part_of ls w ≡ some a
    → part_of (add_all m ls) w ≡ some a
part_of-add_all-some [] ls w a e = e
part_of-add_all-some ((v, c) ∷ m) ls w a e =
    part_of-add_all-some m _ w a (part_of-snoc ls _ w ∙ rw e refl)

part_of-add_all-none :
    (m : List (Who × ℕ)) (ls : List Line) (w : Who)
    → DistinctWho m
    → part_of ls w ≡ none
    → part_of (add_all m ls) w ≡ wanted m w
unfolding wanted
part_of-add_all-none [] ls w d e = e
part_of-add_all-none ((v, c) ∷ m) ls w d e =
    let l : Line = record { id = fresh line_id ls; who = v; amount = c } in
    let step = part_of-snoc ls l w in
    elim (Bool-cases (who_eq v w)) [
      | inl same ↦
          let gone : wanted m w ≡ none = sym (wanted-eq v w m same) ∙ wanted-Alone v m d.0 in
          part_of-add_all-some m (ls ++ l ∷ []) w c (ground (arith, step)) ∙ ground arith
      | inr other ↦
          part_of-add_all-none m (ls ++ l ∷ []) w d.1 (ground (arith, step)) ∙ ground arith
    ]

wanted-absent :
    (cur : List Line) (m : List (Who × ℕ)) (w : Who)
    → wanted (absent cur m) w ≡ (if is_present cur w then none else wanted m w)
unfolding wanted
wanted-absent cur [] w = ground arith
wanted-absent cur ((v, a) ∷ m) w = ground (arith, wanted-absent cur m w, is_present-eq v w cur)

part_of-settled :
    (cur : List Line) (new : List (Who × ℕ)) (w : Who)
    → part_of (settled new cur) w ≡ (if is_present cur w then wanted new w else none)
unfolding part_of settled
part_of-settled [] new w = refl
part_of-settled (l ∷ cur) new w = ground (arith, part_of-settled cur new w, wanted-eq l.who w new)

-- The rules of the parts of one bill: a part of its own for everybody, together no more than the
-- bill, and at most 30 of them.
pub record IsBill (bill : Bill) (ls : List Line) : Type 0 where
  pub ids : DistinctIds ls
  pub people : DistinctLines ls
  pub within : lines_sum ls ≤ bill.amount
  pub at_most_30 : length ls ≤ 30

-- New parts that a bill can have: for different people, within the bill, and at most 30.
pub record Fits (bill : Bill) (new : List (Who × ℕ)) : Type 0 where
  pub in_range : InRange new
  pub distinct : DistinctWho new
  pub count : length new ≤ 30
  pub total : measure (λ a. a) new ≤ bill.amount

-- The table that `write_lines` leaves.
abbrev pub written : List (Who × ℕ) → List Line → List Line
written new cur = add_all (absent cur new) (settled new cur)

Apart-nil : (ls : List Line) → Apart [] ls
Apart-nil [] = tt
Apart-nil (l ∷ ls) = (tt, Apart-nil ls)

lines_measure-add_all :
    (f : ℕ → ℕ) (m : List (Who × ℕ)) (ls : List Line)
    → lines_measure f (add_all m ls) ≡ lines_measure f ls + measure f m
lines_measure-add_all f [] ls = omega arith
lines_measure-add_all f ((w, a) ∷ m) ls =
    omega (arith, lines_measure-add_all f m (ls ++ l ∷ []), lines_measure-snoc ls)
  where
    l : Line
    l = record { id = fresh line_id ls; who = w; amount = a }

    lines_measure-snoc :
        (xs : List Line) → lines_measure f (xs ++ l ∷ []) ≡ lines_measure f xs + f a
    lines_measure-snoc [] = omega arith
    lines_measure-snoc (x ∷ xs) = omega (arith, lines_measure-snoc xs)

lines_measure-one : (ls : List Line) → lines_measure (λ _. 1) ls ≡ length ls
lines_measure-one [] = refl
lines_measure-one (l ∷ ls) = omega (arith, lines_measure-one ls)

measure-one : (m : List (Who × ℕ)) → measure (λ _. 1) m ≡ length m
measure-one [] = refl
measure-one (e ∷ m) = omega (arith, measure-one m)

module _ (bill : Bill) (new : List (Who × ℕ)) (cur : List Line) (expense : bill.income ≡ false)
    (now : IsBill bill cur) (fits : Fits bill new) where
  parts_made :
      lines_sum (settled new cur) + measure (λ a. a) (absent cur new) ≡ measure (λ a. a) new
  parts_made = settled-absent (λ a. a) cur new now.people fits.distinct

  count_made : length (settled new cur) + length (absent cur new) ≡ length new
  count_made = omega (
    arith,
    settled-absent (λ _. 1) cur new now.people fits.distinct,
    lines_measure-one (settled new cur),
    measure-one (absent cur new),
    measure-one new,
  )

  pub write_lines_lem : write_lines bill new cur ≡ ok (written new cur)
  unfolding write_lines
  write_lines_lem =
      let total = fits.total in
      let count = fits.count in
      let first =
        shrink_lines_lem bill new fits.in_range [] cur (Apart-nil cur) now.ids
          (omega (arith, now.within)) in
      let second =
        grow_lines_lem bill new fits.in_range [] cur (Apart-nil cur) now.ids
          (omega (arith, parts_made)) in
      let third =
        add_absent bill cur new expense fits.in_range fits.distinct (omega (arith, count_made))
          (omega (arith, parts_made)) in
      ground (arith, first, second, third)

  written_parts : (w : Who) → part_of (written new cur) w ≡ wanted new w
  written_parts w = elim (Option-cases (part_of (settled new cur) w)) [
    | inl no_part ↦
        part_of-add_all-none (absent cur new) (settled new cur) w
          (absent-DistinctWho cur new fits.distinct) no_part
        ∙ ground (arith, part_of-settled cur new w, wanted-absent cur new w)
    | inr (a, part) ↦
        part_of-add_all-some (absent cur new) (settled new cur) w a part
        ∙ ground (arith, part_of-settled cur new w)
  ]

  -- From any parts that keep the rules, writing new parts that fit the bill is refused by no check of
  -- the database, whatever the order of the statements, and then everybody has exactly the part that
  -- is wanted for them, and nobody else has one; so the parts add up to those that are wanted.
  pub write_lines-exact :
      (table : List Line) × (write_lines bill new cur ≡ ok table)
      × ((w : Who) → part_of table w ≡ wanted new w)
      × (lines_sum table ≡ measure (λ a. a) new)
      × (length table ≡ length new)
  write_lines-exact = (
    written new cur,
    write_lines_lem,
    written_parts,
    omega (arith, lines_measure-add_all (λ a. a) (absent cur new) (settled new cur), parts_made),
    omega (
      arith,
      lines_measure-add_all (λ _. 1) (absent cur new) (settled new cur),
      lines_measure-one (written new cur),
      lines_measure-one (settled new cur),
      measure-one (absent cur new),
      count_made,
    ),
  )
