-- ===== src/Splits/Lines/Invariant.antt =====
-- `write_lines` keeps the rules of the parts of a bill.
use meow_ny.Common.{
  ℕ, ◌<◌, ◌≡◌, ◌≢◌, refl, subst, sym, false, ◌||◌, List, [], ◌∷◌, ◌++◌, arith, All, All-append,
  All-map, inl, inr, Bool-cases, Option-cases,
}
use meow_ny.Common.Error.{ok}
use meow_ny.Store.{Who, who_eq, Line}
use meow_ny.Store.Table.{fresh}
use meow_ny.Splits.Lines.{Bill, line_id, wanted, is_present, write_lines}
use meow_ny.Splits.Lines.Passes.{settled, Clear, DistinctIds}
use meow_ny.Splits.Lines.Counting.{
  Alone, DistinctWho, DistinctLines, absent, conflict_of_eq, who_eq_comm,
}
use meow_ny.Splits.Lines.Added.{add_all, absent-DistinctWho}
use meow_ny.Splits.Lines.Exact.{IsBill, Fits, written, write_lines_lem, write_lines-exact}

settled-Clear :
    (i : ℕ) (new : List (Who × ℕ)) (ls : List Line) → Clear i ls → Clear i (settled new ls)
unfolding settled
settled-Clear i new [] h = tt
settled-Clear i new (l ∷ ls) h = elim (Option-cases (wanted new l.who)) [
  | inl gone ↦ rw (gone, settled) (settled-Clear i new ls h.1)
  | inr (t, kept) ↦ rw (kept, settled) (h.0, settled-Clear i new ls h.1)
]

settled-ids :
    (new : List (Who × ℕ)) (ls : List Line) → DistinctIds ls → DistinctIds (settled new ls)
unfolding settled
settled-ids new [] d = tt
settled-ids new (l ∷ ls) d = elim (Option-cases (wanted new l.who)) [
  | inl gone ↦ rw (gone, settled) (settled-ids new ls d.1)
  | inr (t, kept) ↦ rw (kept, settled) (settled-Clear l.id new ls d.0, settled-ids new ls d.1)
]

settled-is_present :
    (new : List (Who × ℕ)) (ls : List Line) (w : Who)
    → is_present ls w ≡ false
    → is_present (settled new ls) w ≡ false
unfolding settled
settled-is_present new [] w h = refl
settled-is_present new (l ∷ ls) w h = ground (arith, settled-is_present new ls w)

settled-people :
    (new : List (Who × ℕ)) (ls : List Line) → DistinctLines ls → DistinctLines (settled new ls)
unfolding settled
settled-people new [] d = tt
settled-people new (l ∷ ls) d = elim (Option-cases (wanted new l.who)) [
  | inl gone ↦ rw (gone, settled) (settled-people new ls d.1)
  | inr (t, kept) ↦
      rw (kept, settled) (settled-is_present new ls l.who d.0, settled-people new ls d.1)
]

id-lt-fresh : (ls : List Line) → All (λ l. l.id < fresh line_id ls) ls
unfolding fresh
id-lt-fresh [] = tt
id-lt-fresh (l ∷ ls) = (
  omega arith,
  All-map (λ x. x.id < fresh line_id ls) (λ x. x.id < fresh line_id (l ∷ ls)) (λ x h. omega arith)
      ls (id-lt-fresh ls),
)

ids-snoc : (ls : List Line) (l : Line) → Clear l.id ls → DistinctIds ls → DistinctIds (ls ++ l ∷ [])
ids-snoc [] l c d = (tt, tt)
ids-snoc (x ∷ ls) l c d =
    (All-append (λ y. y.id ≢ x.id) ls (l ∷ []) d.0 ((λ e. c.0 (sym e)), tt), ids-snoc ls l c.1 d.1)

add_all-ids : (m : List (Who × ℕ)) (ls : List Line) → DistinctIds ls → DistinctIds (add_all m ls)
add_all-ids [] ls d = d
add_all-ids ((w, a) ∷ m) ls d = add_all-ids m _ (
    ids-snoc ls (record { id = fresh line_id ls; who = w; amount = a })
      (All-map _ _ (λ x h e. absurd (omega arith)) ls (id-lt-fresh ls)) d)

is_present-snoc :
    (ls : List Line) (l : Line) (w : Who)
    → is_present (ls ++ l ∷ []) w ≡ (is_present ls w || who_eq l.who w)
is_present-snoc [] l w = ground arith
is_present-snoc (x ∷ ls) l w = ground (arith, is_present-snoc ls l w)

people-snoc :
    (ls : List Line) (l : Line)
    → is_present ls l.who ≡ false
    → DistinctLines ls
    → DistinctLines (ls ++ l ∷ [])
people-snoc [] l p d = (refl, tt)
people-snoc (x ∷ ls) l p d = (
  ground (arith, is_present-snoc ls l x.who, who_eq_comm l.who x.who),
  people-snoc ls l (ground arith) d.1,
)

add_all-people :
    (m : List (Who × ℕ)) (ls : List Line)
    → DistinctWho m
    → All (λ e. is_present ls e.0 ≡ false) m
    → DistinctLines ls
    → DistinctLines (add_all m ls)
add_all-people [] ls dm h d = d
add_all-people ((w, a) ∷ m) ls dm h d =
    let l : Line = record { id = fresh line_id ls; who = w; amount = a } in
    add_all-people m (ls ++ l ∷ []) dm.1 (stay m dm.0 h.1) (people-snoc ls l h.0 d)
  where
    stay :
        (k : List (Who × ℕ))
        → Alone w k
        → All (λ e. is_present ls e.0 ≡ false) k
        → All
            (λ e.
              is_present (ls ++ record { id = fresh line_id ls; who = w; amount = a } ∷ []) e.0
              ≡ false)
            k
    stay [] al p = tt
    stay (e ∷ k) al p = (
      ground (
        arith,
        is_present-snoc ls (record { id = fresh line_id ls; who = w; amount = a }) e.0,
        conflict_of_eq w e.0,
      ),
      stay k al.1 p.1,
    )

absent-is_present :
    (new : List (Who × ℕ)) (cur : List Line) (m : List (Who × ℕ))
    → All (λ e. is_present (settled new cur) e.0 ≡ false) (absent cur m)
absent-is_present new cur [] = tt
absent-is_present new cur (e ∷ m) = elim (Bool-cases (is_present cur e.0)) [
  | inl here ↦ rw here (absent-is_present new cur m)
  | inr away ↦ rw away (settled-is_present new cur e.0 away, absent-is_present new cur m)
]

-- Parts that keep the rules of a bill keep them when new parts that fit the bill are written.
pub write_lines-IsBill :
    (bill : Bill) (new : List (Who × ℕ)) (cur table : List Line)
    → bill.income ≡ false
    → IsBill bill cur
    → Fits bill new
    → write_lines bill new cur ≡ ok table
    → IsBill bill table
write_lines-IsBill bill new cur table e now fits made =
    let (t, made', parts, total, count) = write_lines-exact bill new cur e now fits in
    let same : written new cur ≡ t = cc (write_lines_lem bill new cur e now fits) in
    let here : written new cur ≡ table = cc (write_lines_lem bill new cur e now fits) in
    let room = fits.total in
    let short = fits.count in
    subst (IsBill bill) here (record {
      ids = add_all-ids (absent cur new) (settled new cur) (settled-ids new cur now.ids);
      people =
          add_all-people (absent cur new) (settled new cur)
            (absent-DistinctWho cur new fits.distinct) (absent-is_present new cur new)
            (settled-people new cur now.people);
      within = rw same (omega arith);
      at_most_30 = rw same (omega arith);
    })
