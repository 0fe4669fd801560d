-- ===== src/Splits/Lines/Added.antt =====
-- The third loop of `write_lines`: the database refuses none of the new parts.
use meow_ny.Common.{
  ℕ, ◌+◌, ◌≤◌, ◌<◌, ◌≡◌, refl, subst, ◌∙◌, sym, false, some, List, [], ◌∷◌, ◌++◌, arith, any, map,
  length, length-append, All, All-map, inl, inr, Bool-cases, Option-cases,
}
use meow_ny.Common.Error.{ok}
use meow_ny.Money.{max_minor}
use meow_ny.Common.Text.{text_eq_comm, lower_ascii}
use meow_ny.Store.{Who, person, guest, who_eq, who_conflict, who_eq_iff, Line}
use meow_ny.Store.Table.{fresh}
use meow_ny.Splits.Lines.{Bill, line_id, lines_sum, insert_line, wanted, is_present, add_lines}
use meow_ny.Splits.Lines.Passes.{settled, InRange, lines_sum-append}
use meow_ny.Splits.Lines.Counting.{Alone, DistinctWho, absent, who_eq_refl, wanted-Alone, measure}

-- The third loop when nothing is refused.
abbrev pub add_all : List (Who × ℕ) → List Line → List Line
add_all [] table = table
add_all ((w, a) ∷ new) table =
    add_all new (table ++ record { id = fresh line_id table; who = w; amount = a } ∷ [])

-- A person whose new part clashes with nobody's in the table.
abbrev Free : List Line → Who → Type 0
Free table w = any (λ l. who_conflict l.who w) table ≡ false

Free-append :
    (table : List Line) (l : Line) (w : Who)
    → Free table w
    → who_conflict l.who w ≡ false
    → Free (table ++ l ∷ []) w
Free-append [] l w f c = ground arith
Free-append (x ∷ table) l w f c = ground (arith, Free-append table l w)

Free-All :
    (table : List Line) (l : Line) (new : List (Who × ℕ))
    → All (λ e. Free table e.0) new
    → Alone l.who new
    → All (λ e. Free (table ++ l ∷ []) e.0) new
Free-All table l [] f c = tt
Free-All table l (e ∷ new) f c = (Free-append table l e.0 f.0 c.0, Free-All table l new f.1 c.1)

insert_line_lem :
    (bill : Bill) (w : Who) (a : ℕ) (table : List Line)
    → bill.income ≡ false
    → (1 ≤ a) × (a ≤ max_minor)
    → Free table w
    → length table < 30
    → lines_sum table + a ≤ bill.amount
    → insert_line bill w a table
      ≡ ok (table ++ record { id = fresh line_id table; who = w; amount = a } ∷ [])
unfolding insert_line
insert_line_lem bill w a table e r f n room = ground arith

module _ (bill : Bill) (cur : List Line) (expense : bill.income ≡ false) where
  add_lines_lem :
      (new : List (Who × ℕ)) (table : List Line)
      → InRange new
      → DistinctWho (absent cur new)
      → All (λ e. Free table e.0) (absent cur new)
      → length table + length (absent cur new) ≤ 30
      → lines_sum table + measure (λ a. a) (absent cur new) ≤ bill.amount
      → add_lines bill cur new table ≡ ok (add_all (absent cur new) table)
  unfolding add_lines
  add_lines_lem [] table r d f n room = refl
  add_lines_lem ((w, a) ∷ new) table r d f n room = elim (Bool-cases (is_present cur w)) [
    | inl here ↦ ground (arith, add_lines_lem new table)
    | inr away ↦
        let l : Line = record { id = fresh line_id table; who = w; amount = a } in
        let split : absent cur ((w, a) ∷ new) ≡ (w, a) ∷ absent cur new = rw away refl in
        let d' = subst DistinctWho split d in
        let f' = subst (All (λ e. Free table e.0)) split f in
        let n' = subst (λ m. length table + length m ≤ 30) split n in
        let room' = subst (λ m. lines_sum table + measure (λ a. a) m ≤ bill.amount) split room in
        let rest =
          add_lines_lem new (table ++ l ∷ []) r.1 d'.1 (Free-All table l (absent cur new) f'.1 d'.0)
            (omega (arith, length-append table (l ∷ [])))
            (omega (arith, lines_sum-append table (l ∷ []))) in
        ground
          (arith, insert_line_lem bill w a table expense r.0 f'.0 (omega arith) (omega arith), rest)
  ]

absent-Alone :
    (cur : List Line) (w : Who) (new : List (Who × ℕ)) → Alone w new → Alone w (absent cur new)
absent-Alone cur w [] h = tt
absent-Alone cur w (e ∷ new) h = elim (Bool-cases (is_present cur e.0)) [
  | inl here ↦ rw here (absent-Alone cur w new h.1)
  | inr away ↦ rw away (h.0, absent-Alone cur w new h.1)
]

pub absent-DistinctWho :
    (cur : List Line) (new : List (Who × ℕ)) → DistinctWho new → DistinctWho (absent cur new)
absent-DistinctWho cur [] h = tt
absent-DistinctWho cur (e ∷ new) h = elim (Bool-cases (is_present cur e.0)) [
  | inl here ↦ rw here (absent-DistinctWho cur new h.1)
  | inr away ↦ rw away (absent-Alone cur e.0 new h.0, absent-DistinctWho cur new h.1)
]

who_conflict_comm : (v w : Who) → who_conflict v w ≡ who_conflict w v
who_conflict_comm (person i) (person j) = ground arith
who_conflict_comm (person i) (guest t) = refl
who_conflict_comm (guest s) (person j) = refl
who_conflict_comm (guest s) (guest t) = text_eq_comm (map lower_ascii s) (map lower_ascii t)

Alone-wanted :
    (x w : Who) (b : ℕ) (new : List (Who × ℕ))
    → Alone x new
    → wanted new w ≡ some b
    → who_conflict x w ≡ false
unfolding wanted
Alone-wanted x w b [] h e = absurd (cc)
Alone-wanted x w b ((v, a) ∷ new) h e = elim (Bool-cases (who_eq v w)) [
  | inl same ↦ subst (λ y. who_conflict x y ≡ false) ((who_eq_iff v w).0 same) h.0
  | inr other ↦ elim (Option-cases (wanted new w)) [
    | inl gone ↦ absurd (ground arith)
    | inr (c, later) ↦ Alone-wanted x w c new h.1 later
  ]
]

-- Two who are wanted and are not one clash with one another in no index.
wanted-apart :
    (v w : Who) (a b : ℕ) (new : List (Who × ℕ))
    → DistinctWho new
    → wanted new v ≡ some a
    → wanted new w ≡ some b
    → who_eq v w ≡ false
    → who_conflict v w ≡ false
unfolding wanted
wanted-apart v w a b [] d ev ew ne = absurd (cc)
wanted-apart v w a b ((x, c) ∷ new) d ev ew ne = elim (Option-cases (wanted new v)) [
  | inr (a', v_later) ↦ elim (Option-cases (wanted new w)) [
    | inr (b', w_later) ↦ wanted-apart v w a' b' new d.1 v_later w_later ne
    | inl w_here ↦
        let at : x ≡ w = (who_eq_iff x w).0 (ground arith) in
        who_conflict_comm v w
        ∙ subst (λ y. who_conflict y v ≡ false) at (Alone-wanted x v a' new d.0 v_later)
  ]
  | inl v_here ↦
      let at : x ≡ v = (who_eq_iff x v).0 (ground arith) in
      elim (Option-cases (wanted new w)) [
        | inr (b', w_later) ↦
            subst (λ y. who_conflict y w ≡ false) at (Alone-wanted x w b' new d.0 w_later)
        | inl w_here ↦
            let at_w : x ≡ w = (who_eq_iff x w).0 (ground arith) in
            absurd (ground (arith, (who_eq_iff v w).1 (sym at ∙ at_w)))
      ]
]

wanted-head : (new : List (Who × ℕ)) → DistinctWho new → All (λ e. wanted new e.0 ≡ some e.1) new
unfolding wanted
wanted-head [] d = tt
wanted-head ((w, a) ∷ new) d = (
  ground (arith, wanted-Alone w new d.0, who_eq_refl w),
  All-map _ _ (λ e h. rw h refl) new (wanted-head new d.1),
)

-- Nobody who is added clashes with somebody whose part stays.
settled-Free :
    (cur : List Line) (new : List (Who × ℕ)) (w : Who) (b : ℕ)
    → DistinctWho new
    → wanted new w ≡ some b
    → is_present cur w ≡ false
    → Free (settled new cur) w
unfolding settled
settled-Free [] new w b d e p = refl
settled-Free (l ∷ cur) new w b d e p = elim (Option-cases (wanted new l.who)) [
  | inl gone ↦ ground (arith, settled-Free cur new w b d e)
  | inr (t, kept) ↦
      ground (arith, settled-Free cur new w b d e, wanted-apart l.who w t b new d kept e)
]

absent-Free :
    (cur : List Line) (new m : List (Who × ℕ))
    → DistinctWho new
    → All (λ e. wanted new e.0 ≡ some e.1) m
    → All (λ e. Free (settled new cur) e.0) (absent cur m)
absent-Free cur new [] d h = tt
absent-Free cur new (e ∷ m) d h = elim (Bool-cases (is_present cur e.0)) [
  | inl here ↦ rw here (absent-Free cur new m d h.1)
  | inr away ↦ rw away (settled-Free cur new e.0 e.1 d h.0 away, absent-Free cur new m d h.1)
]

pub add_absent :
    (bill : Bill) (cur : List Line) (new : List (Who × ℕ))
    → bill.income ≡ false
    → InRange new
    → DistinctWho new
    → length (settled new cur) + length (absent cur new) ≤ 30
    → lines_sum (settled new cur) + measure (λ a. a) (absent cur new) ≤ bill.amount
    → add_lines bill cur new (settled new cur) ≡ ok (add_all (absent cur new) (settled new cur))
add_absent bill cur new e r d n room =
    add_lines_lem bill cur e new (settled new cur) r (absent-DistinctWho cur new d)
      (absent-Free cur new new d (wanted-head new d)) n room
