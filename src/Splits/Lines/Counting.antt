-- ===== src/Splits/Lines/Counting.antt =====
-- What the loops of `write_lines` leave, counted against what is wanted: the parts that stay and the
-- parts that are new make up the list that is wanted.
use meow_ny.Common.{
  ℕ, ◌+◌, ◌≡◌, refl, ap, ◌∙◌, sym, true, false, none, some, List, [], ◌∷◌, arith, if◌then◌else◌,
  sum, map, All, inl, inr, Bool-cases, Option-cases,
}
use meow_ny.Common.Text.{text_eq_refl, lower_ascii}
use meow_ny.Store.{Who, person, guest, who_eq, who_conflict, who_eq_iff, Line}
use meow_ny.Splits.Lines.{wanted, is_present}
use meow_ny.Splits.Lines.Passes.{settled}

-- Nobody stands twice in the list, by the unique indexes.
abbrev pub Alone : Who → List (Who × ℕ) → Type 0
Alone w = All (λ e. who_conflict w e.0 ≡ false)

abbrev pub DistinctWho : List (Who × ℕ) → Type 0
DistinctWho [] = Unit
DistinctWho ((w, a) ∷ new) = Alone w new × DistinctWho new

abbrev pub DistinctLines : List Line → Type 0
DistinctLines [] = Unit
DistinctLines (l ∷ ls) = (is_present ls l.who ≡ false) × DistinctLines ls

-- Those who are wanted and have no part yet.
abbrev pub absent : List Line → List (Who × ℕ) → List (Who × ℕ)
absent cur [] = []
absent cur ((w, a) ∷ new) =
    let rest = absent cur new in if is_present cur w then rest else (w, a) ∷ rest

absent-nil : (new : List (Who × ℕ)) → absent [] new ≡ new
absent-nil [] = refl
absent-nil (e ∷ new) = ap (◌∷◌ e) (absent-nil new)

pub who_eq_refl : (w : Who) → who_eq w w ≡ true
who_eq_refl w = (who_eq_iff w w).1 refl

pub who_conflict_refl : (w : Who) → who_conflict w w ≡ true
who_conflict_refl (person i) = ground arith
who_conflict_refl (guest t) = text_eq_refl (map lower_ascii t)

pub conflict_of_eq : (v w : Who) → who_eq v w ≡ true → who_conflict v w ≡ true
conflict_of_eq v w e = let same : v ≡ w = (who_eq_iff v w).0 e in rw same (who_conflict_refl w)

pub who_eq_comm : (v w : Who) → who_eq v w ≡ true → who_eq w v ≡ true
who_eq_comm v w e = (who_eq_iff w v).1 (sym ((who_eq_iff v w).0 e))

-- Nobody after a person in a distinct list is that person.
pub wanted-Alone : (w : Who) (new : List (Who × ℕ)) → Alone w new → wanted new w ≡ none
unfolding wanted
wanted-Alone w [] h = refl
wanted-Alone w ((v, a) ∷ new) h =
    ground (arith, wanted-Alone w new h.1, who_eq_comm v w, conflict_of_eq w v)

pub wanted-eq : (v w : Who) (new : List (Who × ℕ)) → who_eq v w ≡ true → wanted new v ≡ wanted new w
wanted-eq v w new e = ap (wanted new) ((who_eq_iff v w).0 e)

absent-none :
    (l : Line) (cur : List Line) (new : List (Who × ℕ))
    → wanted new l.who ≡ none
    → absent (l ∷ cur) new ≡ absent cur new
unfolding wanted
absent-none l cur [] e = refl
absent-none l cur ((w, a) ∷ new) e = ground (arith, absent-none l cur new, who_eq_comm l.who w)

pub is_present-eq :
    (v w : Who) (cur : List Line) → who_eq v w ≡ true → is_present cur v ≡ is_present cur w
is_present-eq v w cur e = ap (is_present cur) ((who_eq_iff v w).0 e)

module _ (f : ℕ → ℕ) where
  abbrev pub measure : List (Who × ℕ) → ℕ
  measure new = sum (map (λ (e : Who × ℕ). f e.1) new)

  abbrev pub lines_measure : List Line → ℕ
  lines_measure ls = sum (map (λ (l : Line). f l.amount) ls)

  absent-some :
      (l : Line) (cur : List Line) (t : ℕ) (new : List (Who × ℕ))
      → DistinctWho new
      → is_present cur l.who ≡ false
      → wanted new l.who ≡ some t
      → measure (absent cur new) ≡ f t + measure (absent (l ∷ cur) new)
  unfolding wanted
  absent-some l cur t [] d p e = absurd (cc)
  absent-some l cur t ((w, a) ∷ new) d p e = elim (Bool-cases (who_eq l.who w)) [
    | inl same ↦
        let gone : wanted new l.who ≡ none = wanted-eq l.who w new same ∙ wanted-Alone w new d.0 in
        let value : a ≡ t = ground (arith, who_eq_comm l.who w same) in
        ground (arith, absent-none l cur new gone, is_present-eq l.who w cur same, ap f value)
    | inr other ↦ ground (arith, absent-some l cur t new d.1 p, who_eq_comm w l.who)
  ]

  pub settled-absent :
      (cur : List Line) (new : List (Who × ℕ))
      → DistinctLines cur
      → DistinctWho new
      → lines_measure (settled new cur) + measure (absent cur new) ≡ measure new
  unfolding settled
  settled-absent [] new d dn = rw (absent-nil new) (omega arith)
  settled-absent (l ∷ cur) new d dn = elim (Option-cases (wanted new l.who)) [
    | inl gone ↦ ground (arith, absent-none l cur new gone, settled-absent cur new d.1 dn)
    | inr (t, kept) ↦
        ground (arith, absent-some l cur t new dn d.0 kept, settled-absent cur new d.1 dn)
  ]
