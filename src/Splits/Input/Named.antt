-- ===== src/Splits/Input/Named.antt =====
-- The people of an accepted split are different.
use meow_ny.Common.{
  ℕ, suc, ◌≤◌, ◌≡◌, refl, ap, subst, true, false, List, [], ◌∷◌, arith, ◌==◌, any, length, All,
  All-map, inl, inr, Bool-cases, Option-cases,
}
use meow_ny.Common.Text.{Text, text_eq, text_eq_iff, nocase_eq}
use meow_ny.Common.Error.{Result-cases, ok}
use meow_ny.Fields.{parse_id, clean_name}
use meow_ny.Store.{Who, person, guest, who_conflict, Db}
use meow_ny.Splits.Input.{Part, check_person, who_loop, who_of}

-- The names of a split clash with one another in no index.
abbrev pub AloneName : Who → List Who → Type 0
AloneName w = All (λ v. who_conflict w v ≡ false)

abbrev pub DistinctNames : List Who → Type 0
DistinctNames [] = Unit
DistinctNames (w ∷ ws) = AloneName w ws × DistinctNames ws

-- `to_lowercase` folds at least what `COLLATE NOCASE` folds: texts that differ only in the case of
-- ASCII letters have one lower case.
abbrev pub FoldsAscii : (Text → Text) → Type 0
FoldsAscii lower = (s t : Text) → nocase_eq s t ≡ true → lower s ≡ lower t

module _ (lower : Text → Text) (folds : FoldsAscii lower) where
  abbrev Unseen : List ℕ → List Text → Who → Type 0
  Unseen people guests (person i) = any (λ k. k == i) people ≡ false
  Unseen people guests (guest s) = any (λ k. text_eq k (lower s)) guests ≡ false

  nocase_of_lower : (s t : Text) → text_eq (lower s) (lower t) ≡ false → nocase_eq s t ≡ false
  nocase_of_lower s t h = elim (Bool-cases (nocase_eq s t)) [
    | inl same ↦ absurd (ground (arith, (text_eq_iff (lower s) (lower t)).1 (folds s t same)))
    | inr other ↦ other
  ]

  after_person :
      (i : ℕ) (people : List ℕ) (guests : List Text) (w : Who)
      → Unseen (i ∷ people) guests w
      → Unseen people guests w × (who_conflict (person i) w ≡ false)
  after_person i people guests (person j) h = ground arith
  after_person i people guests (guest t) h = (h, refl)

  after_guest :
      (s : Text) (people : List ℕ) (guests : List Text) (w : Who)
      → Unseen people (lower s ∷ guests) w
      → Unseen people guests w × (who_conflict (guest s) w ≡ false)
  after_guest s people guests (person j) h = (h, refl)
  after_guest s people guests (guest t) h = (ground arith, nocase_of_lower s t (ground arith))

  person_step :
      (i : ℕ) (people : List ℕ) (guests : List Text) (ws : List Who) {n : ℕ}
      → any (λ k. k == i) people ≡ false
      → All (Unseen (i ∷ people) guests) ws × DistinctNames ws × (length ws ≡ n)
      → All (Unseen people guests) (person i ∷ ws)
        × DistinctNames (person i ∷ ws)
        × (suc (length ws) ≡ suc n)
  person_step i people guests ws {n} new (unseen, distinct, same) = (
    (
      new,
      All-map (Unseen (i ∷ people) guests) (Unseen people guests)
          (λ w h. (after_person i people guests w h).0) ws unseen,
    ),
    (
      All-map (Unseen (i ∷ people) guests) (λ w. who_conflict (person i) w ≡ false)
          (λ w h. (after_person i people guests w h).1) ws unseen,
      distinct,
    ),
    ap suc same,
  )

  guest_step :
      (s : Text) (people : List ℕ) (guests : List Text) (ws : List Who) {n : ℕ}
      → any (λ k. text_eq k (lower s)) guests ≡ false
      → All (Unseen people (lower s ∷ guests)) ws × DistinctNames ws × (length ws ≡ n)
      → All (Unseen people guests) (guest s ∷ ws)
        × DistinctNames (guest s ∷ ws)
        × (suc (length ws) ≡ suc n)
  guest_step s people guests ws {n} new (unseen, distinct, same) = (
    (
      new,
      All-map (Unseen people (lower s ∷ guests)) (Unseen people guests)
          (λ w h. (after_guest s people guests w h).0) ws unseen,
    ),
    (
      All-map (Unseen people (lower s ∷ guests)) (λ w. who_conflict (guest s) w ≡ false)
          (λ w h. (after_guest s people guests w h).1) ws unseen,
      distinct,
    ),
    ap suc same,
  )

  who_loop_lem :
      (db : Db) (keep people : List ℕ) (guests : List Text) (ps : List Part) (ws : List Who)
      → who_loop lower db keep people guests ps ≡ ok ws
      → All (Unseen people guests) ws × DistinctNames ws × (length ws ≡ length ps)
  unfolding who_loop
  who_loop_lem db keep people guests [] ws e = let same : [] ≡ ws = cc in rw (← same) (tt, tt, refl)
  who_loop_lem db keep people guests (p ∷ ps) ws e = elim (Option-cases p.person_id) [
    | inr (id_text, has_id) ↦ elim (Option-cases p.guest) [
      | inr (_, has_guest) ↦ absurd (ground arith)
      | inl no_guest ↦ elim (Result-cases (parse_id id_text)) [
        | inr (_, no_id) ↦ absurd (ground arith)
        | inl (id, read) ↦ elim (Result-cases (check_person db keep id)) [
          | inr (_, gone) ↦ absurd (ground arith)
          | inl (_, there) ↦ elim (Bool-cases (any (λ k. k == id) people)) [
            | inl twice ↦ absurd (ground arith)
            | inr new ↦ elim (Result-cases (who_loop lower db keep (id ∷ people) guests ps)) [
              | inr (_, stopped) ↦ absurd (ground arith)
              | inl (rest, went) ↦
                  let same : (person id ∷ rest) ≡ ws = ground arith in
                  subst
                    (λ v.
                      All (Unseen people guests) v × DistinctNames v × (length v ≡ suc (length ps)))
                    same
                    (person_step id people guests rest new
                      (who_loop_lem db keep (id ∷ people) guests ps rest went))
            ]
          ]
        ]
      ]
    ]
    | inl no_id ↦ elim (Option-cases p.guest) [
      | inl no_guest ↦ absurd (ground arith)
      | inr (name_text, has_guest) ↦ elim (Result-cases (clean_name name_text)) [
        | inr (_, no_name) ↦ absurd (ground arith)
        | inl (name, read) ↦ elim (Bool-cases (any (λ k. text_eq k (lower name)) guests)) [
          | inl twice ↦ absurd (ground arith)
          | inr new ↦ elim (Result-cases (who_loop lower db keep people (lower name ∷ guests) ps)) [
            | inr (_, stopped) ↦ absurd (ground arith)
            | inl (rest, went) ↦
                let same : (guest name ∷ rest) ≡ ws = ground arith in
                subst
                  (λ v.
                    All (Unseen people guests) v × DistinctNames v × (length v ≡ suc (length ps)))
                  same
                  (guest_step name people guests rest new
                    (who_loop_lem db keep people (lower name ∷ guests) ps rest went))
          ]
        ]
      ]
    ]
  ]

  pub who_of-Distinct :
      (db : Db) (keep : List ℕ) (ps : List Part) (ws : List Who)
      → who_of lower db keep ps ≡ ok ws
      → DistinctNames ws × (length ws ≡ length ps) × (1 ≤ length ws) × (length ws ≤ 30)
  unfolding who_of
  who_of-Distinct db keep ps ws e = ground (arith, who_loop_lem db keep [] [] ps ws)
