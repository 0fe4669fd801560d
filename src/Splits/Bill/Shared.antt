-- ===== src/Splits/Bill/Shared.antt =====
-- The order of the parts that two devices share: `rescale` of src-tauri/src/debts/splits.rs.
use meow_ny.Common.{
  ℕ, ◌≡◌, refl, ap, ◌∙◌, sym, subst, false, List, [], ◌∷◌, arith, length, length-map, map, sum, inl,
  inr, Bool-cases, All, if◌then◌else◌,
}
use meow_ny.Common.Text.{Text, text_eq_comm, lower_ascii}
use meow_ny.Common.Sort.{insert, sort, sum-sort, length-sort, Pairwise, sort-Pairwise}
use meow_ny.Common.Error.{ok, Result-cases, traverse}
use meow_ny.Store.{Who, person, guest, who_conflict, Line, Db}
use meow_ny.Splits.Lines.{lines_sum}
use meow_ny.Splits.Bill.{key_of, keyed, key_not_after, in_shared_order}
use meow_ny.Splits.Bill.Fair.{Apart}

abbrev pub Indexed : List Line → Type 0
Indexed = Pairwise Apart

-- Every friend who has a part is in the table of people.
abbrev pub Known : Db → List Line → Type 0
Known db = All (λ l. (k : ℕ × Text) × (key_of db l.who ≡ ok k))

abbrev Keyed : Type 0
Keyed = (ℕ × Text) × Line

abbrev line_of : Keyed → Line
line_of k = k.1

abbrev KeyApart : Keyed → Keyed → Type 0
KeyApart k j = Apart (line_of k) (line_of j)

Apart-comm : (v w : Who) → who_conflict v w ≡ false → who_conflict w v ≡ false
Apart-comm (person i) (person j) h = ground arith
Apart-comm (person i) (guest t) h = refl
Apart-comm (guest s) (person j) h = refl
Apart-comm (guest s) (guest t) h = text_eq_comm (map lower_ascii t) (map lower_ascii s) ∙ h

keyed_all :
    (db : Db) (ls : List Line)
    → Known db ls
    → (keys : List Keyed) × (traverse (keyed db) ls ≡ ok keys)
keyed_all db [] h = ([], refl)
keyed_all db (l ∷ ls) ((k, here), h) =
    let (keys, rest) = keyed_all db ls h in ((k, l) ∷ keys, ground arith)

keyed_lines :
    (db : Db) (ls : List Line) (keys : List Keyed)
    → traverse (keyed db) ls ≡ ok keys
    → map line_of keys ≡ ls
keyed_lines db [] keys e = let same : [] ≡ keys = cc in rw (← same) refl
keyed_lines db (l ∷ ls) keys e = elim (Result-cases (key_of db l.who)) [
  | inr (_, gone) ↦ absurd (ground arith)
  | inl (k, here) ↦ elim (Result-cases (traverse (keyed db) ls)) [
    | inr (_, gone) ↦ absurd (ground arith)
    | inl (rest, there) ↦
        let same : ((k, l) ∷ rest) ≡ keys = ground arith in
        rw (← same) (ap (◌∷◌ l) (keyed_lines db ls rest there))
  ]
]

lift_All :
    (k : Keyed) (keys : List Keyed)
    → All (Apart (line_of k)) (map line_of keys)
    → All (KeyApart k) keys
lift_All k [] h = tt
lift_All k (j ∷ keys) h = (h.0, lift_All k keys h.1)

lift : (keys : List Keyed) → Indexed (map line_of keys) → Pairwise KeyApart keys
lift [] h = tt
lift (k ∷ keys) h = (lift_All k keys h.0, lift keys h.1)

lower_All :
    (k : Keyed) (keys : List Keyed)
    → All (KeyApart k) keys
    → All (Apart (line_of k)) (map line_of keys)
lower_All k [] h = tt
lower_All k (j ∷ keys) h = (h.0, lower_All k keys h.1)

lower : (keys : List Keyed) → Pairwise KeyApart keys → Indexed (map line_of keys)
lower [] h = tt
lower (k ∷ keys) h = (lower_All k keys h.0, lower keys h.1)

sum_of :
    (keys : List Keyed) → lines_sum (map line_of keys) ≡ sum (map (λ (k : Keyed). k.1.amount) keys)
sum_of [] = refl
sum_of (k ∷ keys) = omega (arith, sum_of keys)

-- What holds of all parts in the shared order holds of all parts.
module _ (P : Keyed → Type 0) where
  insert-All-inv :
      (k : Keyed) (ks : List Keyed) → All P (insert key_not_after k ks) → P k × All P ks
  unfolding insert
  insert-All-inv k [] h = h
  insert-All-inv k (j ∷ ks) h = elim (Bool-cases (key_not_after k j)) [
    | inl first ↦
        subst (λ b. All P (if b then k ∷ j ∷ ks else j ∷ insert key_not_after k ks)) first h
    | inr later ↦
        let (here, rest) =
          subst (λ b. All P (if b then k ∷ j ∷ ks else j ∷ insert key_not_after k ks)) later h in
        let (mine, others) = insert-All-inv k ks rest in (mine, (here, others))
  ]

  sort-All-inv : (ks : List Keyed) → All P (sort key_not_after ks) → All P ks
  unfolding sort
  sort-All-inv [] h = tt
  sort-All-inv (k ∷ ks) h =
      let (here, rest) = insert-All-inv k (sort key_not_after ks) h in (here, sort-All-inv ks rest)

module _ (P : Line → Type 0) where
  of_lines : (ks : List Keyed) → All P (map line_of ks) → All (λ k. P (line_of k)) ks
  of_lines [] h = tt
  of_lines (k ∷ ks) h = (h.0, of_lines ks h.1)

  to_lines : (ks : List Keyed) → All (λ k. P (line_of k)) ks → All P (map line_of ks)
  to_lines [] h = tt
  to_lines (k ∷ ks) h = (h.0, to_lines ks h.1)

-- The shared order is an order of the same parts.
pub in_shared_order_lem :
    (db : Db) (ls : List Line)
    → Known db ls
    → Indexed ls
    → (ordered : List Line) × (in_shared_order db ls ≡ ok ordered)
      × Indexed ordered
      × (length ordered ≡ length ls)
      × (lines_sum ordered ≡ lines_sum ls)
      × ((P : Line → Type 0) → All P ordered → All P ls)
unfolding in_shared_order
in_shared_order_lem db ls known apart =
    let (keys, made) = keyed_all db ls known in
    let same = keyed_lines db ls keys made in
    let sorted = sort key_not_after keys in
    (
      map line_of sorted,
      ground arith,
      lower sorted (
          sort-Pairwise key_not_after KeyApart (λ k j. Apart-comm k.1.who j.1.who) keys
            (lift keys (subst Indexed (sym same) apart))),
      length-map sorted line_of
          ∙ length-sort key_not_after keys
          ∙ sym (length-map keys line_of)
          ∙ ap length same,
      sum_of sorted
          ∙ sum-sort key_not_after (λ (k : Keyed). k.1.amount) keys
          ∙ sym (sum_of keys)
          ∙ ap lines_sum same,
      λ P h.
          subst (All P) same
            (to_lines P keys (sort-All-inv (λ k. P (line_of k)) keys (of_lines P sorted h))),
    )
