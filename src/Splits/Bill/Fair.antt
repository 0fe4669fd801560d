-- ===== src/Splits/Bill/Fair.antt =====
-- How the parts that a change of the amount leaves compare with the parts before it.
use meow_ny.Common.{
  ℕ, suc, ◌+◌, ◌≤◌, ◌<◌, ◌≡◌, ◌⊎◌, sym, subst, Option, none, some, List, [], ◌∷◌, arith, ltb,
  length, sum, map, get_or, inl, inr, Bool-cases, All, All-with, length-map, false,
}
use meow_ny.Common.Int.{pos}
use meow_ny.Common.Error.{ok}
use meow_ny.Common.Sort.{Pairwise}
use meow_ny.Store.{Who, who_conflict, Line}
use meow_ny.Splits.Allocate.{share, allocate}
use meow_ny.Splits.Allocate.Shares.{allocate-near}
use meow_ny.Splits.Lines.{line_amount, line_who, wanted}
use meow_ny.Splits.Lines.Counting.{Alone, wanted-Alone, who_eq_refl, conflict_of_eq}
use meow_ny.Splits.Bill.{kept}

abbrev pub amount_or_0 : Option ℕ → ℕ
amount_or_0 none = 0
amount_or_0 (some a) = a

-- The share of a part of the old amount in the new one, rounded down, or one cent more.
abbrev pub NearShare : ℕ → ℕ → ℕ → ℕ → Type 0
NearShare new_amount old_amount old_part new_part =
    (new_part ≡ share new_amount old_amount old_part)
    ⊎ (new_part ≡ share new_amount old_amount old_part + 1)

-- No two parts clash in the unique indexes.
abbrev pub Apart : Line → Line → Type 0
Apart l m = who_conflict l.who m.who ≡ false

kept_lines-Alone :
    (l : Line) (ls : List Line) (amounts : List ℕ)
    → All (Apart l) ls
    → Alone l.who (kept (map line_who ls) amounts)
unfolding kept
kept_lines-Alone l [] amounts h = tt
kept_lines-Alone l (m ∷ ls) [] h = tt
kept_lines-Alone l (m ∷ ls) (a ∷ amounts) h = elim (Bool-cases (ltb 0 a)) [
  | inl more ↦ rw more (h.0, kept_lines-Alone l ls amounts h.1)
  | inr zero_part ↦ rw zero_part (kept_lines-Alone l ls amounts h.1)
]

-- The amount of the first one.
wanted-first :
    (l : Line) (ls : List Line) (a : ℕ) (amounts : List ℕ)
    → All (Apart l) ls
    → amount_or_0 (wanted (kept (line_who l ∷ map line_who ls) (a ∷ amounts)) l.who) ≡ a
unfolding kept wanted
wanted-first l ls a amounts h =
    let later =
      wanted-Alone l.who (kept (map line_who ls) amounts) (kept_lines-Alone l ls amounts h) in
    elim (Bool-cases (ltb 0 a)) [
      | inl more ↦ ground (arith, later, who_eq_refl l.who)
      | inr zero_part ↦ ground (arith, later, zero_part)
    ]

wanted-later :
    (l m : Line) (ls : List Line) (a : ℕ) (amounts : List ℕ)
    → Apart l m
    → wanted (kept (line_who l ∷ map line_who ls) (a ∷ amounts)) m.who
      ≡ wanted (kept (map line_who ls) amounts) m.who
unfolding kept wanted
wanted-later l m ls a amounts h = ground (arith, h, conflict_of_eq l.who m.who)

module _ (P : ℕ → ℕ → Type 0) where
  -- Two lists of the same length that are related at each place.
  abbrev pub Related : List ℕ → List ℕ → Type 0
  Related [] [] = Unit
  Related (w ∷ ws) (a ∷ amounts) = P w a × Related ws amounts
  Related ws amounts = 1 ≤ 0

  Related-get_or :
      (ws amounts : List ℕ)
      → length amounts ≡ length ws
      → ((i : ℕ) → i < length ws → P (get_or ws i 0) (get_or amounts i 0))
      → Related ws amounts
  Related-get_or [] [] same near = tt
  Related-get_or [] (a ∷ amounts) same near = absurd (omega arith)
  Related-get_or (w ∷ ws) [] same near = absurd (omega arith)
  Related-get_or (w ∷ ws) (a ∷ amounts) same near = (
    near 0 (omega arith),
    Related-get_or ws amounts (omega arith) (λ i lt. near (suc i) (omega arith)),
  )

  -- The parts that are kept give everybody the amount at their place.
  wanted-kept :
      (ls : List Line) (amounts : List ℕ)
      → Pairwise Apart ls
      → Related (map line_amount ls) amounts
      → All
          (λ (l : Line). P l.amount (amount_or_0 (wanted (kept (map line_who ls) amounts) l.who)))
          ls
  wanted-kept [] amounts d near = tt
  wanted-kept (l ∷ ls) [] d near = absurd (omega arith)
  wanted-kept (l ∷ ls) (a ∷ amounts) d near = (
    subst (P l.amount) (sym (wanted-first l ls a amounts d.0)) near.0,
    All-with (Apart l)
        (λ m. P m.amount (amount_or_0 (wanted (kept (map line_who ls) amounts) m.who)))
        (λ m. P m.amount (amount_or_0 (wanted (kept (map line_who (l ∷ ls)) (a ∷ amounts)) m.who)))
        (λ m apart near_m.
          subst (λ w. P m.amount (amount_or_0 w)) (sym (wanted-later l m ls a amounts apart))
            near_m)
        ls d.0 (wanted-kept ls amounts d.1 near.1),
  )

-- What everybody has after a change of the amount is the share of what they had.
abbrev pub Fair : ℕ → ℕ → List (Who × ℕ) → List Line → Type 0
Fair new_amount old_amount new =
    All (λ (l : Line). NearShare new_amount old_amount l.amount (amount_or_0 (wanted new l.who)))

-- An allocation over your weight and the parts gives everybody the share of their part.
pub kept-Near :
    (total mine : ℕ) (ls : List Line) (a : ℕ) (amounts : List ℕ)
    → Pairwise Apart ls
    → allocate (pos total) (mine ∷ map line_amount ls) ≡ ok (a ∷ amounts)
    → length amounts ≡ length ls
    → Fair total (mine + sum (map line_amount ls)) (kept (map line_who ls) amounts) ls
kept-Near total mine ls a amounts d given count =
    wanted-kept (NearShare total (mine + sum (map line_amount ls))) ls amounts d (
      Related-get_or (NearShare total (mine + sum (map line_amount ls))) (map line_amount ls)
        amounts (omega (arith, count, length-map {B = ℕ} ls line_amount)) (λ i lt. near i lt))
  where
    near :
        (i : ℕ)
        → i < length (map line_amount ls)
        → NearShare total
            (mine + sum (map line_amount ls))
            (get_or (map line_amount ls) i 0)
            (get_or amounts i 0)
    near i lt =
        elim (allocate-near total (mine ∷ map line_amount ls) (a ∷ amounts) (suc i) given
          (omega arith)) [ inl down ↦ inl down | inr (up, odd) ↦ inr up ]
