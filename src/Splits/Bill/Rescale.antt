-- ===== src/Splits/Bill/Rescale.antt =====
-- Rescaling the parts of a bill to a new amount.
use meow_ny.Common.Int.{pos}
use meow_ny.Common.{
  leb, true, ℕ, suc, ◌+◌, ◌-◌, ◌≤◌, ◌≡◌, refl, ap, sym, subst, false, List, [], ◌∷◌, arith, ◌==◌,
  length, length-map, map, inl, inr, Bool-cases, All, All-map, ◌⊎◌,
}
use meow_ny.Common.Error.{ok}
use meow_ny.Money.{max_minor}
use meow_ny.Store.{Who, Line, Db}
use meow_ny.Splits.Allocate.{allocate}
use meow_ny.Splits.Allocate.Shares.{allocate-sum}
use meow_ny.Splits.Lines.{Bill, line_amount, line_who, lines_sum}
use meow_ny.Splits.Lines.Counting.{Alone, DistinctWho}
use meow_ny.Splits.Lines.Exact.{IsBill, Fits, part_of}
use meow_ny.Splits.Bill.{bill, lines_of, kept, names, in_shared_order, my_weight, rescaled, rescale}
use meow_ny.Splits.Bill.Fair.{Apart, NearShare, amount_or_0, Fair, kept-Near}
use meow_ny.Splits.Bill.Kept.{kept-Fits}
use meow_ny.Splits.Bill.Write.{PartsOnly, Written, write_parts-Written}
use meow_ny.Splits.Bill.Shared.{Known, Indexed, in_shared_order_lem}

abbrev pairs : List Line → List (Who × ℕ)
pairs ls = map (λ (l : Line). (l.who, l.amount)) ls

names-pairs : (ls : List Line) → names (pairs ls) ≡ map line_who ls
names-pairs [] = refl
names-pairs (l ∷ ls) = ap (◌∷◌ l.who) (names-pairs ls)

pairs-Alone : (l : Line) (ls : List Line) → All (Apart l) ls → Alone l.who (pairs ls)
pairs-Alone l [] h = tt
pairs-Alone l (m ∷ ls) h = (h.0, pairs-Alone l ls h.1)

pairs-Distinct : (ls : List Line) → Indexed ls → DistinctWho (pairs ls)
pairs-Distinct [] h = tt
pairs-Distinct (l ∷ ls) h = (pairs-Alone l ls h.0, pairs-Distinct ls h.1)

length-pairs : (ls : List Line) → length (map line_amount ls) ≡ length (pairs ls)
length-pairs [] = refl
length-pairs (l ∷ ls) = ap suc (length-pairs ls)

abbrev who_amount : Line → Who × ℕ
who_amount l = (l.who, l.amount)

-- The parts after a change of the amount fit a bill of the new amount, and are fair shares of it.
pub rescaled-Fits :
    (b : Bill) (db : Db) (ls : List Line) (old_amount : ℕ)
    → 1 ≤ old_amount
    → lines_sum ls ≤ old_amount
    → length ls ≤ 30
    → Known db ls
    → Indexed ls
    → b.amount ≤ max_minor
    → (new : List (Who × ℕ)) × (rescaled db ls old_amount b.amount ≡ ok new)
      × Fits b new
      × Fair b.amount old_amount new ls
unfolding rescaled my_weight
rescaled-Fits b db ls old_amount some_old within few known apart small =
    let (ordered, made, distinct, count, total, back) = in_shared_order_lem db ls known apart in
    let mine = old_amount - lines_sum ordered in
    let weight : leb (lines_sum ordered) old_amount ≡ true = ground (arith, total) in
    let ws = map line_amount ordered in
    let (amounts, given, parts, _) = allocate-sum b.amount (mine ∷ ws) (omega (arith, total)) in
    let whole : mine + lines_sum ordered ≡ old_amount = omega (arith, total) in
    go ordered made distinct count total back weight amounts given parts whole
  where
    go :
        (ordered : List Line)
        → in_shared_order db ls ≡ ok ordered
        → Indexed ordered
        → length ordered ≡ length ls
        → lines_sum ordered ≡ lines_sum ls
        → ((P : Line → Type 0) → All P ordered → All P ls)
        → leb (lines_sum ordered) old_amount ≡ true
        → (amounts : List ℕ)
        → allocate (pos b.amount) ((old_amount - lines_sum ordered) ∷ map line_amount ordered)
          ≡ ok amounts
        → length amounts ≡ suc (length (map line_amount ordered))
        → (old_amount - lines_sum ordered) + lines_sum ordered ≡ old_amount
        → (new : List (Who × ℕ)) × (rescaled db ls old_amount b.amount ≡ ok new)
          × Fits b new
          × Fair b.amount old_amount new ls
    go ordered made distinct count total back weight [] given parts whole = absurd (omega arith)
    go ordered made distinct count total back weight (a ∷ amounts) given parts whole =
        let mine = old_amount - lines_sum ordered in
        let ws = map line_amount ordered in
        let fits =
          kept-Fits b mine (pairs ordered) ws (a ∷ amounts) small (pairs-Distinct ordered distinct)
            (omega (arith, length-map ordered who_amount, count)) (length-pairs ordered) given in
        let fair =
          kept-Near b.amount mine ordered a amounts distinct given
            (omega (arith, length-map ordered line_amount)) in
        (
          kept (map line_who ordered) amounts,
          ground (arith, made, given, weight),
          rw (← names-pairs ordered) fits.0,
          back _ (
              subst (λ n. Fair b.amount n (kept (map line_who ordered) amounts) ordered) whole
                fair),
        )

-- Rescaling the parts of a bill that keeps the rules, from the amount that they stand under to one
-- that the bill has room for now, is refused by no check of the database. Everybody who had a part
-- has its share of the new amount, rounded down or one cent more (a part of 0 is not stored), the
-- parts are together never more than the new amount, they keep the rules, and nothing else changes.
-- A bill without parts stays as it is, and otherwise the parts are those that `rescaled` works out.
pub rescale-Written :
    (b : Bill) (db : Db) (id old_amount new_amount : ℕ)
    → bill db id ≡ ok b
    → b.income ≡ false
    → IsBill b (lines_of db id)
    → 1 ≤ old_amount
    → lines_sum (lines_of db id) ≤ old_amount
    → Known db (lines_of db id)
    → Indexed (lines_of db id)
    → new_amount ≤ b.amount
    → b.amount ≤ max_minor
    → (after : Db) × (rescale db id old_amount new_amount ≡ ok after)
      × (lines_sum (lines_of after id) ≤ new_amount)
      × PartsOnly b db id after
      × All
          (λ (l : Line).
            NearShare new_amount old_amount l.amount
              (amount_or_0 (part_of (lines_of after id) l.who)))
          (lines_of db id)
      × (((lines_of db id ≡ []) × (after ≡ db))
          ⊎ ((new : List (Who × ℕ)) × (rescaled db (lines_of db id) old_amount new_amount ≡ ok new)
              × Written b db id new after))
unfolding rescale lines_of
rescale-Written b db id old_amount new_amount e expense now some_old within known apart room small =
    elim (Bool-cases (length (lines_of db id) == 0)) [
      | inl empty ↦
          let gone = nil_of_length (lines_of db id) (ground arith) in
          (
            db,
            ground arith,
            rw gone (omega arith),
            record {
              is_bill = now;
              row = λ t there. ground arith;
              others = λ j ne. refl;
              same_bill = refl;
              rest = refl;
            },
            subst (All (near_in db)) (sym gone) tt,
            inl (gone, refl),
          )
      | inr parts ↦
          let few = now.at_most_30 in
          let (new, made, fits, fair) =
            rescaled-Fits (record b { amount = new_amount }) db (lines_of db id) old_amount some_old
              within few known apart (omega arith) in
          let in_new = fits.total in
          let in_bill : Fits b new = record {
            in_range = fits.in_range;
            distinct = fits.distinct;
            count = fits.count;
            total = omega arith;
          } in
          let (after, stored, written) = write_parts-Written b db id new e expense now in_bill in
          (
            after,
            ground arith,
            omega (arith, written.total),
            written.only,
            All-map _ (near_in after)
                (λ l near.
                  subst (λ w. NearShare new_amount old_amount l.amount (amount_or_0 w))
                    (sym (written.parts l.who)) near)
                (lines_of db id) fair,
            inr (new, made, written),
          )
    ]
  where
    near_in : Db → Line → Type 0
    near_in d l =
        NearShare new_amount old_amount l.amount (amount_or_0 (part_of (lines_of d id) l.who))

    nil_of_length : (ls : List Line) → length ls ≡ 0 → ls ≡ []
    nil_of_length [] h = refl
    nil_of_length (l ∷ ls) h = absurd (omega arith)
