-- ===== src/Splits/Bill.antt =====
-- How a bill is shared: `preview`, `bill`, `lines_of`, `people_on`, `set_split`, `clear_split`,
-- `rescale` and `replace_lines` of src-tauri/src/debts/splits.rs, and the view `transaction_costs`. An
-- operation that runs in a database transaction gives the tables that it commits; one that fails
-- leaves them as they were.
pub mod Fair
pub mod Kept
pub mod Rescale
pub mod Set
pub mod Shared
pub mod Write
use meow_ny.Common.{
  ℕ, suc, ◌+◌, ◌-◌, ◌*◌, ◌/◌, ◌^◌, ◌≡◌, Bool, true, false, not, ◌&&◌, ◌||◌, Option, none, some,
  List, [], ◌∷◌, ltb, leb, ◌==◌, if◌then◌else◌, all, any, length, map, sum, drop, get_or,
}
use meow_ny.Common.Int.{ℤ, pos, ◌-ℤ◌, is_zero}
use meow_ny.Common.Text.{Text, text_leb}
use meow_ny.Common.Decimal.{show}
use meow_ny.Common.Sort.{sort}
use meow_ny.Common.Error.{
  Result, ok, err, invalid_input, not_found, internal, ◌>>=◌, ◌>>◌, fail_if, ok_or, traverse,
}
use meow_ny.Money.{max_minor, format_amount}
use meow_ny.Store.{
  Who, person, guest, Line, Category, CategoryType, income, expense, Person, Transaction, Db,
}
use meow_ny.Store.Table.{find, update}
use meow_ny.Splits.Allocate.{allocate}
use meow_ny.Splits.Lines.{Bill, line_amount, line_who, lines_sum, write_lines}
use meow_ny.Splits.Input.{
  Mode, equal, percent, shares, exact, SplitInput, Weights, percent_whole, weights, all_weights,
}

abbrev pub transaction_id : Transaction → ℕ
transaction_id t = t.id

abbrev pub category_key : Category → ℕ
category_key c = c.id

abbrev pub person_key : Person → ℕ
person_key p = p.id

abbrev pub is_income : CategoryType → Bool
is_income income = true
is_income expense = false

-- The row of the bill, joined with its category.
unfoldable pub bill : Db → ℕ → Result Bill
unfolding find
bill db id = elim (find transaction_id id db.transactions) [
  | none ↦ err not_found
  | some t ↦ elim (find category_key t.category_id db.categories) [
    | none ↦ err not_found
    | some c ↦ ok (record { amount = t.amount; income = is_income c.kind; applying = db.applying })
  ]
]

unfoldable pub lines_of : Db → ℕ → List Line
unfolding find
lines_of db id = elim (find transaction_id id db.transactions) [ none ↦ [] | some t ↦ t.lines ]

unfoldable pub line_count : Db → ℕ → ℕ
unfolding lines_of
line_count db id = length (lines_of db id)

unfoldable pub people_of : List Line → List ℕ
people_of [] = []
people_of (l ∷ ls) = elim l.who [ person id ↦ id ∷ people_of ls | guest _ ↦ people_of ls ]

unfoldable pub people_on : Db → ℕ → List ℕ
unfolding people_of lines_of
people_on db id = people_of (lines_of db id)

-- `t.amount_minor - COALESCE(SUM(l.amount_minor), 0)`: what a transaction costs you.
abbrev pub cost : Transaction → ℤ
cost t = pos t.amount -ℤ pos (lines_sum t.lines)

abbrev pub with_lines : List Line → Transaction → Transaction
with_lines ls t = record t { lines = ls }

-- The statements of `write_lines` on the parts of one bill; those of the others are not touched.
unfoldable pub write_parts : Db → ℕ → List (Who × ℕ) → Result Db
unfolding bill lines_of write_lines update
write_parts db id new = do
  b ← bill db id
  table ← write_lines b new (lines_of db id)
  ok (record db { transactions = update transaction_id id (with_lines table) db.transactions })

-- `w.others.into_iter().zip(&amounts[1..]).filter(|(_, amount)| **amount > 0)`
unfoldable pub kept : List Who → List ℕ → List (Who × ℕ)
kept [] amounts = []
kept (w ∷ ws) [] = []
kept (w ∷ ws) (a ∷ amounts) = let rest = kept ws amounts in if ltb 0 a then (w, a) ∷ rest else rest

abbrev pub names : List (Who × ℕ) → List Who
names os = map (λ (o : Who × ℕ). o.0) os

-- The parts that a split of a bill stands for.
unfoldable pub split_lines : ℕ → Weights → Result (List (Who × ℕ))
unfolding kept allocate
split_lines amount w =
    if not (is_zero w.left)
    then err invalid_input
    else allocate (pos amount) (all_weights w) >>= λ amounts.
        let lines = kept (names w.others) (drop 1 amounts) in
        if length lines == 0 then err invalid_input else ok lines

module _ (to_lowercase : Text → Text) where
  unfoldable pub set_split : Db → ℕ → SplitInput → Result Db
  unfolding bill weights people_on split_lines write_parts
  set_split db id input = do
    b ← bill db id
    fail_if b.income invalid_input
    w ← weights to_lowercase db input (some b.amount) (people_on db id)
    lines ← split_lines b.amount w
    write_parts db id lines

unfoldable pub clear_split : Db → ℕ → Result Db
unfolding bill update
clear_split db id = bill db id >>= λ _.
    ok (record db { transactions = update transaction_id id (with_lines []) db.transactions })

-- A part as it is shown, and the preview.
pub record PartOut : Type 0 where
  pub person_id : Option Text
  pub person : Option Text
  pub guest : Option Text
  pub amount : Text

pub record Preview : Type 0 where
  pub complete : Bool
  pub left : Text
  pub mine : Text
  pub parts : List PartOut

unfoldable pub part_out : Db → Who × ℕ → Result PartOut
unfolding find
part_out db (person id, amount) = elim (find person_key id db.people) [
  | none ↦ err internal
  | some p ↦ ok (record {
    person_id = some (show id);
    person = some p.name;
    guest = none;
    amount = format_amount (pos amount);
  })
]
part_out db (guest name, amount) = ok (record {
  person_id = none;
  person = none;
  guest = some name;
  amount = format_amount (pos amount);
})

-- What is shown for a weight while the numbers do not add up yet.
unfoldable pub shown : Mode → ℕ → ℕ → ℕ
shown percent total weight = total * weight / percent_whole
shown _ total weight = weight

abbrev pub zip : List Who → List ℕ → List (Who × ℕ)
zip [] amounts = []
zip (w ∷ ws) [] = []
zip (w ∷ ws) (a ∷ amounts) = (w, a) ∷ zip ws amounts

module _ (to_lowercase : Text → Text) where
  unfoldable pub preview : Db → ℕ → SplitInput → Result Preview
  unfolding weights shown part_out allocate
  preview db total input = fail_if (not (leb 1 total && leb total max_minor)) invalid_input >>= λ _.
      weights to_lowercase db input (some total) [] >>= λ w.
      (if is_zero w.left
        then allocate (pos total) (all_weights w)
        else ok (map (shown input.mode total) (all_weights w)))
      >>= λ amounts. traverse (part_out db) (zip (names w.others) (drop 1 amounts)) >>= λ parts.
          ok (record {
            complete = is_zero w.left;
            left = format_amount w.left;
            mine = format_amount (pos (get_or amounts 0 0));
            parts = parts;
          })

-- The order that two devices share: friends by their sync id, then guests by name.
unfoldable pub key_of : Db → Who → Result (ℕ × Text)
unfolding find
key_of db (person id) = elim (find person_key id db.people) [
  | none ↦ err internal
  | some p ↦ ok (0, p.sync_id)
]
key_of db (guest name) = ok (1, name)

abbrev pub keyed : Db → Line → Result ((ℕ × Text) × Line)
keyed db l = key_of db l.who >>= λ k. ok (k, l)

-- `keys[*a].cmp(&keys[*b])` is not `Greater`; the sort is stable.
abbrev pub key_not_after : (ℕ × Text) × Line → (ℕ × Text) × Line → Bool
key_not_after ((n, s), _) ((m, t), _) = ltb n m || ((n == m) && text_leb s t)

unfoldable pub in_shared_order : Db → List Line → Result (List Line)
unfolding key_of sort
in_shared_order db lines = traverse (keyed db) lines >>= λ keys.
    ok (map (λ (k : (ℕ × Text) × Line). k.1) (sort key_not_after keys))

-- `(old_amount - others) as u64`: a difference below 0 wraps around.
unfoldable pub my_weight : ℕ → ℕ → ℕ
my_weight old_amount others =
    if leb others old_amount then old_amount - others else 2 ^ 64 - (others - old_amount)

-- The parts of a bill after its amount changed.
unfoldable pub rescaled : Db → List Line → ℕ → ℕ → Result (List (Who × ℕ))
unfolding in_shared_order my_weight allocate kept
rescaled db lines old_amount new_amount = do
  ordered ← in_shared_order db lines
  amounts ←
      allocate (pos new_amount) (my_weight old_amount (lines_sum ordered) ∷ map line_amount ordered)
  ok (kept (map line_who ordered) (drop 1 amounts))

unfoldable pub rescale : Db → ℕ → ℕ → ℕ → Result Db
unfolding lines_of rescaled write_parts
rescale db id old_amount new_amount =
    if length (lines_of db id) == 0
    then ok db
    else rescaled db (lines_of db id) old_amount new_amount >>= λ lines. write_parts db id lines

unfoldable pub replace_lines : Db → ℕ → List (Who × ℕ) → Result Db
unfolding write_parts
replace_lines db id new = write_parts db id new
