-- ===== src/Splits/Template.antt =====
-- The split of a recurring item, kept as weights: `set_template`, `clear_template`, `apply_template`,
-- `replace_template` and `my_part` of src-tauri/src/debts/splits.rs, with the checks of the database on
-- `recurring_split_lines` (src-tauri/migrations/0012_debts.sql).
pub mod Apply
use meow_ny.Common.{
  ℕ, Bool, true, false, not, ◌&&◌, Option, none, some, List, [], ◌∷◌, ◌++◌, ltb, leb, ◌==◌,
  if◌then◌else◌, all, any, length, map, drop, get_or,
}
use meow_ny.Common.Int.{pos, is_zero}
use meow_ny.Common.Text.{Text}
use meow_ny.Common.Error.{Result, ok, err, invalid_input, not_found, internal, ◌>>=◌, ◌>>◌, fail_if}
use meow_ny.Money.{max_minor}
use meow_ny.Store.{Who, person, guest, who_eq, who_conflict, TemplateLine, Recurring, Db}
use meow_ny.Store.Table.{find, update}
use meow_ny.Splits.Allocate.{allocate}
use meow_ny.Splits.Input.{SplitInput, weights}
use meow_ny.Splits.Bill.{category_key, is_income, kept, write_parts}

abbrev pub recurring_key : Recurring → ℕ
recurring_key r = r.id

abbrev pub template_who : TemplateLine → Who
template_who l = l.who

abbrev pub template_weight : TemplateLine → ℕ
template_weight l = l.weight

unfoldable pub template_lines : Db → ℕ → List TemplateLine
unfolding find
template_lines db id = elim (find recurring_key id db.recurring) [ none ↦ [] | some r ↦ r.template ]

-- The weights that `allocate` takes of the items that are split, as `all_template_weights` lists them.
unfoldable pub all_template_weights : List Recurring → List (ℕ × List ℕ)
all_template_weights [] = []
all_template_weights (r ∷ rs) = elim r.my_weight [
  | none ↦ all_template_weights rs
  | some mine ↦ (r.id, mine ∷ map template_weight r.template) ∷ all_template_weights rs
]

unfoldable pub my_part : ℕ → List ℕ → Result ℕ
unfolding allocate
my_part amount weights = allocate (pos amount) weights >>= λ amounts. ok (get_or amounts 0 0)

unfoldable pub template_people : List TemplateLine → List ℕ
template_people [] = []
template_people (l ∷ ls) = elim l.who [
  | person id ↦ id ∷ template_people ls
  | guest _ ↦ template_people ls
]

abbrev pub in_weight_range : ℕ → Bool
in_weight_range w = leb 1 w && leb w max_minor

-- `INSERT INTO recurring_split_lines ..`, on the lines and the item that they belong to.
unfoldable pub insert_template_line :
    Bool → Bool → Option ℕ → Who × ℕ → List TemplateLine → Result (List TemplateLine)
insert_template_line applying income mine (who, weight) ls = do
  fail_if (not (in_weight_range weight)) internal
  fail_if (not applying && leb 30 (length ls)) internal
  fail_if (not applying && elim mine [ none ↦ true | some _ ↦ false ]) internal
  fail_if (not applying && income) internal
  fail_if (any (λ (l : TemplateLine). who_conflict l.who who) ls) internal
  ok (ls ++ record { who = who; weight = weight } ∷ [])

unfoldable pub insert_template :
    Bool → Bool → Option ℕ → List (Who × ℕ) → List TemplateLine → Result (List TemplateLine)
unfolding insert_template_line
insert_template applying income mine [] ls = ok ls
insert_template applying income mine (new ∷ rest) ls =
    insert_template_line applying income mine new ls >>= λ ls'.
    insert_template applying income mine rest ls'

-- `SELECT .. FROM recurring_transactions r JOIN categories c ..`
unfoldable pub item_of : Db → ℕ → Result (Recurring × Bool)
unfolding find
item_of db id = elim (find recurring_key id db.recurring) [
  | none ↦ err not_found
  | some r ↦ elim (find category_key r.category_id db.categories) [
    | none ↦ err not_found
    | some c ↦ ok (r, is_income c.kind)
  ]
]

abbrev pub set_item_template : Option ℕ → List TemplateLine → Recurring → Recurring
set_item_template mine ls r = record r { my_weight = mine; template = ls }

abbrev pub with_template : Db → ℕ → Option ℕ → List TemplateLine → Db
unfolding update
with_template db id mine ls = record db {
  recurring = update recurring_key id (set_item_template mine ls) db.recurring;
}

-- `filter(|(_, weight)| *weight > 0)`
unfoldable pub weighted : List (Who × ℕ) → List (Who × ℕ)
weighted [] = []
weighted ((w, a) ∷ os) = let rest = weighted os in if ltb 0 a then (w, a) ∷ rest else rest

module _ (to_lowercase : Text → Text) where
  unfoldable pub set_template : Db → ℕ → SplitInput → Result Db
  unfolding item_of weights template_people weighted insert_template
  set_template db id input = do
    (r, income) ← item_of db id
    fail_if income invalid_input
    w ← weights to_lowercase db input r.amount (template_people r.template)
    fail_if (not (is_zero w.left)) invalid_input
    fail_if (length (weighted w.others) == 0) invalid_input
    fail_if (ltb max_minor w.mine) internal
    ls ← insert_template db.applying income (some w.mine) (weighted w.others) []
    ok (with_template db id (some w.mine) ls)

unfoldable pub clear_template : Db → ℕ → Result Db
unfolding find
clear_template db id = elim (find recurring_key id db.recurring) [
  | none ↦ err not_found
  | some _ ↦ ok (with_template db id none [])
]

-- Splits a payment that was just made from a recurring item.
unfoldable pub apply_template : Db → ℕ → ℕ → ℕ → Result Db
unfolding find allocate kept write_parts
apply_template db transaction_id recurring_id amount =
    elim (find recurring_key recurring_id db.recurring) [
      | none ↦ err internal
      | some r ↦ elim r.my_weight [
        | none ↦ ok db
        | some mine ↦ allocate (pos amount) (mine ∷ map template_weight r.template) >>= λ amounts.
            write_parts db transaction_id (kept (map template_who r.template) (drop 1 amounts))
      ]
    ]

-- `b.contains(x)`, and the two lists as sets of the same size.
abbrev pub has_line : List (Who × ℕ) → Who × ℕ → Bool
has_line ls (who, weight) = any (λ (l : Who × ℕ). who_eq l.0 who && (l.1 == weight)) ls

abbrev pub same_template : List (Who × ℕ) → List (Who × ℕ) → Bool
same_template a b = (length a == length b) && all (has_line b) a

abbrev pub template_pairs : List TemplateLine → List (Who × ℕ)
template_pairs ls = map (λ (l : TemplateLine). (l.who, l.weight)) ls

abbrev pub same_weight : Option ℕ → Option ℕ → Bool
same_weight none none = true
same_weight (some a) (some b) = a == b
same_weight _ _ = false

-- A sync brings the template with the item: `none` takes the split off.
unfoldable pub replace_template : Db → ℕ → Option (ℕ × List (Who × ℕ)) → Result Db
unfolding find item_of insert_template
replace_template db id template = elim (find recurring_key id db.recurring) [
  | none ↦ err internal
  | some r ↦ elim template [
    | none ↦ ok (with_template db id none [])
    | some (mine, lines) ↦
        if same_weight r.my_weight (some mine) && same_template (template_pairs r.template) lines
        then ok db
        else fail_if (ltb max_minor mine) internal >>= λ _.
            if same_template (template_pairs r.template) lines
            then ok (with_template db id (some mine) r.template)
            else item_of db id >>= λ (_, income).
                insert_template db.applying income (some mine) lines [] >>= λ ls.
                ok (with_template db id (some mine) ls)
  ]
]
