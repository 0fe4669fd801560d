-- ===== src/Splits/Input.antt =====
-- A split as it is typed, and the weights that it stands for: `parse_weight`, `who_of`, `weights` and
-- `all_weights` of src-tauri/src/debts/splits.rs. `to_lowercase` of the standard library is a
-- parameter, since Unicode's tables are not part of the program.
pub mod Named
pub mod Weighed
use meow_ny.Common.{
  ℕ, ◌+◌, ◌-◌, ◌≡◌, Bool, true, false, not, ◌&&◌, ◌||◌, Option, none, some, List, [], ◌∷◌, ltb, leb,
  ◌==◌, if◌then◌else◌, all, any, length, map, sum,
}
use meow_ny.Common.Int.{ℤ, pos, ◌-ℤ◌}
use meow_ny.Common.Text.{Text, utf8_len, is_digit, is_empty, text_eq}
use meow_ny.Common.Decimal.{value}
use meow_ny.Common.Error.{Result, ok, err, invalid_input, ◌>>=◌, ◌>>◌, fail_if, ok_or}
use meow_ny.Money.{parse_amount}
use meow_ny.Fields.{parse_id, clean_name}
use meow_ny.Store.{Who, person, guest, Person, Db}
use meow_ny.Store.Table.{find}

pub data Mode : Type 0 where
  equal percent shares exact : Mode

pub record Part : Type 0 where
  pub person_id : Option Text
  pub guest : Option Text
  pub value : Option Text

pub record SplitInput : Type 0 where
  pub mode : Mode
  pub mine : Option Text
  pub parts : List Part

pub record Weights : Type 0 where
  pub mine : ℕ
  pub others : List (Who × ℕ)
  pub left : ℤ

abbrev pub max_lines : ℕ
max_lines = 30

abbrev pub percent_whole : ℕ
percent_whole = 10_000

abbrev pub is_some {ℓ} : {A : Type ℓ} → Option A → Bool
is_some none = false
is_some (some _) = true

unfoldable pub parse_weight : Mode → Text → Result ℕ
parse_weight Mode.equal text = err invalid_input
parse_weight Mode.shares text =
    if is_empty text || ltb 12 (utf8_len text) || not (all is_digit text)
    then err invalid_input
    else if ltb (value text) 0x10000000000000000
    then ok (value text)
    else err invalid_input
parse_weight Mode.percent text = do
  hundredths ← parse_amount text
  if ltb percent_whole hundredths then err invalid_input else ok hundredths
parse_weight Mode.exact text = parse_amount text

-- `SELECT archived FROM people WHERE id = ? AND merged_into IS NULL`
unfoldable pub archived_of : Db → ℕ → Option Bool
unfolding find
archived_of db id = elim (find (λ (p : Person). p.id) id db.people) [
  | none ↦ none
  | some p ↦ if p.merged then none else some p.archived
]

-- A friend of the split is there, and is not archived unless they are on it already.
unfoldable pub check_person : Db → List ℕ → ℕ → Result (Unit {0})
check_person db keep id = elim (archived_of db id) [
  | none ↦ err invalid_input
  | some archived ↦ if archived && not (any (λ k. k == id) keep) then err invalid_input else ok tt
]

-- The weights that are typed, person by person.
unfoldable pub typed_weights : Mode → List Who → List Part → Result (List (Who × ℕ))
typed_weights mode [] ps = ok []
typed_weights mode (w ∷ ws) [] = ok []
typed_weights mode (w ∷ ws) (p ∷ ps) = ok_or p.value invalid_input >>= λ text.
    parse_weight mode text >>= λ weight.
    typed_weights mode ws ps >>= λ rest. ok ((w, weight) ∷ rest)

-- What the typed numbers must add up to, in the modes that have such a number.
unfoldable pub whole_of : Mode → Option ℕ → Result (Option ℕ)
whole_of Mode.percent whole = ok (some percent_whole)
whole_of Mode.exact whole = ok_or whole invalid_input >>= λ n. ok (some n)
whole_of _ whole = ok none

-- Your own weight: typed, or (`(total - typed).max(0)`) the rest.
unfoldable pub my_weight : Mode → Option Text → Option ℕ → ℕ → Result ℕ
my_weight mode (some text) total typed = parse_weight mode text
my_weight mode none (some total) typed = ok (total - typed)
my_weight mode none none typed = err invalid_input

unfoldable pub left_of : Option ℕ → ℕ → ℕ → ℤ
left_of (some total) typed mine = pos total -ℤ pos typed -ℤ pos mine
left_of none typed mine = pos 0

abbrev pub weight_of : Who × ℕ → ℕ
weight_of (_, w) = w

unfoldable pub weighed : Mode → SplitInput → Option ℕ → List Who → Result Weights
weighed mode input whole who = do
  others ← typed_weights mode who input.parts
  total ← whole_of mode whole
  mine ← my_weight mode input.mine total (sum (map weight_of others))
  fail_if ((mine == 0) && all (λ (o : Who × ℕ). o.1 == 0) others) invalid_input
  ok (record {
    mine = mine;
    others = others;
    left = left_of total (sum (map weight_of others)) mine;
  })

unfoldable pub even : SplitInput → List Who → Result Weights
even input who =
    if is_some input.mine || any (λ (p : Part). is_some p.value) input.parts
    then err invalid_input
    else ok (record { mine = 1; others = map (λ w. (w, 1)) who; left = pos 0 })

module _ (to_lowercase : Text → Text) where
  -- The loop of `who_of`, with the people and the guests (in lower case) seen so far.
  unfoldable pub who_loop : Db → List ℕ → List ℕ → List Text → List Part → Result (List Who)
  who_loop db keep people guests [] = ok []
  who_loop db keep people guests (p ∷ ps) = elim p.person_id [
    | some id_text ↦ elim p.guest [
      | some _ ↦ err invalid_input
      | none ↦ parse_id id_text >>= λ id. check_person db keep id >>= λ _.
          fail_if (any (λ k. k == id) people) invalid_input >>= λ _.
          who_loop db keep (id ∷ people) guests ps >>= λ rest. ok (person id ∷ rest)
    ]
    | none ↦ elim p.guest [
      | none ↦ err invalid_input
      | some name_text ↦ clean_name name_text >>= λ name.
          fail_if (any (λ k. text_eq k (to_lowercase name)) guests) invalid_input >>= λ _.
          who_loop db keep people (to_lowercase name ∷ guests) ps >>= λ rest. ok (guest name ∷ rest)
    ]
  ]

  unfoldable pub who_of : Db → List ℕ → List Part → Result (List Who)
  unfolding who_loop
  who_of db keep parts =
      if (length parts == 0) || ltb max_lines (length parts)
      then err invalid_input
      else who_loop db keep [] [] parts

  unfoldable pub weights : Db → SplitInput → Option ℕ → List ℕ → Result Weights
  unfolding who_of weighed even
  weights db input whole keep = who_of db keep input.parts >>= λ who. elim input.mode [
    | Mode.equal ↦ even input who
    | mode ↦ weighed mode input whole who
  ]

abbrev pub all_weights : Weights → List ℕ
all_weights w = w.mine ∷ map (λ (o : Who × ℕ). o.1) w.others
