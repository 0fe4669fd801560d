-- ===== src/Splits/Check.antt =====
-- The finished state (`check` of src-tauri/src/debts/splits.rs): the rules of the parts and of the
-- templates, looked at as a whole.
use meow_ny.Common.{
  ℕ, ◌+◌, Bool, false, not, ◌&&◌, ◌||◌, none, some, leb, ◌==◌, all, length, map, sum,
}
use meow_ny.Store.{Transaction, Recurring, Db}
use meow_ny.Store.Table.{find}
use meow_ny.Splits.Lines.{lines_sum}
use meow_ny.Splits.Bill.{category_key, is_income}
use meow_ny.Splits.Template.{template_weight}

-- `c.type = 'INCOME'` of the category of a row
unfoldable pub of_income : Db → ℕ → Bool
unfolding find
of_income db id = elim (find category_key id db.categories) [
  | none ↦ false
  | some c ↦ is_income c.kind
]

-- The first three queries find nothing at the transaction.
unfoldable pub transaction_ok : Db → Transaction → Bool
unfolding of_income
transaction_ok db t =
    leb (lines_sum t.lines) t.amount
    && leb (length t.lines) 30
    && ((length t.lines == 0) || not (of_income db t.category_id))

-- The other four find nothing at the recurring item.
unfoldable pub recurring_ok : Db → Recurring → Bool
unfolding of_income
recurring_ok db r = leb (length r.template) 30 && elim r.my_weight [
  | none ↦ length r.template == 0
  | some mine ↦
      not (of_income db r.category_id) && not (mine + sum (map template_weight r.template) == 0)
]

unfoldable pub check : Db → Bool
unfolding transaction_ok recurring_ok
check db = all (transaction_ok db) db.transactions && all (recurring_ok db) db.recurring
