-- ===== src/Sync/Conflicts.antt =====
-- Rows that both devices changed since they last met: `conflict_threshold`, `conflicts` and
-- `conflict_tables` of src-tauri/src/sync/engine.rs.
pub mod Symmetric
use meow_ny.Common.{
  ℕ, ◌-◌, max, Bool, true, false, not, ◌&&◌, ◌||◌, Option, none, some, List, [], ◌∷◌, ◌++◌, length,
  take, any, ltb, if◌then◌else◌,
}
use meow_ny.Common.Text.{Text, text_eq}
use meow_ny.Stamp.{Stamp, parse}
use meow_ny.Sync.{Table, table_eq, all_tables, has_table}
use meow_ny.Sync.Digest.{Entry, Entries, get, Digest, entries}

abbrev pub max_conflicts : ℕ
max_conflicts = 200

pub record Conflict : Type 0 where
  pub table : Table
  pub id : Text
  pub mine_stamp : Text
  pub mine_deleted : Bool
  pub theirs_stamp : Text
  pub theirs_deleted : Bool

abbrev pub conflict_threshold : Option ℕ → Option ℕ → Option ℕ
conflict_threshold (some a) (some b) = some (max a b)
conflict_threshold (some a) none = some a
conflict_threshold none (some a) = some a
conflict_threshold none none = none

abbrev is_later : ℕ → Option Stamp → Bool
is_later threshold none = false
is_later threshold (some s) = ltb threshold s.ms

-- `after`: the stamp can be read and is later than the threshold.
unfoldable pub after : ℕ → Text → Bool
after threshold stamp = is_later threshold (parse stamp)

abbrev pub bool_eq : Bool → Bool → Bool
bool_eq true b = b
bool_eq false b = not b

-- The two versions differ, are not both deletions, and both are changes since then.
unfoldable pub differ : ℕ → Entry → Entry → Bool
unfolding after
differ threshold a b =
    not (text_eq a.stamp b.stamp && bool_eq a.deleted b.deleted)
    && not (a.deleted && b.deleted)
    && (after threshold a.stamp && after threshold b.stamp)

abbrev pub conflict : Table → Entry → Entry → Conflict
conflict t a b = record {
  table = t;
  id = a.sync_id;
  mine_stamp = a.stamp;
  mine_deleted = a.deleted;
  theirs_stamp = b.stamp;
  theirs_deleted = b.deleted;
}

abbrev pub found_for : ℕ → Table → Entry → Option Entry → List Conflict → List Conflict
found_for threshold t a none rest = rest
found_for threshold t a (some b) rest = if differ threshold a b then conflict t a b ∷ rest else rest

-- The loop over the entries of a table.
unfoldable pub found_in : ℕ → Table → Entries → Entries → List Conflict
unfolding differ get
found_in threshold t [] theirs = []
found_in threshold t (a ∷ mine) theirs =
    found_for threshold t a (get a.sync_id theirs) (found_in threshold t mine theirs)

unfoldable pub found_all : ℕ → Digest → Digest → List Table → List Table → List Conflict
unfolding found_in
found_all threshold mine theirs tables [] = []
found_all threshold mine theirs tables (t ∷ ts) =
    (if has_table t tables then found_in threshold t (entries mine t) (entries theirs t) else [])
    ++ found_all threshold mine theirs tables ts

unfoldable pub conflicts : Digest → Digest → List Table → Option ℕ → List Conflict × ℕ
unfolding found_all
conflicts mine theirs tables none = ([], 0)
conflicts mine theirs tables (some threshold) =
    let found = found_all threshold mine theirs tables all_tables in
    (take max_conflicts found, length found - max_conflicts)

abbrev tables_with : List Conflict → List Table → List Table
tables_with cs [] = []
tables_with cs (t ∷ ts) =
    let rest = tables_with cs ts in if any (λ c. table_eq c.table t) cs then t ∷ rest else rest

-- The tables the conflicts are in, in sending order.
unfoldable pub conflict_tables : List Conflict → List Table
conflict_tables cs = tables_with cs all_tables
