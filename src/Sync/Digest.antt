-- ===== src/Sync/Digest.antt =====
-- What each device holds: src-tauri/src/sync/engine.rs, `Digest` with `digest` and `to_send`. A
-- BTreeMap by `sync_id` is the list of its entries in the order of their ids.
pub mod Entries
use meow_ny.Common.{
  ◌≡◌, ◌≢◌, refl, Bool, true, false, not, ◌||◌, Option, none, some, List, [], ◌∷◌, arith, map, All,
  if◌then◌else◌,
}
use meow_ny.Common.Text.{Text, text_eq, text_leb}
use meow_ny.Common.Order.{text_ltb}
use meow_ny.Sync.{
  Table, settings, categories, people, recurring_transactions, budgets, transactions,
  ledger_entries, documents, document_links, table_eq, codes,
}

-- `(sync_id, (stamp, deleted))`
pub record Entry : Type 0 where
  pub sync_id : Text
  pub stamp : Text
  pub deleted : Bool

abbrev pub Entries : Type 0
Entries = List Entry

-- `BTreeMap::get`
unfoldable pub get : Text → Entries → Option Entry
get id [] = none
get id (e ∷ es) = if text_eq e.sync_id id then some e else get id es

-- `BTreeMap::insert`
unfoldable pub insert : Entry → Entries → Entries
insert e [] = e ∷ []
insert e (x ∷ xs) =
    if text_eq e.sync_id x.sync_id
    then e ∷ xs
    else if text_leb e.sync_id x.sync_id
    then e ∷ x ∷ xs
    else x ∷ insert e xs

-- The ids stand in their order, each once.
abbrev pub IsOrdered : Entries → Type 0
IsOrdered [] = Unit
IsOrdered (e ∷ es) = All (λ f. text_ltb e.sync_id f.sync_id ≡ true) es × IsOrdered es

abbrev pub Digest : Type 0
Digest = Table → Option Entries

abbrev pub empty : Digest
empty t = none

unfoldable pub put : Table → Entries → Digest → Digest
put t es d s = if table_eq t s then some es else d s

-- `.get(&table).unwrap_or(&empty)`
abbrev pub entries_or : Option Entries → Entries
entries_or none = []
entries_or (some es) = es

abbrev pub entries : Digest → Table → Entries
entries d t = entries_or (d t)

-- A row of `sync_deleted`.
pub record Deleted : Type 0 where
  pub sync_id : Text
  pub kind : Table
  pub stamp : Text

-- What the lists are read from: the stamp of the settings, the id and the stamp of every row of a
-- table, and the markers.
pub record Holdings : Type 0 where
  pub settings_stamp : Option Text
  pub rows : Table → List (Text × Text)
  pub markers : List Deleted

-- `LISTED`
abbrev pub listed : List Table
listed =
    categories ∷ people ∷ recurring_transactions ∷ budgets ∷ transactions ∷ ledger_entries
    ∷ documents ∷ document_links ∷ []

unfoldable pub insert_rows : List (Text × Text) → Entries → Entries
unfolding insert
insert_rows [] es = es
insert_rows ((id, stamp) ∷ rows) es =
    insert_rows rows (insert (record { sync_id = id; stamp = stamp; deleted = false }) es)

-- Whether the entry that is there counts, and not the marker.
abbrev pub stays : Text → Option Entry → Bool
stays stamp none = false
stays stamp (some e) = text_leb stamp e.stamp

unfoldable pub insert_markers : Table → List Deleted → Entries → Entries
unfolding insert get
insert_markers t [] es = es
insert_markers t (m ∷ ms) es = insert_markers t ms (
    if not (table_eq m.kind t) || stays m.stamp (get m.sync_id es)
    then es
    else insert (record { sync_id = m.sync_id; stamp = m.stamp; deleted = true }) es)

abbrev pub listing : Holdings → Table → Entries
listing h t = insert_markers t h.markers (insert_rows (h.rows t) [])

abbrev pub settings_listing : Option Text → Entries
settings_listing none = []
settings_listing (some stamp) =
    record { sync_id = codes "settings"; stamp = stamp; deleted = false } ∷ []

abbrev pub put_listings : Holdings → List Table → Digest → Digest
put_listings h [] d = d
put_listings h (t ∷ ts) d = put_listings h ts (put t (listing h t) d)

unfoldable pub digest : Holdings → Digest
unfolding put insert_markers insert_rows
digest h = put_listings h listed (put settings (settings_listing h.settings_stamp) empty)

-- Whether the other side lacks the entry, or has it older.
abbrev pub lacks : Option Entry → Entry → Bool
lacks none e = true
lacks (some other) e = text_ltb other.stamp e.stamp

unfoldable pub newer_than : Entries → Entries → List Text
unfolding get
newer_than theirs [] = []
newer_than theirs (e ∷ mine) =
    let rest = newer_than theirs mine in
    if lacks (get e.sync_id theirs) e then e.sync_id ∷ rest else rest

-- Which ids this side has to send.
unfoldable pub to_send : Digest → Digest → Table → List Text
unfolding newer_than
to_send mine theirs t = newer_than (entries theirs t) (entries mine t)
