-- ===== src/Sync/Documents.antt =====
-- The documents and their links in a sync: `documents`, `links` and `markers` of `Applier` in
-- src-tauri/src/sync/engine.rs, with the helpers that they share, and what is sent (`load_rows` and
-- `load_markers`). The other tables are read for the ids of their rows only.
pub mod Rows
pub mod Held
pub mod Step
pub mod Merge
pub mod Batch
pub mod Sent
pub mod Listed
pub mod Converge
use meow_ny.Common.{
  ℕ, ◌+◌, ◌≡◌, refl, Bool, true, false, not, ◌&&◌, ◌||◌, Option, none, some, List, [], ◌∷◌, ◌++◌,
  ltb, ◌==◌, if◌then◌else◌, map, any, min, ◌-◌, ◌^◌,
}
use meow_ny.Common.Text.{Text, text_eq, text_leb}
use meow_ny.Common.Order.{text_ltb}
use meow_ny.Common.Sort.{sort}
use meow_ny.Store.Table.{update, delete, fresh}
use meow_ny.Stamp.{Stamp, parse, format}
use meow_ny.Sync.{
  Table, transactions, recurring_transactions, ledger_entries, documents, document_links, codes,
  SyncError, clock_far_off, Answer, fails, gives, ◌>>=◌, ◌>>◌, fail_if, table_eq,
}
use meow_ny.Sync.Digest.{Deleted}
use meow_ny.Sync.Hello.{max_clock_lead_ms}

pub record DocumentRow : Type 0 where
  pub sync_id : Text
  pub stamp : Text
  pub name : Text
  pub media_type : Text
  pub size_bytes : ℕ
  pub sha256 : Text
  pub document_date : Text
  pub keep_on_phone : ℕ
  pub created_at : Text
  pub updated_at : Text

-- A row of `documents`: its local id, and what is sent of it.
pub record Document : Type 0 where
  pub id : ℕ
  pub row : DocumentRow

-- A row of `document_links`; `kind` and `target` say which of the three columns is set, and to what.
pub record Link : Type 0 where
  pub id : ℕ
  pub sync_id : Text
  pub stamp : Text
  pub document_id : ℕ
  pub kind : Table
  pub target : ℕ
  pub created_at : Text

pub record Marker : Type 0 where
  pub sync_id : Text
  pub stamp : Text

pub record Summary : Type 0 where
  pub added : ℕ
  pub updated : ℕ
  pub replaced : ℕ
  pub kept_yours : ℕ
  pub deleted : ℕ
  pub merged : ℕ
  pub dropped : ℕ

-- The tables that are written, the ids of the rows of the others, and the summary.
pub record State : Type 0 where
  pub documents : List Document
  pub links : List Link
  pub others : Table → List (Text × ℕ)
  pub markers : List Deleted
  pub summary : Summary

abbrev pub Step : Type 0
Step = Answer SyncError State

-- `SELECT .. FROM documents WHERE sync_id = ?`
unfoldable pub find_document : Text → List Document → Option Document
find_document id [] = none
find_document id (d ∷ ds) = if text_eq d.row.sync_id id then some d else find_document id ds

-- `marker`: the table of a marker is not looked at.
unfoldable pub marker : Text → List Deleted → Option Deleted
marker id [] = none
marker id (m ∷ ms) = if text_eq m.sync_id id then some m else marker id ms

unfoldable pub remove_marker : Text → List Deleted → List Deleted
remove_marker id [] = []
remove_marker id (m ∷ ms) =
    let rest = remove_marker id ms in if text_eq m.sync_id id then rest else m ∷ rest

-- The stamp of the marker that is there is at least this one.
abbrev pub covers : Text → Option Deleted → Bool
covers stamp none = false
covers stamp (some m) = text_leb stamp m.stamp

-- `put_marker`: INSERT OR REPLACE, unless a newer one is there.
unfoldable pub put_marker : Table → Text → Text → List Deleted → List Deleted
unfolding marker remove_marker
put_marker table id stamp ms =
    if covers stamp (marker id ms)
    then ms
    else remove_marker id ms ++ record { sync_id = id; kind = table; stamp = stamp } ∷ []

abbrev is_after : ℕ → Option Stamp → Bool
is_after since none = false
is_after since (some local) = ltb since local.ms

abbrev changed_here_since : Option ℕ → Option Stamp → Bool
changed_here_since none local = false
changed_here_since (some since) local = is_after since local

-- `note_overwrite`
unfoldable pub note_overwrite : Option ℕ → Text → Summary → Summary
note_overwrite since local_stamp sm =
    if changed_here_since since (parse local_stamp)
    then record sm { replaced = sm.replaced + 1 }
    else sm

abbrev pub kept_yours : State → State
kept_yours s = record s { summary = record s.summary { kept_yours = s.summary.kept_yours + 1 } }

abbrev pub same_contents : DocumentRow → DocumentRow → Bool
same_contents a b =
    text_eq a.media_type b.media_type
    && ((a.size_bytes == b.size_bytes) && text_eq a.sha256 b.sha256)

-- `UPDATE documents SET ..` and `set_updated_at`
abbrev pub overwrite : DocumentRow → Document → Document
overwrite r d = record d {
  row = record d.row {
    stamp = r.stamp;
    name = r.name;
    document_date = r.document_date;
    keep_on_phone = r.keep_on_phone;
    created_at = r.created_at;
    updated_at = r.updated_at;
  };
}

abbrev pub document_id : Document → ℕ
document_id d = d.id

unfoldable pub overwritten : Option ℕ → DocumentRow → Document → State → State
unfolding note_overwrite
overwritten since r d s =
    let noted = note_overwrite since d.row.stamp s.summary in
    record s {
      documents = update document_id d.id (overwrite r) s.documents;
      summary = record noted { updated = noted.updated + 1 };
    }

unfoldable pub inserted : DocumentRow → State → State
inserted r s = record s {
  documents = s.documents ++ record { id = fresh document_id s.documents; row = r } ∷ [];
  summary = record s.summary { added = s.summary.added + 1 };
}

-- The row is here already, or it is new.
unfoldable pub merge_row : Option ℕ → DocumentRow → Option Document → State → Step
unfolding overwritten inserted
merge_row since r none s = gives (inserted r s)
merge_row since r (some d) s =
    fail_if (not (same_contents d.row r)) (SyncError.invalid (codes "document"))
    >> gives (
        if text_ltb r.stamp d.row.stamp
        then kept_yours s
        else if text_leb r.stamp d.row.stamp
        then s
        else overwritten since r d s)

-- What a row meets: a marker that is as new as it keeps it out, and an older one goes.
unfoldable pub against_marker : Option ℕ → DocumentRow → Option Deleted → State → Step
unfolding merge_row find_document remove_marker
against_marker since r none s = merge_row since r (find_document r.sync_id s.documents) s
against_marker since r (some m) s =
    if text_leb r.stamp m.stamp
    then gives (kept_yours s)
    else merge_row since r (find_document r.sync_id s.documents)
        (record s { markers = remove_marker r.sync_id s.markers })

-- The body of the loop of `documents`.
unfoldable pub document_row : Option ℕ → DocumentRow → State → Step
unfolding against_marker marker
document_row since r s = against_marker since r (marker r.sync_id s.markers) s

unfoldable pub document_rows : Option ℕ → List DocumentRow → State → Step
document_rows since [] s = gives s
document_rows since (r ∷ rs) s = document_row since r s >>= document_rows since rs

abbrev pub row_before : DocumentRow → DocumentRow → Bool
row_before a b = text_leb a.sync_id b.sync_id

-- `documents`
unfoldable pub take_documents : Option ℕ → List DocumentRow → State → Step
unfolding document_rows
take_documents since rs s = document_rows since (sort row_before rs) s

-- The links of a document go with it (ON DELETE CASCADE).
unfoldable pub links_without : ℕ → List Link → List Link
links_without id [] = []
links_without id (l ∷ ls) =
    let rest = links_without id ls in if l.document_id == id then rest else l ∷ rest

-- `delete_row` of a document, with its marker.
unfoldable pub removed : Marker → Document → State → State
unfolding links_without put_marker
removed m d s = record s {
  documents = delete document_id d.id s.documents;
  links = links_without d.id s.links;
  markers = put_marker documents m.sync_id m.stamp s.markers;
  summary = record s.summary { deleted = s.summary.deleted + 1 };
}

unfoldable pub against_row : Marker → Option Document → State → State
unfolding removed put_marker
against_row m none s = record s { markers = put_marker documents m.sync_id m.stamp s.markers }
against_row m (some d) s = if text_ltb d.row.stamp m.stamp then removed m d s else kept_yours s

-- The body of the loop of `markers`, for the documents.
unfoldable pub document_marker : Marker → State → State
unfolding against_row find_document
document_marker m s = against_row m (find_document m.sync_id s.documents) s

unfoldable pub document_markers : List Marker → State → State
document_markers [] s = s
document_markers (m ∷ ms) s = document_markers ms (document_marker m s)

abbrev pub marker_before : Marker → Marker → Bool
marker_before a b = text_leb a.sync_id b.sync_id

-- `markers`
unfoldable pub take_markers : List Marker → State → State
unfolding document_markers
take_markers ms s = document_markers (sort marker_before ms) s

-- `now_ms.saturating_add(MAX_CLOCK_LEAD_MS)`
abbrev pub newest_allowed : ℕ → ℕ
newest_allowed now_ms = min (now_ms + max_clock_lead_ms) (2 ^ 64 - 1)

abbrev pub is_past : ℕ → Option Stamp → Bool
is_past newest none = true
is_past newest (some s) = ltb newest s.ms

-- A stamp that cannot be read, or is too far ahead of the clock of this device.
unfoldable pub too_new : ℕ → Text → Bool
too_new now_ms text = is_past (newest_allowed now_ms) (parse text)

-- What `apply` does with the documents that arrived: it looks at every stamp, and takes the rows and
-- then the markers.
unfoldable pub apply_documents : ℕ → Option ℕ → List DocumentRow → List Marker → State → Step
unfolding too_new take_documents take_markers
apply_documents now_ms since rs ms s =
    fail_if (any (λ r. too_new now_ms r.stamp) rs) clock_far_off
    >> fail_if (any (λ m. too_new now_ms m.stamp) ms) clock_far_off
    >> (take_documents since rs s >>= λ s'. gives (take_markers ms s'))
