-- ===== src/Sync/Documents/Held.antt =====
-- What a device holds under an id: nothing, a document, or the marker of its deletion. Of two
-- versions the newer counts.
use meow_ny.Common.{
  ◌≡◌, refl, Bool, true, false, not, Option, none, some, List, [], ◌∷◌, ◌++◌, arith, if◌then◌else◌,
  Bool-cases, inl, inr,
}
use meow_ny.Common.Text.{Text, text_eq, text_eq_iff, text_eq_refl}
use meow_ny.Common.Order.{text_ltb}
use meow_ny.Sync.{Table}
use meow_ny.Sync.Digest.{Deleted}
use meow_ny.Sync.Documents.{
  DocumentRow, Document, State, find_document, marker, remove_marker, covers, put_marker,
}

pub data Held : Type 0 where
  nothing : Held
  live : DocumentRow → Held
  gone : Text → Held

abbrev pub stamp_of : Held → Text
stamp_of nothing = []
stamp_of (live r) = r.stamp
stamp_of (gone stamp) = stamp

-- Whether the second is there and newer than the first.
abbrev pub is_newer : Held → Held → Bool
is_newer h nothing = false
is_newer nothing (live r) = true
is_newer nothing (gone stamp) = true
is_newer (live r) (live q) = text_ltb r.stamp q.stamp
is_newer (live r) (gone stamp) = text_ltb r.stamp stamp
is_newer (gone s) (live q) = text_ltb s q.stamp
is_newer (gone s) (gone stamp) = text_ltb s stamp

-- The last writer wins.
abbrev pub newest : Held → Held → Held
newest h v = if is_newer h v then v else h

abbrev pub holds : Option Document → Option Deleted → Held
holds (some d) m = live d.row
holds none (some m) = gone m.stamp
holds none none = nothing

abbrev pub held : State → Text → Held
held s id = holds (find_document id s.documents) (marker id s.markers)

pub marker-remove_marker :
    (id x : Text) (ms : List Deleted)
    → marker x (remove_marker id ms) ≡ (if text_eq id x then none else marker x ms)
unfolding marker remove_marker
marker-remove_marker id x [] = ground arith
marker-remove_marker id x (m ∷ ms) = ground (
  arith,
  marker-remove_marker id x ms,
  text_eq_iff m.sync_id id,
  text_eq_iff m.sync_id x,
  text_eq_iff id x,
)

marker-append :
    (n : Deleted) (x : Text) (ms : List Deleted)
    → marker n.sync_id ms ≡ none
    → marker x (ms ++ n ∷ []) ≡ (if text_eq n.sync_id x then some n else marker x ms)
unfolding marker
marker-append n x [] h = refl
marker-append n x (m ∷ ms) h = ground (
  arith,
  marker-append n x ms,
  text_eq_iff m.sync_id x,
  text_eq_iff n.sync_id x,
  text_eq_iff m.sync_id n.sync_id,
)

pub marker-put_marker :
    (table : Table) (id stamp x : Text) (ms : List Deleted)
    → marker x (put_marker table id stamp ms) ≡ (
        if not (covers stamp (marker id ms))
        then (if text_eq id x
            then some (record { sync_id = id; kind = table; stamp = stamp })
            else marker x ms)
        else marker x ms)
unfolding put_marker
marker-put_marker table id stamp x ms = elim (Bool-cases (covers stamp (marker id ms))) [
  | inl old ↦ rw old
  | inr new ↦
      let n : Deleted = record { sync_id = id; kind = table; stamp = stamp } in
      rw new (
        ground (
          arith,
          marker-append n x (remove_marker id ms),
          marker-remove_marker id id ms,
          marker-remove_marker id x ms,
          text_eq_refl id,
        ))
]

-- The unique index of the markers.
abbrev pub IsMarkers : List Deleted → Type 0
IsMarkers [] = Unit
IsMarkers (m ∷ ms) = (marker m.sync_id ms ≡ none) × IsMarkers ms

pub remove_marker-IsMarkers :
    (id : Text) (ms : List Deleted) → IsMarkers ms → IsMarkers (remove_marker id ms)
unfolding remove_marker
remove_marker-IsMarkers id [] h = tt
remove_marker-IsMarkers id (m ∷ ms) h = elim (Bool-cases (text_eq m.sync_id id)) [
  | inl e ↦ rw e (remove_marker-IsMarkers id ms h.1)
  | inr e ↦
      rw e
        ((ground (arith, marker-remove_marker id m.sync_id ms)), remove_marker-IsMarkers id ms h.1)
]

append-IsMarkers :
    (n : Deleted) (ms : List Deleted)
    → marker n.sync_id ms ≡ none
    → IsMarkers ms
    → IsMarkers (ms ++ n ∷ [])
unfolding marker
append-IsMarkers n [] e h = (refl, tt)
append-IsMarkers n (m ∷ ms) e h = (
  ground (
    arith,
    marker-append n m.sync_id ms,
    text_eq_iff n.sync_id m.sync_id,
    text_eq_iff m.sync_id n.sync_id,
  ),
  append-IsMarkers n ms (ground arith) h.1,
)

pub put_marker-IsMarkers :
    (table : Table) (id stamp : Text) (ms : List Deleted)
    → IsMarkers ms
    → IsMarkers (put_marker table id stamp ms)
unfolding put_marker
put_marker-IsMarkers table id stamp ms h = elim (Bool-cases (covers stamp (marker id ms))) [
  | inl old ↦ rw old h
  | inr new ↦ rw new (
      append-IsMarkers (record { sync_id = id; kind = table; stamp = stamp }) (remove_marker id ms)
        (ground (arith, marker-remove_marker id id ms, text_eq_refl id))
        (remove_marker-IsMarkers id ms h))
]
