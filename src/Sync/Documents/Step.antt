-- ===== src/Sync/Documents/Step.antt =====
-- One row or one marker of another device: under its id the newer version stays, and every other id
-- keeps what it holds.
use meow_ny.Common.{
  ℕ, ◌≡◌, ◌⊎◌, refl, ap, ◌∙◌, true, false, Option, none, some, arith, if◌then◌else◌, Bool-cases,
  inl, inr,
}
use meow_ny.Common.Text.{Text, text_eq, text_eq_iff, text_leb}
use meow_ny.Common.Order.{text_ltb}
use meow_ny.Store.Table.{fresh}
use meow_ny.Sync.{documents}
use meow_ny.Sync.Digest.{Deleted}
use meow_ny.Sync.Documents.{
  DocumentRow, Document, Marker, State, find_document, marker, remove_marker, put_marker,
  same_contents, overwrite, document_id, overwritten, inserted, removed,
}
use meow_ny.Sync.Documents.Rows.{
  IsTable, find-sync_id, find-update, find-delete, find-append, update-IsTable, delete-IsTable,
  append-IsTable,
}
use meow_ny.Sync.Documents.Held.{
  Held, nothing, live, gone, newest, held, marker-remove_marker, marker-put_marker, IsMarkers,
  remove_marker-IsMarkers, put_marker-IsMarkers,
}

-- The keys and indexes of the tables, and no id with both a row and a marker.
pub record IsSound (s : State) : Type 0 where
  pub table : IsTable s.documents
  pub markers : IsMarkers s.markers
  pub exclusive : (id : Text) → (find_document id s.documents ≡ none) ⊎ (marker id s.markers ≡ none)

-- The contents that the row names are those of the document that is here, if it is here.
abbrev pub Agrees : DocumentRow → State → Type 0
Agrees r s =
    (d : Document) → find_document r.sync_id s.documents ≡ some d → same_contents d.row r ≡ true

-- What holds after `v` came for the id.
abbrev pub Takes : Text → Held → State → State → Type 0
Takes id v s s' = (x : Text) → held s' x ≡ (if text_eq id x then newest (held s x) v else held s x)

overwrite_whole :
    (r : DocumentRow) (d : Document)
    → same_contents d.row r ≡ true
    → d.row.sync_id ≡ r.sync_id
    → (overwrite r d).row ≡ r
overwrite_whole r d same id =
    ground (arith, text_eq_iff d.row.media_type r.media_type, text_eq_iff d.row.sha256 r.sha256)

-- Without the marker of an id that has no row, nothing is held under it.
abbrev pub unmarked : Text → State → State
unmarked id s = record s { markers = remove_marker id s.markers }

module _ (s : State) (sound : IsSound s) where
  pub inserted-IsSound :
      (r : DocumentRow)
      → find_document r.sync_id s.documents ≡ none
      → marker r.sync_id s.markers ≡ none
      → IsSound (inserted r s) × Takes r.sync_id (live r) s (inserted r s)
  unfolding inserted
  inserted-IsSound r absent clear =
      let d : Document = record { id = fresh document_id s.documents; row = r } in
      let found = λ (x : Text). find-append d x s.documents absent in
      (
        record {
          table = append-IsTable d s.documents (omega arith) absent sound.table;
          markers = sound.markers;
          exclusive = λ x. elim (Bool-cases (text_eq r.sync_id x)) [
            | inl here ↦ inr (rw (← (text_eq_iff r.sync_id x).0 here) clear)
            | inr there ↦ elim (sound.exclusive x) [
              | inl e ↦ inl (found x ∙ rw (there, e))
              | inr e ↦ inr e
            ]
          ];
        },
        λ x. elim (Bool-cases (text_eq r.sync_id x)) [
          | inl here ↦
              let same : r.sync_id ≡ x = (text_eq_iff r.sync_id x).0 here in
              rw (found x, here, ← same, absent, clear)
          | inr there ↦ rw (found x, there)
        ],
      )

  pub overwritten-IsSound :
      (since : Option ℕ) (r : DocumentRow) (d : Document)
      → find_document r.sync_id s.documents ≡ some d
      → same_contents d.row r ≡ true
      → text_leb r.stamp d.row.stamp ≡ false
      → IsSound (overwritten since r d s) × Takes r.sync_id (live r) s (overwritten since r d s)
  unfolding overwritten
  overwritten-IsSound since r d e same newer =
      let found = λ (x : Text).
        find-update (overwrite r) r.sync_id x s.documents {d = d} (λ _. refl) sound.table e in
      let clear : marker r.sync_id s.markers ≡ none = elim (sound.exclusive r.sync_id) [
        | inl n ↦ absurd (ground arith)
        | inr n ↦ n
      ] in
      let whole = overwrite_whole r d same (find-sync_id r.sync_id s.documents e) in
      (
        record {
          table = update-IsTable (overwrite r) (λ _. refl) (λ _. refl) d.id s.documents sound.table;
          markers = sound.markers;
          exclusive = λ x. elim (Bool-cases (text_eq r.sync_id x)) [
            | inl here ↦ inr (rw (← (text_eq_iff r.sync_id x).0 here) clear)
            | inr there ↦ elim (sound.exclusive x) [
              | inl n ↦ inl (found x ∙ rw (there, n))
              | inr n ↦ inr n
            ]
          ];
        },
        λ x. elim (Bool-cases (text_eq r.sync_id x)) [
          | inl here ↦
              let same_id : r.sync_id ≡ x = (text_eq_iff r.sync_id x).0 here in
              rw (found x, here, ← same_id, e, newer) (ap live whole)
          | inr there ↦ rw (found x, there)
        ],
      )

  pub unmarked-IsSound : (id : Text) → IsSound (unmarked id s)
  unmarked-IsSound id = record {
    table = sound.table;
    markers = remove_marker-IsMarkers id s.markers sound.markers;
    exclusive = λ x. elim (sound.exclusive x) [
      | inl n ↦ inl n
      | inr n ↦ inr (marker-remove_marker id x s.markers ∙ ground arith)
    ];
  }

  pub held-unmarked :
      (id x : Text)
      → find_document id s.documents ≡ none
      → held (unmarked id s) x ≡ (if text_eq id x then nothing else held s x)
  held-unmarked id x absent = elim (Bool-cases (text_eq id x)) [
    | inl here ↦ rw (marker-remove_marker id x s.markers, here, ← (text_eq_iff id x).0 here, absent)
    | inr there ↦ rw (marker-remove_marker id x s.markers, there)
  ]

  pub removed-IsSound :
      (m : Marker) (d : Document)
      → find_document m.sync_id s.documents ≡ some d
      → text_ltb d.row.stamp m.stamp ≡ true
      → IsSound (removed m d s) × Takes m.sync_id (gone m.stamp) s (removed m d s)
  unfolding removed
  removed-IsSound m d e newer =
      let found = λ (x : Text). find-delete m.sync_id x s.documents {d = d} sound.table e in
      let clear : marker m.sync_id s.markers ≡ none = elim (sound.exclusive m.sync_id) [
        | inl n ↦ absurd (ground arith)
        | inr n ↦ n
      ] in
      let put : Deleted = record { sync_id = m.sync_id; kind = documents; stamp = m.stamp } in
      let now : (x : Text)
          → marker x (put_marker documents m.sync_id m.stamp s.markers)
            ≡ (if text_eq m.sync_id x then some put else marker x s.markers) =
        λ x. marker-put_marker documents m.sync_id m.stamp x s.markers ∙ rw clear in
      (
        record {
          table = delete-IsTable d.id s.documents sound.table;
          markers = put_marker-IsMarkers documents m.sync_id m.stamp s.markers sound.markers;
          exclusive = λ x. elim (Bool-cases (text_eq m.sync_id x)) [
            | inl here ↦ inl (found x ∙ rw here)
            | inr there ↦ elim (sound.exclusive x) [
              | inl n ↦ inl (found x ∙ rw (there, n))
              | inr n ↦ inr (now x ∙ rw (there, n))
            ]
          ];
        },
        λ x. elim (Bool-cases (text_eq m.sync_id x)) [
          | inl here ↦
              let same_id : m.sync_id ≡ x = (text_eq_iff m.sync_id x).0 here in
              rw (found x, now x, here, ← same_id, e, newer)
          | inr there ↦ rw (found x, now x, there)
        ],
      )
