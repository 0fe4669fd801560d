-- ===== src/Sync/Documents/Merge.antt =====
-- A row or a marker of another device is merged: under its id the newer version stays.
use meow_ny.Common.{
  ℕ, ◌≡◌, ◌∙◌, true, false, Option, none, some, arith, Bool-cases, Option-cases, inl, inr,
}
use meow_ny.Common.Text.{Text, text_eq, text_eq_iff, text_eq_refl, text_leb}
use meow_ny.Common.Order.{text_ltb, text_leb_total}
use meow_ny.Sync.{documents, gives}
use meow_ny.Sync.Digest.{Deleted}
use meow_ny.Sync.Documents.{
  DocumentRow, Document, Marker, State, Step, find_document, marker, same_contents, overwritten,
  inserted, kept_yours, merge_row, document_row, against_row, document_marker,
}
use meow_ny.Sync.Documents.Held.{
  Held, live, gone, is_newer, held, marker-remove_marker, marker-put_marker, put_marker-IsMarkers,
}
use meow_ny.Sync.Documents.Step.{
  IsSound, Agrees, Takes, inserted-IsSound, overwritten-IsSound, unmarked, unmarked-IsSound,
  held-unmarked, removed-IsSound,
}

-- The step is made, and its result is sound and holds `v` if that is the newer version.
abbrev pub Merges : Text → Held → State → Step → Type 0
Merges id v s step = (s' : State) × (step ≡ gives s') × IsSound s' × Takes id v s s'

module _ (s : State) (sound : IsSound s) where
  -- What is not newer changes nothing.
  stays : (id : Text) (v : Held) → is_newer (held s id) v ≡ false → Takes id v s s
  stays id v old x = elim (Bool-cases (text_eq id x)) [
    | inl here ↦ rw (here, ← (text_eq_iff id x).0 here, old)
    | inr there ↦ rw there
  ]

  merge_present :
      (since : Option ℕ) (r : DocumentRow) (d : Document)
      → find_document r.sync_id s.documents ≡ some d
      → same_contents d.row r ≡ true
      → Merges r.sync_id (live r) s (merge_row since r (some d) s)
  unfolding merge_row
  merge_present since r d e same = elim (Bool-cases (text_leb r.stamp d.row.stamp)) [
    | inl old ↦
        let quiet : Takes r.sync_id (live r) s s = stays r.sync_id (live r) (rw e (ground arith)) in
        elim (Bool-cases (text_ltb r.stamp d.row.stamp)) [
          | inl older ↦ (
            kept_yours s,
            rw (same, older),
            record { table = sound.table; markers = sound.markers; exclusive = sound.exclusive },
            quiet,
          )
          | inr level ↦ (s, rw (same, level, old), sound, quiet)
        ]
    | inr newer ↦
        let level : text_ltb r.stamp d.row.stamp ≡ false =
          ground (arith, text_leb_total r.stamp d.row.stamp) in
        let (good, takes) = overwritten-IsSound s sound since r d e same newer in
        (overwritten since r d s, rw (same, level, newer), good, takes)
  ]

  merge_absent :
      (r : DocumentRow) (m : Deleted)
      → find_document r.sync_id s.documents ≡ none
      → marker r.sync_id s.markers ≡ some m
      → text_leb r.stamp m.stamp ≡ false
      → let s' = inserted r (unmarked r.sync_id s) in IsSound s' × Takes r.sync_id (live r) s s'
  merge_absent r m absent marked newer =
      let t = unmarked r.sync_id s in
      let clear : marker r.sync_id t.markers ≡ none =
        marker-remove_marker r.sync_id r.sync_id s.markers ∙ rw (text_eq_refl r.sync_id) in
      let (good, takes) = inserted-IsSound t (unmarked-IsSound s sound r.sync_id) r absent clear in
      (
        good,
        λ x. elim (Bool-cases (text_eq r.sync_id x)) [
          | inl here ↦
              let same : r.sync_id ≡ x = (text_eq_iff r.sync_id x).0 here in
              takes x
              ∙ rw (
                here,
                held-unmarked s sound r.sync_id x absent,
                here,
                ← same,
                absent,
                marked,
                newer,
              )
          | inr there ↦ takes x ∙ rw (there, held-unmarked s sound r.sync_id x absent, there)
        ],
      )

  -- The body of the loop over the rows.
  pub document_row-Merges :
      (since : Option ℕ) (r : DocumentRow)
      → Agrees r s
      → Merges r.sync_id (live r) s (document_row since r s)
  unfolding document_row
  document_row-Merges since r agrees = elim (Option-cases (marker r.sync_id s.markers)) [
    | inl clear ↦ elim (Option-cases (find_document r.sync_id s.documents)) [
      | inl absent ↦
          let (good, takes) = inserted-IsSound s sound r absent clear in
          (inserted r s, rw (clear, absent), good, takes)
      | inr (d, e) ↦
          let (s', steps, good, takes) = merge_present since r d e (agrees d e) in
          (s', rw (clear, e) steps, good, takes)
    ]
    | inr (m, marked) ↦
        let absent : find_document r.sync_id s.documents ≡ none = elim (sound.exclusive r.sync_id) [
          | inl n ↦ n
          | inr n ↦ absurd (ground arith)
        ] in
        elim (Bool-cases (text_leb r.stamp m.stamp)) [
          | inl old ↦ (
            kept_yours s,
            rw (marked, old),
            record { table = sound.table; markers = sound.markers; exclusive = sound.exclusive },
            stays r.sync_id (live r) (rw (absent, marked) (ground arith)),
          )
          | inr newer ↦
              let (good, takes) = merge_absent r m absent marked newer in
              (inserted r (unmarked r.sync_id s), rw (marked, newer, absent), good, takes)
        ]
  ]

  -- The marker of an id that has no row.
  marked :
      (m : Marker)
      → find_document m.sync_id s.documents ≡ none
      → IsSound (against_row m none s) × Takes m.sync_id (gone m.stamp) s (against_row m none s)
  unfolding against_row
  marked m absent =
      let put : Deleted = record { sync_id = m.sync_id; kind = documents; stamp = m.stamp } in
      let now = λ (x : Text). marker-put_marker documents m.sync_id m.stamp x s.markers in
      (
        record {
          table = sound.table;
          markers = put_marker-IsMarkers documents m.sync_id m.stamp s.markers sound.markers;
          exclusive = λ x. elim (Bool-cases (text_eq m.sync_id x)) [
            | inl here ↦ inl (rw (← (text_eq_iff m.sync_id x).0 here) absent)
            | inr there ↦ elim (sound.exclusive x) [
              | inl n ↦ inl n
              | inr n ↦ inr (now x ∙ rw (there, n) (ground arith))
            ]
          ];
        },
        λ x. elim (Bool-cases (text_eq m.sync_id x)) [
          | inl here ↦
              let same : m.sync_id ≡ x = (text_eq_iff m.sync_id x).0 here in
              rw (now x, here, ← same, absent) (ground arith)
          | inr there ↦ rw (now x, there) (ground arith)
        ],
      )

  -- The body of the loop over the markers.
  pub document_marker-Takes :
      (m : Marker)
      → IsSound (document_marker m s) × Takes m.sync_id (gone m.stamp) s (document_marker m s)
  unfolding document_marker
  document_marker-Takes m = elim (Option-cases (find_document m.sync_id s.documents)) [
    | inl absent ↦ rw absent (marked m absent)
    | inr (d, e) ↦ elim (Bool-cases (text_ltb d.row.stamp m.stamp)) [
      | inl newer ↦ rw (e, newer) (removed-IsSound s sound m d e newer)
      | inr old ↦
          rw (e, old)
            (
              record { table = sound.table; markers = sound.markers; exclusive = sound.exclusive },
              stays m.sync_id (gone m.stamp) (rw e old),
            )
    ]
  ]
