-- ===== src/Sync/Documents/Listed.antt =====
-- The list of a device says what it holds, and the ids that it sends are those of which it holds the
-- newer version.
use meow_ny.Common.{
  ◌≡◌, ◌⊎◌, refl, ap, sym, ◌∙◌, Bool, true, false, not, ◌||◌, Option, none, some, List, [], ◌∷◌,
  arith, map, All, if◌then◌else◌, Bool-cases, Option-cases, inl, inr,
}
use meow_ny.Common.Text.{Text, text_eq, text_eq_iff}
use meow_ny.Sync.{Table, documents, table_eq, table_eq_iff}
use meow_ny.Sync.Digest.{
  Entry, Entries, get, insert, IsOrdered, Deleted, Holdings, insert_rows, insert_markers, stays,
  lacks, newer_than, entries, digest, to_send,
}
use meow_ny.Sync.Digest.Entries.{get-insert, insert-IsOrdered, get-Above}
use meow_ny.Sync.Documents.{Document, State, find_document, marker}
use meow_ny.Sync.Documents.Rows.{Differ, IsTable, find-sync_id}
use meow_ny.Sync.Documents.Held.{Held, nothing, live, gone, is_newer, held, IsMarkers}
use meow_ny.Sync.Documents.Step.{IsSound}
use meow_ny.Sync.Documents.Sent.{listed, holdings, contains}

insert_rows-IsOrdered :
    (rows : List (Text × Text)) (es : Entries) → IsOrdered es → IsOrdered (insert_rows rows es)
unfolding insert_rows
insert_rows-IsOrdered [] es h = h
insert_rows-IsOrdered ((id, stamp) ∷ rows) es h =
    insert_rows-IsOrdered rows _
      (insert-IsOrdered (record { sync_id = id; stamp = stamp; deleted = false }) es h)

insert_markers-IsOrdered :
    (t : Table) (ms : List Deleted) (es : Entries)
    → IsOrdered es
    → IsOrdered (insert_markers t ms es)
unfolding insert_markers
insert_markers-IsOrdered t [] es h = h
insert_markers-IsOrdered t (m ∷ ms) es h =
    insert_markers-IsOrdered t ms _
      (elim (Bool-cases (not (table_eq m.kind t) || stays m.stamp (get m.sync_id es))) [
        | inl e ↦ rw e h
        | inr e ↦ rw e (
            insert-IsOrdered (record { sync_id = m.sync_id; stamp = m.stamp; deleted = true }) es h)
      ])

-- A row by its entry, and a marker by its entry.
abbrev row_entry : Option Document → Option Entry → Option Entry
row_entry none e = e
row_entry (some d) e =
    some (record { sync_id = d.row.sync_id; stamp = d.row.stamp; deleted = false })

abbrev marker_entry : Option Deleted → Option Entry → Option Entry
marker_entry none e = e
marker_entry (some m) e = some (record { sync_id = m.sync_id; stamp = m.stamp; deleted = true })

apart_none :
    (x : Text) (d : Document) (ds : List Document)
    → All (Differ d) ds
    → text_eq d.row.sync_id x ≡ true
    → find_document x ds ≡ none
unfolding find_document
apart_none x d [] h e = refl
apart_none x d (f ∷ ds) h e = ground (
  arith,
  h.0.1,
  text_eq_iff d.row.sync_id x,
  text_eq_iff f.row.sync_id x,
  text_eq_iff d.row.sync_id f.row.sync_id,
  apart_none x d ds h.1 e,
)

get-insert_rows :
    (x : Text) (ds : List Document) (es : Entries)
    → IsTable ds
    → get x (insert_rows (map listed ds) es) ≡ row_entry (find_document x ds) (get x es)
unfolding insert_rows find_document
get-insert_rows x [] es h = refl
get-insert_rows x (d ∷ ds) es h =
    let e : Entry = record { sync_id = d.row.sync_id; stamp = d.row.stamp; deleted = false } in
    let rest = get-insert_rows x ds (insert e es) h.1 in
    elim (Bool-cases (text_eq d.row.sync_id x)) [
      | inl here ↦ rest ∙ rw (apart_none x d ds h.0 here, here, get-insert e x es, here)
      | inr there ↦ rest ∙ rw (there, get-insert e x es, there)
    ]

get-insert_markers :
    (x : Text) (ms : List Deleted) (es : Entries)
    → IsMarkers ms
    → ((m : Deleted) → marker x ms ≡ some m → m.kind ≡ documents)
    → (get x es ≡ none) ⊎ (marker x ms ≡ none)
    → get x (insert_markers documents ms es) ≡ marker_entry (marker x ms) (get x es)
unfolding insert_markers marker
get-insert_markers x [] es h kinds apart = refl
get-insert_markers x (m ∷ ms) es h kinds apart =
    let e : Entry = record { sync_id = m.sync_id; stamp = m.stamp; deleted = true } in
    elim (Bool-cases (text_eq m.sync_id x)) [
      | inl here ↦
          let same : m.sync_id ≡ x = (text_eq_iff m.sync_id x).0 here in
          let kind : table_eq m.kind documents ≡ true = (table_eq_iff _ _).1 (kinds m (rw here)) in
          let clear : get x es ≡ none = elim apart [ inl n ↦ n | inr n ↦ absurd (ground arith) ] in
          let no_more : marker x ms ≡ none = rw (← same) h.0 in
          let rest =
            get-insert_markers x ms (insert e es) h.1 (λ n q. absurd (ground arith))
              (inr no_more) in
          let at_id : get m.sync_id es ≡ none = ap (λ i. get i es) same ∙ clear in
          let entry : marker_entry (marker x ms) (get x (insert e es))
              ≡ marker_entry (marker x (m ∷ ms)) (get x es) =
            rw (no_more, get-insert e x es, here) in
          rw (kind, at_id) (rest ∙ entry)
      | inr there ↦
          let skips = not (table_eq m.kind documents) || stays m.stamp (get m.sync_id es) in
          let unchanged : get x (if skips then es else insert e es) ≡ get x es =
            elim (Bool-cases skips) [
              | inl s ↦ rw s
              | inr s ↦ rw s (get-insert e x es ∙ rw there)
            ] in
          let rest =
            get-insert_markers x ms (if skips then es else insert e es) h.1
              (λ n q. kinds n (rw there q))
              (elim apart [ inl n ↦ inl (unchanged ∙ n) | inr n ↦ inr (ground arith) ]) in
          rest ∙ rw (there, unchanged)
    ]

marker-id : (x : Text) (ms : List Deleted) {m : Deleted} → marker x ms ≡ some m → m.sync_id ≡ x
unfolding marker
marker-id x [] e = absurd (cc)
marker-id x (n ∷ ms) {m} e = ground (arith, text_eq_iff n.sync_id x, marker-id x ms {m = m})

-- What is said of an id.
abbrev pub said : Text → Held → Option Entry
said x nothing = none
said x (live r) = some (record { sync_id = x; stamp = r.stamp; deleted = false })
said x (gone stamp) = some (record { sync_id = x; stamp = stamp; deleted = true })

module _ (others : Holdings) (s : State) (sound : IsSound s) where
  pub listing-IsOrdered : IsOrdered (entries (digest (holdings others s)) documents)
  unfolding digest
  listing-IsOrdered =
      insert_markers-IsOrdered documents s.markers _
        (insert_rows-IsOrdered (map listed s.documents) [] tt)

  pub get-digest :
      (x : Text)
      → ((m : Deleted) → marker x s.markers ≡ some m → m.kind ≡ documents)
      → get x (entries (digest (holdings others s)) documents) ≡ said x (held s x)
  unfolding digest get
  get-digest x kinds =
      let rows = insert_rows (map listed s.documents) [] in
      let at_row : get x rows ≡ row_entry (find_document x s.documents) none =
        get-insert_rows x s.documents [] sound.table in
      elim (Option-cases (find_document x s.documents)) [
        | inl absent ↦
            let no_row : get x rows ≡ none = at_row ∙ rw absent in
            get-insert_markers x s.markers rows sound.markers kinds (inl no_row)
            ∙ elim (Option-cases (marker x s.markers)) [
              | inl clear ↦ rw (clear, absent) no_row
              | inr (m, marked) ↦ rw (marked, absent, marker-id x s.markers marked)
            ]
        | inr (d, e) ↦
            let clear : marker x s.markers ≡ none = elim (sound.exclusive x) [
              | inl n ↦ absurd (ground arith)
              | inr n ↦ n
            ] in
            get-insert_markers x s.markers rows sound.markers kinds (inr clear)
            ∙ rw (clear, e) (at_row ∙ rw (e, find-sync_id x s.documents e))
      ]

abbrev sends : Option Entry → Option Entry → Bool
sends theirs none = false
sends theirs (some e) = lacks theirs e

-- An entry is sent just when the other side lacks it.
contains-newer_than :
    (x : Text) (theirs mine : Entries)
    → IsOrdered mine
    → contains x (newer_than theirs mine) ≡ sends (get x theirs) (get x mine)
unfolding newer_than get
contains-newer_than x theirs [] h = refl
contains-newer_than x theirs (e ∷ mine) h =
    let rest = contains-newer_than x theirs mine h.1 in
    elim (Bool-cases (text_eq e.sync_id x)) [
      | inl here ↦
          let same : e.sync_id ≡ x = (text_eq_iff e.sync_id x).0 here in
          let no_more : get x mine ≡ none =
            ap (λ i. get i mine) (sym same) ∙ get-Above e.sync_id mine h.0 in
          let last : contains x (newer_than theirs mine) ≡ false = rest ∙ rw no_more in
          elim (Bool-cases (lacks (get e.sync_id theirs) e)) [
            | inl l ↦ rw (l, here) (sym (ap (λ i. lacks (get i theirs) e) (sym same) ∙ l))
            | inr l ↦ rw (l, here) (last ∙ sym (ap (λ i. lacks (get i theirs) e) (sym same) ∙ l))
          ]
      | inr there ↦ elim (Bool-cases (lacks (get e.sync_id theirs) e)) [
        | inl l ↦ rw (l, there) rest
        | inr l ↦ rw (l, there) rest
      ]
    ]

sends-said :
    (x : Text) (theirs mine : Held) → sends (said x theirs) (said x mine) ≡ is_newer theirs mine
sends-said x nothing nothing = refl
sends-said x nothing (live r) = refl
sends-said x nothing (gone stamp) = refl
sends-said x (live q) nothing = refl
sends-said x (live q) (live r) = refl
sends-said x (live q) (gone stamp) = refl
sends-said x (gone s) nothing = refl
sends-said x (gone s) (live r) = refl
sends-said x (gone s) (gone stamp) = refl

module _ (mine theirs : Holdings) (s t : State) (sound_s : IsSound s) (sound_t : IsSound t)
    (x : Text) (kinds_s : (m : Deleted) → marker x s.markers ≡ some m → m.kind ≡ documents)
    (kinds_t : (m : Deleted) → marker x t.markers ≡ some m → m.kind ≡ documents) where
  -- The id is sent just when this side holds the newer version.
  pub contains-to_send :
      contains x (to_send (digest (holdings mine s)) (digest (holdings theirs t)) documents)
      ≡ is_newer (held t x) (held s x)
  unfolding to_send
  contains-to_send =
      contains-newer_than x _ _ (listing-IsOrdered mine s sound_s)
      ∙ ap (λ e. sends e (get x (entries (digest (holdings mine s)) documents)))
          (get-digest theirs t sound_t x kinds_t)
      ∙ ap (sends (said x (held t x))) (get-digest mine s sound_s x kinds_s)
      ∙ sends-said x (held t x) (held s x)
