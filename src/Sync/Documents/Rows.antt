-- ===== src/Sync/Documents/Rows.antt =====
-- The table of the documents and the table of the markers, seen by the ids of the sync.
use meow_ny.Common.{
  ℕ, ◌≤◌, ◌≡◌, ◌≢◌, refl, subst, false, none, some, List, [], ◌∷◌, ◌++◌, arith, ◌==◌, if◌then◌else◌,
  All, All-map, All-append, Bool-cases, inl, inr,
}
use meow_ny.Common.Text.{Text, text_eq, text_eq_iff, text_eq_comm}
use meow_ny.Store.Table.{update, delete, fresh}
use meow_ny.Sync.Documents.{Document, document_id, find_document}

-- Two rows that may stand in the table together.
abbrev pub Differ : Document → Document → Type 0
Differ d e = (d.id ≢ e.id) × (text_eq d.row.sync_id e.row.sync_id ≡ false)

-- The primary key and the unique index of the documents.
abbrev pub IsTable : List Document → Type 0
IsTable [] = Unit
IsTable (d ∷ ds) = All (Differ d) ds × IsTable ds

find-All :
    (P : Document → Type 0) (id : Text) (ds : List Document) {d : Document}
    → All P ds
    → find_document id ds ≡ some d
    → P d
unfolding find_document
find-All P id [] h e = absurd (cc)
find-All P id (x ∷ ds) {d} h e = elim (Bool-cases (text_eq x.row.sync_id id)) [
  | inl here ↦ let same : x ≡ d = ground arith in subst P (same) h.0
  | inr later ↦ find-All P id ds {d = d} h.1 (ground arith)
]

pub find-sync_id :
    (id : Text) (ds : List Document) {d : Document}
    → find_document id ds ≡ some d
    → d.row.sync_id ≡ id
unfolding find_document
find-sync_id id [] e = absurd (cc)
find-sync_id id (x ∷ ds) {d} e =
    ground (arith, text_eq_iff x.row.sync_id id, find-sync_id id ds {d = d})

-- No row further down has the id of the first.
find_apart :
    (x : Document) (ds : List Document) → All (Differ x) ds → find_document x.row.sync_id ds ≡ none
unfolding find_document
find_apart x [] h = refl
find_apart x (d ∷ ds) h =
    ground (arith, text_eq_comm x.row.sync_id d.row.sync_id, find_apart x ds h.1)

pub find-update :
    (f : Document → Document) (id x : Text) (ds : List Document) {d : Document}
    → ((e : Document) → (f e).row.sync_id ≡ e.row.sync_id)
    → IsTable ds
    → find_document id ds ≡ some d
    → find_document x (update document_id d.id f ds)
      ≡ (if text_eq id x then some (f d) else find_document x ds)
unfolding find_document update
find-update f id x [] k h e = absurd (cc)
find-update f id x (y ∷ ds) {d} k h e = elim (Bool-cases (text_eq y.row.sync_id id)) [
  | inl here ↦
      let same : y ≡ d = ground arith in
      let id_is : y.row.sync_id ≡ id = (text_eq_iff _ _).0 here in rw (← same) (ground (arith, k y))
  | inr later ↦
      let rest : find_document id ds ≡ some d = ground arith in
      let apart : Differ y d = find-All (Differ y) id ds {d = d} h.0 rest in
      let goes : (y.id == d.id) ≡ false = ground (arith, apart.0) in
      let id_is : d.row.sync_id ≡ id = find-sync_id id ds {d = d} rest in
      rw goes (
        ground (
          arith,
          find-update f id x ds {d = d} k h.1 rest,
          text_eq_iff y.row.sync_id x,
          text_eq_iff id x,
          text_eq_iff y.row.sync_id id,
        ))
]

pub find-delete :
    (id x : Text) (ds : List Document) {d : Document}
    → IsTable ds
    → find_document id ds ≡ some d
    → find_document x (delete document_id d.id ds)
      ≡ (if text_eq id x then none else find_document x ds)
unfolding find_document delete
find-delete id x [] h e = absurd (cc)
find-delete id x (y ∷ ds) {d} h e = elim (Bool-cases (text_eq y.row.sync_id id)) [
  | inl here ↦
      let same : y ≡ d = ground arith in
      let id_is : y.row.sync_id ≡ id = (text_eq_iff _ _).0 here in
      rw (← same)
        (ground (arith, find_apart y ds h.0, text_eq_iff y.row.sync_id x, text_eq_iff id x))
  | inr later ↦
      let rest : find_document id ds ≡ some d = ground arith in
      let apart : Differ y d = find-All (Differ y) id ds {d = d} h.0 rest in
      let goes : (y.id == d.id) ≡ false = ground (arith, apart.0) in
      rw goes (
        ground (
          arith,
          find-delete id x ds {d = d} h.1 rest,
          text_eq_iff y.row.sync_id x,
          text_eq_iff id x,
          text_eq_iff y.row.sync_id id,
        ))
]

pub find-append :
    (e : Document) (x : Text) (ds : List Document)
    → find_document e.row.sync_id ds ≡ none
    → find_document x (ds ++ e ∷ [])
      ≡ (if text_eq e.row.sync_id x then some e else find_document x ds)
unfolding find_document
find-append e x [] h = refl
find-append e x (d ∷ ds) h = ground (
  arith,
  find-append e x ds,
  text_eq_iff d.row.sync_id x,
  text_eq_iff e.row.sync_id x,
  text_eq_iff d.row.sync_id e.row.sync_id,
)

module _ (f : Document → Document) (keeps_id : (e : Document) → (f e).id ≡ e.id)
    (keeps_sync_id : (e : Document) → (f e).row.sync_id ≡ e.row.sync_id) where
  update-Differ :
      (x : Document) (i : ℕ) (ds : List Document)
      → All (Differ x) ds
      → All (Differ x) (update document_id i f ds)
  unfolding update
  update-Differ x i [] h = tt
  update-Differ x i (d ∷ ds) h = elim (Bool-cases (d.id == i)) [
    | inl here ↦ rw here ((rw (keeps_id d) h.0.0, rw (keeps_sync_id d) h.0.1), h.1)
    | inr later ↦ rw later (h.0, update-Differ x i ds h.1)
  ]

  changed_apart : (d : Document) (ds : List Document) → All (Differ d) ds → All (Differ (f d)) ds
  changed_apart d ds h = All-map _ _ (λ e k. (rw (keeps_id d) k.0, rw (keeps_sync_id d) k.1)) ds h

  pub update-IsTable :
      (i : ℕ) (ds : List Document) → IsTable ds → IsTable (update document_id i f ds)
  unfolding update
  update-IsTable i [] h = tt
  update-IsTable i (d ∷ ds) h = elim (Bool-cases (d.id == i)) [
    | inl here ↦ rw here (changed_apart d ds h.0, h.1)
    | inr later ↦ rw later (update-Differ d i ds h.0, update-IsTable i ds h.1)
  ]

delete-All :
    (P : Document → Type 0) (i : ℕ) (ds : List Document)
    → All P ds
    → All P (delete document_id i ds)
unfolding delete
delete-All P i [] h = tt
delete-All P i (d ∷ ds) h = elim (Bool-cases (d.id == i)) [
  | inl here ↦ rw here h.1
  | inr later ↦ rw later (h.0, delete-All P i ds h.1)
]

pub delete-IsTable : (i : ℕ) (ds : List Document) → IsTable ds → IsTable (delete document_id i ds)
unfolding delete
delete-IsTable i [] h = tt
delete-IsTable i (d ∷ ds) h = elim (Bool-cases (d.id == i)) [
  | inl here ↦ rw here h.1
  | inr later ↦ rw later (delete-All (Differ d) i ds h.0, delete-IsTable i ds h.1)
]

pub append-IsTable :
    (e : Document) (ds : List Document)
    → fresh document_id ds ≤ e.id
    → find_document e.row.sync_id ds ≡ none
    → IsTable ds
    → IsTable (ds ++ e ∷ [])
unfolding fresh find_document
append-IsTable e [] less none_yet h = (tt, tt)
append-IsTable e (d ∷ ds) less none_yet h = (
  All-append (Differ d) ds (e ∷ []) h.0 (((λ same. omega arith), ground arith), tt),
  append-IsTable e ds (omega arith) (ground arith) h.1,
)
