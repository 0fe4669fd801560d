-- ===== src/Sync/Documents/Sent.antt =====
-- What a device says that it holds of the documents, and what it sends: `load_rows` and
-- `load_markers` of src-tauri/src/sync/engine.rs for this table.
use meow_ny.Common.{
  ◌≡◌, refl, ap, ◌∙◌, Bool, true, false, ◌&&◌, Option, none, some, List, [], ◌∷◌, arith, map, any,
  All, All-map, if◌then◌else◌, Bool-cases, inl, inr,
}
use meow_ny.Common.Text.{Text, text_eq, text_eq_iff, text_eq_refl}
use meow_ny.Common.Sort.{sort, any-sort, sort-All}
use meow_ny.Sync.{documents, table_eq, table_eq_iff}
use meow_ny.Sync.Digest.{Deleted, Holdings, digest, to_send}
use meow_ny.Sync.Documents.{
  DocumentRow, Document, Marker, State, find_document, marker, row_before, marker_before,
}
use meow_ny.Sync.Documents.Rows.{Differ, IsTable}
use meow_ny.Sync.Documents.Held.{live, gone, held, IsMarkers}
use meow_ny.Sync.Documents.Step.{IsSound}

abbrev pub row_of : Document → DocumentRow
row_of d = d.row

abbrev pub listed : Document → Text × Text
listed d = (d.row.sync_id, d.row.stamp)

-- What the lists are read from: the documents and the markers of the state, and the other tables.
abbrev pub holdings : Holdings → State → Holdings
holdings others s = record others {
  rows = λ t. if table_eq t documents then map listed s.documents else others.rows t;
  markers = s.markers;
}

-- `wanted.contains(id)`
abbrev pub contains : Text → List Text → Bool
contains id = any (λ i. text_eq i id)

unfoldable pub keep {ℓ} : {A : Type ℓ} → (A → Bool) → List A → List A
keep p [] = []
keep p (x ∷ xs) = let rest = keep p xs in if p x then x ∷ rest else rest

-- `SELECT .. FROM documents ORDER BY sync_id`, and the rows among them that are wanted.
unfoldable pub load_rows : List Text → State → List DocumentRow
unfolding keep sort
load_rows wanted s =
    keep (λ r. contains r.sync_id wanted) (sort row_before (map row_of s.documents))

abbrev marker_of : Deleted → Marker
marker_of m = record { sync_id = m.sync_id; stamp = m.stamp }

-- `SELECT .. FROM sync_deleted WHERE kind = ? ORDER BY sync_id`, and those that are wanted.
unfoldable pub load_markers : List Text → State → List Marker
unfolding keep sort
load_markers wanted s =
    keep (λ m. contains m.sync_id wanted)
      (sort marker_before (map marker_of (keep (λ m. table_eq m.kind documents) s.markers)))

-- `outgoing` for this table: what the other side lacks or has older.
unfoldable pub send_documents : Holdings → Holdings → State → List DocumentRow × List Marker
unfolding load_rows load_markers digest to_send
send_documents mine theirs s =
    let wanted = to_send (digest mine) (digest theirs) documents in
    (load_rows wanted s, load_markers wanted s)

pub keep-All {ℓ κ} :
    {A : Type ℓ} (P : A → Type κ) (p : A → Bool) (xs : List A) → All P xs → All P (keep p xs)
unfolding keep
keep-All P p [] h = tt
keep-All P p (x ∷ xs) h = elim (Bool-cases (p x)) [
  | inl e ↦ rw e (h.0, keep-All P p xs h.1)
  | inr e ↦ rw e (keep-All P p xs h.1)
]

All-of_map {ℓ κ μ} :
    {A : Type ℓ} {B : Type κ} (P : B → Type μ) (f : A → B) (xs : List A)
    → All (λ a. P (f a)) xs
    → All P (map f xs)
All-of_map P f [] h = tt
All-of_map P f (x ∷ xs) h = (h.0, All-of_map P f xs h.1)

-- Where all that has the id is kept or none is, the id is found just in the first case.
any-keep {ℓ} :
    {A : Type ℓ} (key : A → Text) (x : Text) (p : A → Bool) (w : Bool) (xs : List A)
    → All (λ a. text_eq (key a) x ≡ true → p a ≡ w) xs
    → any (λ a. text_eq (key a) x) (keep p xs) ≡ (w && any (λ a. text_eq (key a) x) xs)
unfolding keep
any-keep key x p w [] h = ground arith
any-keep key x p w (a ∷ as') h = ground (arith, any-keep key x p w as' h.1, h.0)

All-of {ℓ κ} : {A : Type ℓ} (P : A → Type κ) → ((a : A) → P a) → (xs : List A) → All P xs
All-of P f [] = tt
All-of P f (x ∷ xs) = (f x, All-of P f xs)

abbrev pub is_some {ℓ} : {A : Type ℓ} → Option A → Bool
is_some none = false
is_some (some a) = true

All-both {ℓ} :
    {A : Type ℓ} (P Q R : A → Type 0) (xs : List A)
    → ((x : A) → P x → Q x → R x)
    → All P xs
    → All Q xs
    → All R xs
All-both P Q R [] f h k = tt
All-both P Q R (x ∷ xs) f h k = (f x h.0 k.0, All-both P Q R xs f h.1 k.1)

-- Every row is the one that is found under its id.
find_self :
    (ds : List Document) → IsTable ds → All (λ d. find_document d.row.sync_id ds ≡ some d) ds
unfolding find_document
find_self [] h = tt
find_self (d ∷ ds) h = (
  rw (text_eq_refl d.row.sync_id),
  All-both (λ e. find_document e.row.sync_id ds ≡ some e) (Differ d)
      (λ e. find_document e.row.sync_id (d ∷ ds) ≡ some e) ds (λ e found apart. rw apart.1 found)
      (find_self ds h.1) h.0,
)

marker_self : (ms : List Deleted) → IsMarkers ms → All (λ m. marker m.sync_id ms ≡ some m) ms
unfolding marker
marker_self [] h = tt
marker_self (m ∷ ms) h = (
  rw (text_eq_refl m.sync_id),
  All-map _ (λ n. marker n.sync_id (m ∷ ms) ≡ some n)
      (λ n found. ground (arith, text_eq_iff m.sync_id n.sync_id)) ms (marker_self ms h.1),
)

-- Whether an id is found, by a test on all rows.
any-documents :
    (x : Text) (ds : List Document)
    → any (λ r. text_eq r.sync_id x) (map row_of ds) ≡ is_some (find_document x ds)
unfolding find_document
any-documents x [] = refl
any-documents x (d ∷ ds) = ground (arith, any-documents x ds)

any-markers :
    (x : Text) (ms : List Deleted)
    → ((m : Deleted) → marker x ms ≡ some m → m.kind ≡ documents)
    → any (λ m. text_eq m.sync_id x) (map marker_of (keep (λ m. table_eq m.kind documents) ms))
      ≡ is_some (marker x ms)
unfolding marker keep
any-markers x [] h = refl
any-markers x (m ∷ ms) h = elim (Bool-cases (text_eq m.sync_id x)) [
  | inl here ↦
      let kind : table_eq m.kind documents ≡ true = (table_eq_iff _ _).1 (h m (rw here)) in
      rw (kind, here)
  | inr there ↦
      let rest = any-markers x ms (λ n e. h n (rw there e)) in
      elim (Bool-cases (table_eq m.kind documents)) [
        | inl kind ↦ rw (kind, there) rest
        | inr kind ↦ rw (kind, there) rest
      ]
]

module _ (wanted : List Text) (s : State) where
  pub load_rows-All :
      (P : DocumentRow → Type 0) → All (λ d. P d.row) s.documents → All P (load_rows wanted s)
  unfolding load_rows
  load_rows-All P h =
      keep-All P _ _
        (sort-All row_before P (map row_of s.documents) (All-of_map P row_of s.documents h))

  pub load_markers-All :
      (P : Marker → Type 0) → All (λ m. P (marker_of m)) s.markers → All P (load_markers wanted s)
  unfolding load_markers
  load_markers-All P h = keep-All P _ _ (
      sort-All marker_before P _
        (All-of_map P marker_of _ (keep-All (λ m. P (marker_of m)) _ s.markers h)))

  -- What is sent is what is held here.
  pub sent_rows-held : IsSound s → All (λ d. held s d.row.sync_id ≡ live d.row) s.documents
  sent_rows-held sound = All-map _ _ (λ d e. rw e) s.documents (find_self s.documents sound.table)

  pub sent_markers-held : IsSound s → (All (λ m. held s m.sync_id ≡ gone m.stamp)) s.markers
  sent_markers-held sound =
      All-map _ _
        (λ m e. elim (sound.exclusive m.sync_id) [
          | inl n ↦ rw (n, e)
          | inr n ↦ absurd (ground arith)
        ])
        s.markers (marker_self s.markers sound.markers)

  pub load_rows-any :
      (x : Text)
      → any (λ r. text_eq r.sync_id x) (load_rows wanted s)
        ≡ (contains x wanted && is_some (find_document x s.documents))
  unfolding load_rows
  load_rows-any x =
      any-keep (λ r. r.sync_id) x _ (contains x wanted) (sort row_before (map row_of s.documents))
        (All-of (λ r. text_eq r.sync_id x ≡ true → contains r.sync_id wanted ≡ contains x wanted)
          (λ r e. ap (λ i. contains i wanted) ((text_eq_iff r.sync_id x).0 e)) _)
      ∙ ap (λ b. contains x wanted && b)
          (any-sort row_before (λ r. text_eq r.sync_id x) (map row_of s.documents)
            ∙ any-documents x s.documents)

  pub load_markers-any :
      (x : Text)
      → ((m : Deleted) → marker x s.markers ≡ some m → m.kind ≡ documents)
      → any (λ m. text_eq m.sync_id x) (load_markers wanted s)
        ≡ (contains x wanted && is_some (marker x s.markers))
  unfolding load_markers
  load_markers-any x kinds =
      any-keep (λ m. m.sync_id) x _ (contains x wanted)
        (sort marker_before (map marker_of (keep (λ m. table_eq m.kind documents) s.markers)))
        (All-of (λ m. text_eq m.sync_id x ≡ true → contains m.sync_id wanted ≡ contains x wanted)
          (λ m e. ap (λ i. contains i wanted) ((text_eq_iff m.sync_id x).0 e)) _)
      ∙ ap (λ b. contains x wanted && b)
          (any-sort marker_before (λ m. text_eq m.sync_id x) _ ∙ any-markers x s.markers kinds)
