-- ===== src/Sync/Documents/Batch.antt =====
-- A whole batch: every id ends with the newer of what is held and what came for it.
use meow_ny.Common.{
  ℕ, ◌≡◌, refl, ap, sym, ◌∙◌, Bool, true, false, ◌||◌, Option, List, [], ◌∷◌, arith, if◌then◌else◌,
  All, All-map, any, Bool-cases, inl, inr,
}
use meow_ny.Common.Text.{Text, text_eq, text_eq_iff, text_eq_refl}
use meow_ny.Common.Sort.{sort, sort-All, any-sort}
use meow_ny.Sync.{gives}
use meow_ny.Sync.Documents.{
  DocumentRow, Marker, State, document_rows, row_before, document_marker, document_markers,
  marker_before, too_new, apply_documents,
}
use meow_ny.Sync.Documents.Rows.{find-sync_id}
use meow_ny.Sync.Documents.Held.{Held, live, gone, is_newer, newest, held}
use meow_ny.Sync.Documents.Step.{IsSound, Agrees, Takes}
use meow_ny.Sync.Documents.Merge.{document_row-Merges, document_marker-Takes}

All-any : {A : Type 0} (p : A → Bool) (xs : List A) → All (λ x. p x ≡ false) xs → any p xs ≡ false
All-any p [] h = refl
All-any p (x ∷ xs) h = rw (h.0, All-any p xs h.1) refl

newest_self : (v : Held) → newest v v ≡ v
newest_self v = elim (Bool-cases (is_newer v v)) [ inl e ↦ rw e | inr e ↦ rw e ]

-- The same version twice is the same as once.
newest_again : (h v : Held) → newest (newest h v) v ≡ newest h v
newest_again h v = elim (Bool-cases (is_newer h v)) [
  | inl e ↦ rw e (newest_self v)
  | inr e ↦ rw (e, e)
]

abbrev choose : Held → Held → Bool → Held
choose h v b = if b then newest h v else h

-- First the rows and then the markers bring the version `v`, or do not.
twice :
    (h v : Held) (a b : Bool) {h' h'' : Held}
    → h' ≡ choose h v a
    → h'' ≡ choose h' v b
    → h'' ≡ choose h v (a || b)
twice h v true true e k = k ∙ ap (λ z. newest z v) e ∙ newest_again h v
twice h v true false e k = k ∙ e
twice h v false true e k = k ∙ ap (λ z. newest z v) e
twice h v false false e k = k ∙ e

-- One id is followed through a list of changes.
module _ {A : Type 0} (key : A → Text) (value : A → Held) where
  after : Text → Held → List A → Held
  after x h [] = h
  after x h (a ∷ as') = after x (if text_eq (key a) x then newest h (value a) else h) as'

  abbrev mentions : Text → List A → Bool
  mentions x = any (λ a. text_eq (key a) x)

  after-newest :
      (x : Text) (h v : Held) (as' : List A)
      → All (λ a. text_eq (key a) x ≡ true → value a ≡ v) as'
      → after x h as' ≡ (if mentions x as' then newest h v else h)
  unfolding after
  after-newest x h v [] k = refl
  after-newest x h v (a ∷ as') k = elim (Bool-cases (text_eq (key a) x)) [
    | inl here ↦
        rw (here, k.0 here, after-newest x (newest h v) v as' k.1, newest_again) (ground arith)
    | inr there ↦ rw (there, after-newest x h v as' k.1)
  ]

-- What every document holds for good: its kind, its size and its hash, by its id.
module _ (contents : Text → Text × ℕ × Text) where
  abbrev pub HasContents : DocumentRow → Type 0
  HasContents r =
      (r.media_type ≡ (contents r.sync_id).0)
      × (r.size_bytes ≡ (contents r.sync_id).1)
      × (r.sha256 ≡ (contents r.sync_id).2)

  abbrev pub Known : State → Type 0
  Known s = (x : Text) (q : DocumentRow) → held s x ≡ live q → HasContents q

  Known-Agrees : (r : DocumentRow) (s : State) → Known s → HasContents r → Agrees r s
  Known-Agrees r s known has d e =
      let had : HasContents d.row = known r.sync_id d.row (rw e) in
      let id : d.row.sync_id ≡ r.sync_id = find-sync_id r.sync_id s.documents {d = d} e in
      let kind : d.row.media_type ≡ r.media_type =
        had.0 ∙ ap (λ t. (contents t).0) id ∙ sym has.0 in
      let size : d.row.size_bytes ≡ r.size_bytes =
        had.1 ∙ ap (λ t. (contents t).1) id ∙ sym has.1 in
      let hash : d.row.sha256 ≡ r.sha256 = had.2 ∙ ap (λ t. (contents t).2) id ∙ sym has.2 in
      rw (kind, size, hash, text_eq_refl r.media_type, text_eq_refl r.sha256) (ground arith)

  Known-Takes :
      (id : Text) (v : Held) (s s' : State)
      → ((q : DocumentRow) → v ≡ live q → HasContents q)
      → Takes id v s s'
      → Known s
      → Known s'
  Known-Takes id v s s' fits takes known x q e = elim (Bool-cases (text_eq id x)) [
    | inr there ↦ known x q (sym (takes x ∙ rw there) ∙ e)
    | inl here ↦ elim (Bool-cases (is_newer (held s x) v)) [
      | inl newer ↦ fits q (sym (takes x ∙ rw (here, newer)) ∙ e)
      | inr older ↦ known x q (sym (takes x ∙ rw (here, older)) ∙ e)
    ]
  ]

  abbrev row_id : DocumentRow → Text
  row_id r = r.sync_id

  abbrev marker_id : Marker → Text
  marker_id m = m.sync_id

  abbrev marker_value : Marker → Held
  marker_value m = gone m.stamp

  document_rows-after :
      (since : Option ℕ) (rs : List DocumentRow) (s : State)
      → IsSound s
      → Known s
      → All HasContents rs
      → (s' : State) × (document_rows since rs s ≡ gives s')
        × IsSound s'
        × Known s'
        × ((x : Text) → held s' x ≡ after row_id live x (held s x) rs)
  unfolding document_rows after
  document_rows-after since [] s sound known has = (s, refl, sound, known, λ x. refl)
  document_rows-after since (r ∷ rs) s sound known has =
      let (t, steps, good, takes) =
        document_row-Merges s sound since r (Known-Agrees r s known has.0) in
      let known_t : Known t =
        Known-Takes r.sync_id (live r) s t (λ q e. ground arith) takes known in
      let (s', rest, sound', known', ends) = document_rows-after since rs t good known_t has.1 in
      (
        s',
        rw steps rest,
        sound',
        known',
        λ x. ends x ∙ ap (λ h. after row_id live x h rs) (takes x),
      )

  document_markers-after :
      (ms : List Marker) (s : State)
      → IsSound s
      → Known s
      → IsSound (document_markers ms s)
        × Known (document_markers ms s)
        × ((x : Text)
            → held (document_markers ms s) x ≡ after marker_id marker_value x (held s x) ms)
  unfolding document_markers after
  document_markers-after [] s sound known = (sound, known, λ x. refl)
  document_markers-after (m ∷ ms) s sound known =
      let (good, takes) = document_marker-Takes s sound m in
      let t = document_marker m s in
      let known_t : Known t =
        Known-Takes m.sync_id (gone m.stamp) s t (λ q e. absurd (cc)) takes known in
      let (sound', known', ends) = document_markers-after ms t good known_t in
      (sound', known', λ x. ends x ∙ ap (λ h. after marker_id marker_value x h ms) (takes x))

  -- A batch that brings what another device holds, with stamps that can be read and are at most a
  -- day ahead of the clock, is not refused: every id that it mentions ends with the newer of the
  -- two versions, and every other one as it was.
  pub apply_documents-newest :
      (now_ms : ℕ) (since : Option ℕ) (rs : List DocumentRow) (ms : List Marker)
      (theirs : Text → Held) (s : State)
      → IsSound s
      → Known s
      → All (λ r. HasContents r × (theirs r.sync_id ≡ live r)) rs
      → All (λ m. theirs m.sync_id ≡ gone m.stamp) ms
      → All (λ r. too_new now_ms r.stamp ≡ false) rs
      → All (λ m. too_new now_ms m.stamp ≡ false) ms
      → (s' : State) × (apply_documents now_ms since rs ms s ≡ gives s')
        × IsSound s'
        × Known s'
        × ((x : Text)
            → held s' x ≡ (
                if mentions row_id live x rs || mentions marker_id marker_value x ms
                then newest (held s x) (theirs x)
                else held s x))
  unfolding apply_documents
  apply_documents-newest now_ms since rs ms theirs s sound known has_rows has_markers in_time
        in_time' =
      let rows = sort row_before rs in
      let marks = sort marker_before ms in
      let sorted_rows = sort-All row_before _ rs has_rows in
      let sorted_marks = sort-All marker_before _ ms has_markers in
      let (t, steps, good, known_t, ends) =
        document_rows-after since rows s sound known (All-map _ _ (λ r k. k.0) rows sorted_rows) in
      let (sound', known', last) = document_markers-after marks t good known_t in
      (
        document_markers marks t,
        rw
            (
              All-any (λ r. too_new now_ms r.stamp) rs in_time,
              All-any (λ m. too_new now_ms m.stamp) ms in_time',
              steps,
            )
            refl,
        sound',
        known',
        λ x.
            let of_rows = after-newest row_id live x (held s x) (theirs x) rows (
              All-map _ _ (λ r k e. sym k.1 ∙ ap theirs ((text_eq_iff r.sync_id x).0 e)) rows
                sorted_rows) in
            let of_marks = after-newest marker_id marker_value x (held t x) (theirs x) marks (
              All-map _ _ (λ m k e. sym k ∙ ap theirs ((text_eq_iff m.sync_id x).0 e)) marks
                sorted_marks) in
            twice (held s x) (theirs x) (mentions row_id live x rs)
              (mentions marker_id marker_value x ms)
              (ends x
                ∙ of_rows
                ∙ ap (choose (held s x) (theirs x))
                    (any-sort row_before (λ r. text_eq r.sync_id x) rs))
              (last x
                ∙ of_marks
                ∙ ap (choose (held t x) (theirs x))
                    (any-sort marker_before (λ m. text_eq m.sync_id x) ms)),
      )
