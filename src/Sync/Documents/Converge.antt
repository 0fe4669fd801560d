-- ===== src/Sync/Documents/Converge.antt =====
-- Two devices that exchange what each holds of the documents end with the same.
use meow_ny.Common.{
  ℕ, ◌≡◌, ◌≢◌, refl, false, subst, ap, sym, ◌∙◌, ◌&&◌, ◌||◌, Option, none, some, arith, any,
  All-map, if◌then◌else◌, Bool-cases, inl, inr,
}
use meow_ny.Common.Text.{Text, text_eq}
use meow_ny.Common.Order.{text_leb_antisym, text_leb_total}
use meow_ny.Sync.{Table, documents, gives}
use meow_ny.Sync.Digest.{Deleted, Holdings, digest, to_send}
use meow_ny.Sync.Documents.{Document, State, find_document, marker, too_new, apply_documents}
use meow_ny.Sync.Documents.Held.{Held, nothing, live, gone, is_newer, newest, holds, held}
use meow_ny.Sync.Documents.Step.{IsSound}
use meow_ny.Sync.Documents.Batch.{HasContents, Known, apply_documents-newest}
use meow_ny.Sync.Documents.Sent.{
  holdings, contains, send_documents, load_rows, load_markers, load_rows-All, load_markers-All,
  sent_rows-held, sent_markers-held, load_rows-any, load_markers-any, is_some,
}
use meow_ny.Sync.Documents.Listed.{contains-to_send}

-- The stamp of a version can be read, and is at most a day ahead of the clock.
abbrev pub OnTime : ℕ → Held → Type 0
OnTime now_ms nothing = Unit
OnTime now_ms (live r) = too_new now_ms r.stamp ≡ false
OnTime now_ms (gone stamp) = too_new now_ms stamp ≡ false

abbrev pub Timely : ℕ → State → Type 0
Timely now_ms s = (x : Text) → OnTime now_ms (held s x)

-- Of two versions under one id, the stamps tell them apart.
abbrev pub Settled : Held → Held → Type 0
Settled nothing v = Unit
Settled (live r) nothing = Unit
Settled (live r) (live q) = r.stamp ≡ q.stamp → live r ≡ live q
Settled (live r) (gone stamp) = r.stamp ≢ stamp
Settled (gone stamp) nothing = Unit
Settled (gone stamp) (live q) = stamp ≢ q.stamp
Settled (gone stamp) (gone stamp') = Unit

-- Whichever side asks, the newest is the same.
newest_comm : (h v : Held) → Settled h v → newest h v ≡ newest v h
newest_comm nothing nothing k = refl
newest_comm nothing (live q) k = refl
newest_comm nothing (gone stamp) k = refl
newest_comm (live r) nothing k = refl
newest_comm (gone s) nothing k = refl
newest_comm (live r) (live q) k =
    ground (arith, text_leb_antisym r.stamp q.stamp, text_leb_total r.stamp q.stamp, k)
newest_comm (live r) (gone s) k =
    ground (arith, text_leb_antisym r.stamp s, text_leb_total r.stamp s, k)
newest_comm (gone s) (live q) k =
    ground (arith, text_leb_antisym s q.stamp, text_leb_total s q.stamp, k)
newest_comm (gone s) (gone s') k = ground (arith, text_leb_antisym s s', text_leb_total s s')

chosen : (h v : Held) → (if is_newer h v then newest h v else h) ≡ newest h v
chosen h v = elim (Bool-cases (is_newer h v)) [ inl e ↦ rw e | inr e ↦ rw e ]

either_found :
    (h : Held) (o : Option Document) (m : Option Deleted)
    → (is_newer h (holds o m) && is_some o || is_newer h (holds o m) && is_some m)
      ≡ is_newer h (holds o m)
either_found h (some d) m = elim (Bool-cases (is_newer h (live d.row))) [
  | inl e ↦ rw e
  | inr e ↦ rw e
]
either_found h none (some m) = elim (Bool-cases (is_newer h (gone m.stamp))) [
  | inl e ↦ rw e
  | inr e ↦ rw e
]
either_found h none none = ground arith

module _ (contents : Text → Text × ℕ × Text) (kind_of : Text → Table) where
  -- A marker is of the table that its id names a row of.
  abbrev pub OwnKinds : State → Type 0
  OwnKinds s = (x : Text) (m : Deleted) → marker x s.markers ≡ some m → m.kind ≡ kind_of x

  module _ (now_ms : ℕ) (since : Option ℕ) (mine theirs : Holdings) (s t : State)
      (sound_s : IsSound s) (sound_t : IsSound t) (known_s : Known contents s)
      (known_t : Known contents t) (kinds_s : OwnKinds s) (kinds_t : OwnKinds t)
      (timely : Timely now_ms s) where
    -- What one device sends, the other takes in, and then holds the newer version of every document.
    received :
        let (rows, marks) = send_documents (holdings mine s) (holdings theirs t) s in
        (t' : State) × (apply_documents now_ms since rows marks t ≡ gives t')
        × ((x : Text) → kind_of x ≡ documents → held t' x ≡ newest (held t x) (held s x))
    unfolding send_documents
    received =
        let wanted = to_send (digest (holdings mine s)) (digest (holdings theirs t)) documents in
        let rows =
          load_rows-All wanted s (λ r. HasContents contents r × (held s r.sync_id ≡ live r))
            (All-map _ _ (λ d e. (known_s d.row.sync_id d.row e, e)) s.documents
              (sent_rows-held wanted s sound_s)) in
        let marks =
          load_markers-All wanted s (λ m. held s m.sync_id ≡ gone m.stamp)
            (sent_markers-held wanted s sound_s) in
        let (t', steps, sound', known', ends) =
          apply_documents-newest contents now_ms since (load_rows wanted s) (load_markers wanted s)
            (held s) t sound_t known_t rows marks
            (All-map _ _ (λ r k. subst (OnTime now_ms) k.1 (timely r.sync_id)) (load_rows wanted s)
              rows)
            (All-map _ _ (λ m k. subst (OnTime now_ms) k (timely m.sync_id)) (load_markers wanted s)
              marks) in
        (
          t',
          steps,
          λ x kind.
              let of_documents : (m : Deleted) → marker x s.markers ≡ some m → m.kind ≡ documents =
                λ m e. kinds_s x m e ∙ kind in
              let newer : contains x wanted ≡ is_newer (held t x) (held s x) =
                contains-to_send mine theirs s t sound_s sound_t x of_documents
                  (λ m e. kinds_t x m e ∙ kind) in
              let mentioned : (any (λ r. text_eq r.sync_id x) (load_rows wanted s)
                    || any (λ m. text_eq m.sync_id x) (load_markers wanted s))
                  ≡ is_newer (held t x) (held s x) =
                rw (load_rows-any wanted s x, load_markers-any wanted s x of_documents, newer)
                  (either_found (held t x) (find_document x s.documents) (marker x s.markers)) in
              ends x
              ∙ ap (λ b. if b then newest (held t x) (held s x) else held t x) mentioned
              ∙ chosen (held t x) (held s x),
        )

  -- Two devices with sound tables send each other what the other lacks or has older, as their lists
  -- say, with stamps that can be read and are at most a day ahead of the clock of the receiver.
  -- Neither refuses anything, and under every id of a document both then hold the same: the newer
  -- of the two versions, a deletion being a version too. The contents of a document are the same on
  -- both devices, an id names rows of one table only, and two versions under the id differ in stamp.
  pub exchange_converges :
      (my_now their_now : ℕ) (my_since their_since : Option ℕ) (mine theirs : Holdings)
      (s t : State) (x : Text)
      → IsSound s
      → IsSound t
      → Known contents s
      → Known contents t
      → OwnKinds s
      → OwnKinds t
      → Timely their_now s
      → Timely my_now t
      → kind_of x ≡ documents
      → Settled (held s x) (held t x)
      → let (rows, marks) = send_documents (holdings mine s) (holdings theirs t) s in
        let (rows', marks') = send_documents (holdings theirs t) (holdings mine s) t in
        (s' t' : State) × (apply_documents my_now my_since rows' marks' s ≡ gives s')
        × (apply_documents their_now their_since rows marks t ≡ gives t')
        × (held s' x ≡ held t' x)
        × (held s' x ≡ newest (held s x) (held t x))
  exchange_converges my_now their_now my_since their_since mine theirs s t x sound_s sound_t known_s
        known_t kinds_s kinds_t timely_s timely_t kind settled =
      let (t', steps_t, ends_t) =
        received their_now their_since mine theirs s t sound_s sound_t known_s known_t kinds_s
          kinds_t timely_s in
      let (s', steps_s, ends_s) =
        received my_now my_since theirs mine t s sound_t sound_s known_t known_s kinds_t kinds_s
          timely_t in
      (
        s',
        t',
        steps_s,
        steps_t,
        ends_s x kind ∙ newest_comm (held s x) (held t x) settled ∙ sym (ends_t x kind),
        ends_s x kind,
      )
