-- ===== src/Tests/Syncing.antt =====
-- Two devices that sync: the greeting, the lists, a conflict, and one document.
use meow_ny.Common.{
  ℕ, ◌≡◌, ◌↔◌, refl, true, false, none, some, [], ◌∷◌, ◌++◌, arith, map, Bool-cases, inl, inr,
  if◌then◌else◌, length, subst, ◌||◌,
}
use meow_ny.Common.Text.{Text, text_eq, text_eq_iff}
use meow_ny.Stamp.{parse}
use meow_ny.Sync.{Table, settings, documents, codes, gives, fails, clock_far_off, has_table}
use meow_ny.Sync.Digest.{Holdings, Digest, IsOrdered, entries}
use meow_ny.Sync.Messages.{message, receive_digest, digest_messages, other}
use meow_ny.Sync.Messages.RoundTrip.{IsSendable, receive_digest-digest_messages}
use meow_ny.Sync.Conflicts.{conflicts}
use meow_ny.Sync.Conflicts.Symmetric.{swap, conflicts_comm}
use meow_ny.Sync.Hello.{Hello, both, check_hello, clock_off}
use meow_ny.Sync.Hello.Agreed.{Fits, check_hello_iff, check_hello_back}
use meow_ny.Sync.Documents.{
  DocumentRow, Summary, State, find_document, marker, too_new, apply_documents,
}
use meow_ny.Sync.Documents.Held.{held, newest}
use meow_ny.Sync.Documents.Step.{IsSound}
use meow_ny.Sync.Documents.Batch.{HasContents, Known, apply_documents-newest}
use meow_ny.Sync.Documents.Sent.{holdings, send_documents}
use meow_ny.Sync.Documents.Converge.{OwnKinds, Timely, exchange_converges}

-- the greeting

abbrev my_clock : Text
my_clock = codes "1700000000000-0000-0123abcd"

abbrev my_hello : Hello
my_hello = record {
  device_id = codes "0123abcd0123abcd0123abcd0123abcd";
  name = codes "desk";
  app_version = codes "1.0";
  schema = 13;
  protocol = 5;
  clock = my_clock;
  currency = codes "EUR";
  generation = 1;
  since = none;
  mode = both;
}

abbrev their_hello : Hello
their_hello = record my_hello {
  device_id = codes "4567abcd4567abcd4567abcd4567abcd";
  clock = codes "1700000090500-0007-4567abcd";
}

my_time :
    parse my_clock ≡ some (record { ms = 1700000000000; counter = 0; device = codes "0123abcd" })
unfolding parse
my_time = refl

accepted : check_hello my_hello their_hello 1700000000000 ≡ gives (clock_off 90 ∷ [])
unfolding check_hello parse
accepted = refl

check_hello_iff_example :
    (check_hello my_hello their_hello 1700000000000 ≡ gives (clock_off 90 ∷ []))
    ↔ Fits my_hello their_hello 1700000000000 (clock_off 90 ∷ [])
check_hello_iff_example = check_hello_iff my_hello their_hello 1700000000000 (clock_off 90 ∷ [])

check_hello_back_example : check_hello their_hello my_hello 1700000000000 ≡ gives []
check_hello_back_example =
    check_hello_back my_hello their_hello 1700000000000 1700000000000 (clock_off 90 ∷ [])
      (record { ms = 1700000000000; counter = 0; device = codes "0123abcd" }) accepted my_time
      (omega arith)

-- the lists

abbrev old_stamp : Text
old_stamp = codes "1600000000000-0000-0123abcd"

abbrev new_stamp : Text
new_stamp = codes "1600000000009-0000-4567abcd"

abbrev mine_list : Digest
mine_list settings =
    some (record { sync_id = codes "settings"; stamp = old_stamp; deleted = false } ∷ [])
mine_list documents = some (
    record { sync_id = codes "aa"; stamp = old_stamp; deleted = false }
    ∷ record { sync_id = codes "bb"; stamp = new_stamp; deleted = true }
    ∷ [])
mine_list t = none

mine_list-IsSendable : IsSendable mine_list
mine_list-IsSendable settings = omega arith
mine_list-IsSendable documents = (((refl, tt), (tt, tt)), omega arith)
mine_list-IsSendable t = (tt, omega arith)

receive_digest-digest_messages_example :
    (got : Digest) × (receive_digest
        (settings ∷ documents ∷ [])
        (map message (digest_messages mine_list (settings ∷ documents ∷ [])) ++ other ∷ [])
      ≡ gives (got, other ∷ []))
    × ((t : Table)
        → got t
          ≡ (if has_table t (settings ∷ documents ∷ []) then some (entries mine_list t) else none))
receive_digest-digest_messages_example =
    receive_digest-digest_messages mine_list (settings ∷ documents ∷ []) (other ∷ [])
      mine_list-IsSendable

-- a conflict

abbrev their_list : Digest
their_list documents =
    some (record { sync_id = codes "aa"; stamp = new_stamp; deleted = false } ∷ [])
their_list t = none

one_conflict : length (conflicts mine_list their_list (documents ∷ []) (some 1500000000000)).0 ≡ 1
unfolding conflicts parse
one_conflict = refl

lists_in_order : (t : Table) → IsOrdered (entries mine_list t) × IsOrdered (entries their_list t)
lists_in_order settings = ((tt, tt), tt)
lists_in_order documents = (((refl, tt), (tt, tt)), (tt, tt))
lists_in_order t = (tt, tt)

conflicts_comm_example :
    ((conflicts their_list mine_list (documents ∷ []) (some 1500000000000)).0
      ≡ map swap (conflicts mine_list their_list (documents ∷ []) (some 1500000000000)).0)
    × ((conflicts their_list mine_list (documents ∷ []) (some 1500000000000)).1
        ≡ (conflicts mine_list their_list (documents ∷ []) (some 1500000000000)).1)
conflicts_comm_example =
    conflicts_comm mine_list their_list (documents ∷ []) (some 1500000000000) none lists_in_order

-- one document

abbrev receipt : DocumentRow
receipt = record {
  sync_id = codes "aa";
  stamp = new_stamp;
  name = codes "receipt.pdf";
  media_type = codes "application/pdf";
  size_bytes = 900;
  sha256 = codes "00ff";
  document_date = codes "2026-03-01";
  keep_on_phone = 1;
  created_at = codes "2026-03-01T10:00:00Z";
  updated_at = codes "2026-03-02T10:00:00Z";
}

abbrev nothing_done : Summary
nothing_done = record {
  added = 0;
  updated = 0;
  replaced = 0;
  kept_yours = 0;
  deleted = 0;
  merged = 0;
  dropped = 0;
}

-- Here the document was renamed; there it had been deleted before.
abbrev desk : State
desk = record {
  documents = record { id = 4; row = receipt } ∷ [];
  links = [];
  others = λ t. [];
  markers = [];
  summary = nothing_done;
}

abbrev pocket : State
pocket = record {
  documents = [];
  links = [];
  others = λ t. [];
  markers = record { sync_id = codes "aa"; kind = documents; stamp = old_stamp } ∷ [];
  summary = nothing_done;
}

desk-IsSound : IsSound desk
unfolding marker
desk-IsSound = record { table = (tt, tt); markers = tt; exclusive = λ x. inr refl }

pocket-IsSound : IsSound pocket
unfolding find_document marker
pocket-IsSound = record { table = tt; markers = (refl, tt); exclusive = λ x. inl refl }

abbrev receipt_contents : Text → Text × ℕ × Text
receipt_contents x = (codes "application/pdf", 900, codes "00ff")

desk-Known : Known receipt_contents desk
unfolding find_document marker
desk-Known x q e = elim (Bool-cases (text_eq (codes "aa") x)) [
  | inl here ↦
      let same : receipt ≡ q = ground arith in
      subst (HasContents receipt_contents) (same) (refl, refl, refl)
  | inr there ↦ absurd (ground arith)
]

pocket-Known : Known receipt_contents pocket
unfolding find_document marker
pocket-Known x q e = elim (Bool-cases (text_eq (codes "aa") x)) [
  | inl here ↦ absurd (ground arith)
  | inr there ↦ absurd (ground arith)
]

abbrev all_documents : Text → Table
all_documents x = documents

desk-OwnKinds : OwnKinds receipt_contents all_documents desk
unfolding marker
desk-OwnKinds x m e = absurd (cc)

pocket-OwnKinds : OwnKinds receipt_contents all_documents pocket
unfolding marker
pocket-OwnKinds x m e = elim (Bool-cases (text_eq (codes "aa") x)) [
  | inl here ↦ ground arith
  | inr there ↦ absurd (ground arith)
]

abbrev no_others : Holdings
no_others = record { settings_stamp = none; rows = λ t. []; markers = [] }

new_stamp-timely : too_new 1700000000000 new_stamp ≡ false
unfolding too_new parse
new_stamp-timely = refl

old_stamp-timely : too_new 1700000000000 old_stamp ≡ false
unfolding too_new parse
old_stamp-timely = refl

desk-Timely : Timely 1700000000000 desk
unfolding find_document marker
desk-Timely x = elim (Bool-cases (text_eq (codes "aa") x)) [
  | inl here ↦ rw here new_stamp-timely
  | inr there ↦ rw there tt
]

pocket-Timely : Timely 1700000000000 pocket
unfolding find_document marker
pocket-Timely x = elim (Bool-cases (text_eq (codes "aa") x)) [
  | inl here ↦ rw here old_stamp-timely
  | inr there ↦ rw there tt
]

-- A stamp days ahead of the clock is refused.
refused : apply_documents 1599000000000 none (receipt ∷ []) [] pocket ≡ fails clock_far_off
unfolding apply_documents too_new parse
refused = refl

exchange_converges_example :
    let (rows, marks) = send_documents (holdings no_others desk) (holdings no_others pocket) desk in
    let (rows', marks') =
      send_documents (holdings no_others pocket) (holdings no_others desk) pocket in
    (s' t' : State) × (apply_documents 1700000000000 none rows' marks' desk ≡ gives s')
    × (apply_documents 1700000000000 none rows marks pocket ≡ gives t')
    × (held s' (codes "aa") ≡ held t' (codes "aa"))
    × (held s' (codes "aa") ≡ newest (held desk (codes "aa")) (held pocket (codes "aa")))
unfolding find_document marker
exchange_converges_example =
    exchange_converges receipt_contents all_documents 1700000000000 1700000000000 none none
      no_others no_others desk pocket (codes "aa") desk-IsSound pocket-IsSound desk-Known
      pocket-Known desk-OwnKinds pocket-OwnKinds desk-Timely pocket-Timely refl
      (λ same. let differ : false ≡ true = (text_eq_iff new_stamp old_stamp).1 same in absurd (cc))

apply_documents-newest_example :
    (s' : State) × (apply_documents 1700000000000 (some 5) (receipt ∷ []) [] pocket ≡ gives s')
    × IsSound s'
    × Known receipt_contents s'
    × ((x : Text)
        → held s' x ≡ (
            if text_eq (codes "aa") x || false || false
            then newest (held pocket x) (held desk x)
            else held pocket x))
unfolding find_document marker
apply_documents-newest_example =
    apply_documents-newest receipt_contents 1700000000000 (some 5) (receipt ∷ []) [] (held desk)
      pocket pocket-IsSound pocket-Known (((refl, refl, refl), refl), tt) tt (new_stamp-timely, tt)
      tt
