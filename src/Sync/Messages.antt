-- ===== src/Sync/Messages.antt =====
-- The lists on their way: `digest_messages` and `DigestCollector` of src-tauri/src/sync/engine.rs,
-- and `receive_digest` of flow.rs.
pub mod RoundTrip
use meow_ny.Common.{
  ℕ, zero, suc, ◌+◌, ◌≡◌, refl, Bool, true, false, ◌||◌, Option, none, some, List, [], ◌∷◌, ◌++◌,
  arith, length, take, drop, get_elem?, map, leb, ltb, ◌==◌, if◌then◌else◌,
}
use meow_ny.Common.Chunks.{chunks}
use meow_ny.Common.Text.{Text, text_eq}
use meow_ny.Sync.{
  Table, table_eq, codes, WireError, SyncError, Answer, fails, gives, ◌>>=◌, ◌>>◌, fail_if, map_err,
  ok_or,
}
use meow_ny.Sync.Digest.{Entry, Entries, get, insert, Digest, empty, put, entries}

abbrev pub max_entries_per_message : ℕ
max_entries_per_message = 400

abbrev pub max_rows_per_table : ℕ
max_rows_per_table = 2000000

-- `[sync_id, stamp, deleted]`
abbrev pub WireEntry : Type 0
WireEntry = Text × Text × ℕ

abbrev pub to_wire : Entry → WireEntry
to_wire e = (e.sync_id, e.stamp, if e.deleted then 1 else 0)

abbrev pub of_wire : WireEntry → Entry
of_wire (id, stamp, deleted) = record { sync_id = id; stamp = stamp; deleted = deleted == 1 }

pub record DigestMessage : Type 0 where
  pub table : Table
  pub entries : List WireEntry
  pub last : Bool

abbrev pub is_nil {ℓ} : {A : Type ℓ} → List A → Bool
is_nil [] = true
is_nil (x ∷ xs) = false

-- A table without entries still gets a message.
abbrev at_least_one : List (List WireEntry) → List (List WireEntry)
at_least_one [] = [] ∷ []
at_least_one (c ∷ cs) = c ∷ cs

unfoldable pub table_messages : Table → List (List WireEntry) → List DigestMessage
table_messages t [] = []
table_messages t (c ∷ cs) =
    record { table = t; entries = c; last = is_nil cs } ∷ table_messages t cs

abbrev pub pieces : Entries → List (List WireEntry)
pieces es = at_least_one (chunks max_entries_per_message (map to_wire es))

unfoldable pub digest_messages : Digest → List Table → List DigestMessage
unfolding table_messages chunks
digest_messages d [] = []
digest_messages d (t ∷ ts) = table_messages t (pieces (entries d t)) ++ digest_messages d ts

pub record DigestCollector : Type 0 where
  pub expected : List Table
  pub position : ℕ
  pub collected : Digest
  pub current : Entries

abbrev pub new : List Table → DigestCollector
new expected = record { expected = expected; position = 0; collected = empty; current = [] }

abbrev is_some {ℓ} : {A : Type ℓ} → Option A → Bool
is_some none = false
is_some (some a) = true

-- The loop over the entries of a message.
unfoldable pub take_in : List WireEntry → Entries → Answer SyncError Entries
unfolding get insert
take_in [] current = gives current
take_in ((id, stamp, deleted) ∷ ws) current =
    fail_if (leb max_rows_per_table (length current) || is_some (get id current))
      (SyncError.invalid (codes "list"))
    >> take_in ws (insert (of_wire (id, stamp, deleted)) current)

unfoldable pub push : DigestMessage → DigestCollector → Answer SyncError DigestCollector
unfolding take_in put
push m c = ok_or (get_elem? c.expected c.position) (SyncError.wire WireError.order) >>= λ t.
    (if table_eq m.table t
      then take_in m.entries c.current
      else fails (SyncError.wire WireError.order))
    >>= λ current. gives (
        if m.last
        then record c {
          collected = put t current c.collected;
          current = [];
          position = c.position + 1;
        }
        else record c { current = current })

abbrev pub is_complete : DigestCollector → Bool
is_complete c = c.position == length c.expected

abbrev pub finish : DigestCollector → Answer SyncError Digest
finish c = if is_complete c then gives c.collected else fails (SyncError.wire WireError.order)

-- How a conversation ends early.
pub data FlowError : Type 0 where
  net : FlowError
  sync : SyncError → FlowError
  peer : (code message : Text) → FlowError
  protocol : Text → FlowError
  declined : FlowError

-- What arrives over the connection: a message that the reader waits for, the other device's error,
-- or a message of another kind.
pub data Received (M : Type 0) : Type 0 where
  message : M → Received M
  error : (code text : Text) → Received M
  other : Received M

-- `next`, and the message of the kind that is waited for.
unfoldable pub next : {M : Type 0} → Text → Received M → Answer FlowError M
next expected (message m) = gives m
next expected (error code text) =
    fails (if text_eq code (codes "cancelled") then declined else peer code text)
next expected other = fails (protocol expected)

-- A loop that reads messages until a collector is complete, and leaves the rest unread. A connection
-- with nothing left to read is broken.
module _ {M C : Type 0} (complete : C → Bool) (take_message : M → C → Answer SyncError C)
    (expected : Text) where
  unfoldable pub read_until : C → List (Received M) → Answer FlowError (C × List (Received M))
  unfolding next
  read_until c [] = if complete c then gives (c, []) else fails net
  read_until c (m ∷ ms) =
      let more =
        (next expected m >>= λ m'. map_err sync (take_message m' c) >>= λ c'. read_until c' ms) in
      if complete c then gives (c, m ∷ ms) else more

-- `receive_digest`
unfoldable pub receive_digest :
    List Table
    → List (Received DigestMessage)
    → Answer FlowError (Digest × List (Received DigestMessage))
unfolding push read_until
receive_digest tables ms =
    read_until is_complete push (codes "message instead of the lists") (new tables) ms >>= λ r.
    map_err sync (finish r.0) >>= λ d. gives (d, r.1)
