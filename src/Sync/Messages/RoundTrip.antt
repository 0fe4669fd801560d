-- ===== src/Sync/Messages/RoundTrip.antt =====
-- The lists that are sent are the lists that are collected.
use mathlib.Core.List.{append_assoc, append-nil, map-append}
use meow_ny.Common.{
  ◌+◌, ◌≤◌, ◌<◌, ◌≡◌, refl, ap, sym, ◌∙◌, true, false, none, some, List, [], ◌∷◌, ◌++◌, arith,
  length, length-append, drop, get_elem?, map, All, leb, if◌then◌else◌, Bool-cases, inl, inr,
}
use meow_ny.Common.Chunks.{chunks, concat, concat-chunks, drop-cons, drop-nil}
use meow_ny.Common.Order.{text_ltb}
use meow_ny.Sync.{Table, table_eq_refl, table_eq_iff, codes, Answer, gives, has_table}
use meow_ny.Sync.Digest.{Entry, Entries, IsOrdered, Digest, put, entries}
use meow_ny.Sync.Digest.Entries.{insert_last, get_before}
use meow_ny.Sync.Messages.{
  max_entries_per_message, max_rows_per_table, WireEntry, to_wire, of_wire, DigestMessage, is_nil,
  at_least_one, table_messages, pieces, digest_messages, DigestCollector, new, take_in, push,
  is_complete, message, Received, read_until, receive_digest, FlowError,
}

concat-at_least_one : (cs : List (List WireEntry)) → concat (at_least_one cs) ≡ concat cs
concat-at_least_one [] = refl
concat-at_least_one (c ∷ cs) = refl

of_wire-to_wire : (e : Entry) → of_wire (to_wire e) ≡ e
of_wire-to_wire e = elim (Bool-cases e.deleted) [ inl d ↦ ground arith | inr d ↦ ground arith ]

map-of_wire-to_wire : (es : Entries) → map of_wire (map to_wire es) ≡ es
map-of_wire-to_wire [] = refl
map-of_wire-to_wire (e ∷ es) = λ i. of_wire-to_wire e i ∷ map-of_wire-to_wire es i

concat-pieces : (es : Entries) → map of_wire (concat (pieces es)) ≡ es
concat-pieces es =
    ap (map of_wire) (
      concat-at_least_one (chunks max_entries_per_message (map to_wire es))
      ∙ concat-chunks 399 (map to_wire es))
    ∙ map-of_wire-to_wire es

-- the entries of a message

before_of_ordered :
    (front : Entries) (e : Entry) (back : Entries)
    → IsOrdered (front ++ e ∷ back)
    → All (λ f. text_ltb f.sync_id e.sync_id ≡ true) front
before_of_ordered [] e back h = tt
before_of_ordered (f ∷ front) e back h = (
  middle (λ g. text_ltb f.sync_id g.sync_id ≡ true) front h.0,
  before_of_ordered front e back h.1,
)
  where
    middle : (P : Entry → Type 0) (xs : Entries) → All P (xs ++ e ∷ back) → P e
    middle P [] k = k.0
    middle P (x ∷ xs) k = middle P xs k.1

take_in-ordered :
    (ws : List WireEntry) (current : Entries)
    → IsOrdered (current ++ map of_wire ws)
    → length (current ++ map of_wire ws) ≤ max_rows_per_table
    → take_in ws current ≡ gives (current ++ map of_wire ws)
unfolding take_in
take_in-ordered [] current h fits = ap gives (sym (append-nil current))
take_in-ordered (w ∷ ws) current h fits =
    let before = before_of_ordered current (of_wire w) (map of_wire ws) h in
    let whole : (current ++ of_wire w ∷ []) ++ map of_wire ws
        ≡ current ++ of_wire w ∷ map of_wire ws =
      append_assoc current (of_wire w ∷ []) (map of_wire ws) in
    let room : leb max_rows_per_table (length current) ≡ false =
      ground (arith, length-append current (of_wire w ∷ map of_wire ws)) in
    rw (room, get_before w.0 current before, insert_last (of_wire w) current before)
      (take_in-ordered ws (current ++ of_wire w ∷ []) (rw whole h) (rw whole fits) ∙ ap gives whole)

abbrev reading :
    DigestCollector
    → List (Received DigestMessage)
    → Answer FlowError (DigestCollector × List (Received DigestMessage))
reading = read_until is_complete push (codes "message instead of the lists")

read_until_complete :
    (c : DigestCollector) (ms : List (Received DigestMessage))
    → is_complete c ≡ true
    → reading c ms ≡ gives (c, ms)
unfolding read_until
read_until_complete c [] h = rw h
read_until_complete c (m ∷ ms) h = rw h

abbrev received : List DigestMessage → List (Received DigestMessage) → List (Received DigestMessage)
received ms rest = map message ms ++ rest

front-IsOrdered : (front back : Entries) → IsOrdered (front ++ back) → IsOrdered front
front-IsOrdered [] back h = tt
front-IsOrdered (e ∷ front) back h = (cut front h.0, front-IsOrdered front back h.1)
  where
    cut :
        (xs : Entries)
        → All (λ f. text_ltb e.sync_id f.sync_id ≡ true) (xs ++ back)
        → All (λ f. text_ltb e.sync_id f.sync_id ≡ true) xs
    cut [] k = tt
    cut (x ∷ xs) k = (k.0, cut xs k.1)

after_message : DigestMessage → Entries → DigestCollector → DigestCollector
after_message m es c =
    if m.last
    then record c {
      collected = put m.table es c.collected;
      current = [];
      position = c.position + 1;
    }
    else record c { current = es }

push-gives :
    (c : DigestCollector) (m : DigestMessage) (es : Entries)
    → get_elem? c.expected c.position ≡ some m.table
    → take_in m.entries c.current ≡ gives es
    → push m c ≡ gives (after_message m es c)
unfolding push after_message
push-gives c m es at e = rw (at, table_eq_refl m.table, e) (ground arith)

read_step :
    (c : DigestCollector) (m : DigestMessage) (ms : List (Received DigestMessage))
    {c' : DigestCollector}
    → push m c ≡ gives c'
    → c.position < length c.expected
    → reading c (message m ∷ ms) ≡ reading c' ms
unfolding read_until
read_step c m ms e less = let open_yet : is_complete c ≡ false = ground arith in rw (open_yet, e)

-- The collector after the table that it stands at.
abbrev next_table : Table → Entries → DigestCollector → DigestCollector
next_table t es c = record c {
  collected = put t es c.collected;
  current = [];
  position = c.position + 1;
}

read_table :
    (t : Table) (cs : List (List WireEntry)) (es : Entries) (c : DigestCollector)
    (rest : List (Received DigestMessage))
    → is_nil cs ≡ false
    → get_elem? c.expected c.position ≡ some t
    → c.position < length c.expected
    → c.current ++ map of_wire (concat cs) ≡ es
    → IsOrdered es
    → length es ≤ max_rows_per_table
    → reading c (received (table_messages t cs) rest) ≡ reading (next_table t es c) rest
unfolding table_messages after_message
read_table t [] es c rest filled at less e ordered fits = absurd (cc)
read_table t (w ∷ []) es c rest filled at less e ordered fits =
    let m : DigestMessage = record { table = t; entries = w; last = true } in
    let all_in : c.current ++ map of_wire w ≡ es =
      ap (λ x. c.current ++ map of_wire x) (sym (append-nil w)) ∙ e in
    read_step c m rest
      (push-gives c m es at
        (take_in-ordered w c.current (rw all_in ordered) (rw all_in fits) ∙ ap gives all_in))
      less
read_table t (w ∷ v ∷ cs) es c rest filled at less e ordered fits =
    let m : DigestMessage = record { table = t; entries = w; last = false } in
    let whole : (c.current ++ map of_wire w) ++ map of_wire (concat (v ∷ cs)) ≡ es =
      append_assoc c.current (map of_wire w) _
      ∙ ap (λ x. c.current ++ x) (sym (map-append of_wire w (concat (v ∷ cs))))
      ∙ e in
    read_step c m (received (table_messages t (v ∷ cs)) rest)
      (push-gives c m (c.current ++ map of_wire w) at (
        take_in-ordered w c.current
          (front-IsOrdered (c.current ++ map of_wire w) (map of_wire (concat (v ∷ cs)))
            (rw whole ordered))
          (omega (
            arith,
            ap length whole,
            length-append (c.current ++ map of_wire w) (map of_wire (concat (v ∷ cs))),
          ))))
      less
    ∙ read_table t (v ∷ cs) es (record c { current = c.current ++ map of_wire w }) rest refl at less
        whole ordered fits

finished : Digest → List Table → DigestCollector → DigestCollector
finished d [] c = c
finished d (t ∷ ts) c = finished d ts (next_table t (entries d t) c)

-- Every list is in order, and none is too long.
abbrev pub IsSendable : Digest → Type 0
IsSendable d = (t : Table) → IsOrdered (entries d t) × (length (entries d t) ≤ max_rows_per_table)

pieces_filled : (es : Entries) → is_nil (pieces es) ≡ false
pieces_filled es = filled (chunks max_entries_per_message (map to_wire es))
  where
    filled : (cs : List (List WireEntry)) → is_nil (at_least_one cs) ≡ false
    filled [] = refl
    filled (c ∷ cs) = refl

module _ (d : Digest) (sendable : IsSendable d) (rest : List (Received DigestMessage)) where
  read_tables :
      (ts : List Table) (c : DigestCollector)
      → drop c.position c.expected ≡ ts
      → c.position ≤ length c.expected
      → c.current ≡ []
      → (reading c (received (digest_messages d ts) rest) ≡ gives (finished d ts c, rest))
        × (is_complete (finished d ts c) ≡ true)
  unfolding digest_messages finished
  read_tables [] c left within clear =
      let complete : is_complete c ≡ true = ground (arith, drop-nil c.expected c.position left) in
      (read_until_complete c rest complete, complete)
  read_tables (t ∷ ts) c left within clear =
      let (here, after, less) = drop-cons c.expected c.position {x = t} {rest = ts} left in
      let whole : c.current ++ map of_wire (concat (pieces (entries d t))) ≡ entries d t =
        rw clear (concat-pieces (entries d t)) in
      let (read, complete) =
        read_tables ts (next_table t (entries d t) c) after (omega arith) refl in
      let (ordered, fits) = sendable t in
      let both : received (table_messages t (pieces (entries d t)) ++ digest_messages d ts) rest
          ≡ received (table_messages t (pieces (entries d t)))
              (received (digest_messages d ts) rest) =
        rw (map-append, append_assoc) in
      (
        ap (reading c) both
            ∙ read_table t (pieces (entries d t)) (entries d t) c
                (received (digest_messages d ts) rest) (pieces_filled (entries d t)) here less whole
                ordered fits
            ∙ read,
        complete,
      )

collected-finished :
    (d : Digest) (ts : List Table) (c : DigestCollector) (t : Table)
    → (finished d ts c).collected t ≡ (if has_table t ts then some (entries d t) else c.collected t)
unfolding finished put
collected-finished d [] c t = refl
collected-finished d (s ∷ ts) c t =
    ground (arith, collected-finished d ts (next_table s (entries d s) c) t, table_eq_iff t s)

-- Lists that are in order and not too long, sent in pieces, are collected by the other device as they
-- are, for just the tables that were asked for, and what comes after them is left to be read.
pub receive_digest-digest_messages :
    (d : Digest) (tables : List Table) (rest : List (Received DigestMessage))
    → IsSendable d
    → (got : Digest) × (receive_digest tables (map message (digest_messages d tables) ++ rest)
        ≡ gives (got, rest))
      × ((t : Table) → got t ≡ (if has_table t tables then some (entries d t) else none))
unfolding receive_digest
receive_digest-digest_messages d tables rest sendable =
    let (read, complete) =
      read_tables d sendable rest tables (new tables) refl (omega arith) refl in
    (
      (finished d tables (new tables)).collected,
      rw (read, complete),
      collected-finished d tables (new tables),
    )
