-- ===== src/Sync/Conflicts/Symmetric.antt =====
-- The two devices, each from its own side, find the same conflicts in the same order.
use mathlib.Core.List.{map-append}
use meow_ny.Common.{
  ℕ, zero, suc, ◌-◌, ◌≡◌, refl, ap, sym, ◌∙◌, true, Option, none, some, List, [], ◌∷◌, arith, map,
  length, length-map, take, All-map, Bool-cases, inl, inr,
}
use meow_ny.Common.Text.{text_eq, text_eq_iff, text_eq_comm, text_leb}
use meow_ny.Common.Order.{text_ltb, text_leb_antisym, text_ltb_trans, text_ltb-ne}
use meow_ny.Sync.{Table, all_tables, has_table}
use meow_ny.Sync.Digest.{Entry, Entries, get, IsOrdered, Digest, entries}
use meow_ny.Sync.Digest.Entries.{Above, get-Above}
use meow_ny.Sync.Conflicts.{
  max_conflicts, Conflict, conflict_threshold, after, differ, found_for, found_in, found_all,
  conflicts,
}

-- The conflict as the other device sees it.
abbrev pub swap : Conflict → Conflict
swap c = record c {
  mine_stamp = c.theirs_stamp;
  mine_deleted = c.theirs_deleted;
  theirs_stamp = c.mine_stamp;
  theirs_deleted = c.mine_deleted;
}

differ_comm : (threshold : ℕ) (a b : Entry) → differ threshold a b ≡ differ threshold b a
unfolding differ
differ_comm threshold a b = ground (arith, text_eq_comm a.stamp b.stamp)

-- An entry below all of the other side finds nothing there.
found_in-Above :
    (threshold : ℕ) (t : Table) (e : Entry) (mine theirs : Entries)
    → Above e.sync_id mine
    → found_in threshold t mine (e ∷ theirs) ≡ found_in threshold t mine theirs
unfolding found_in get
found_in-Above threshold t e [] theirs h = refl
found_in-Above threshold t e (a ∷ mine) theirs h =
    rw (text_ltb-ne e.sync_id a.sync_id h.0, found_in-Above threshold t e mine theirs h.1)

found_in-skip :
    (threshold : ℕ) (t : Table) (e : Entry) (mine theirs : Entries)
    → Above e.sync_id theirs
    → found_in threshold t (e ∷ mine) theirs ≡ found_in threshold t mine theirs
unfolding found_in
found_in-skip threshold t e mine theirs h = rw (get-Above e.sync_id theirs h)

bound_of_head :
    (e f : Entry) (es : Entries)
    → text_ltb e.sync_id f.sync_id ≡ true
    → Above f.sync_id es
    → Above e.sync_id (f ∷ es)
bound_of_head e f es less h =
    (less, All-map _ _ (λ g. text_ltb_trans e.sync_id f.sync_id g.sync_id less) es h)

found_for_comm :
    (threshold : ℕ) (t : Table) (e f : Entry) (rest rest' : List Conflict)
    → f.sync_id ≡ e.sync_id
    → rest' ≡ map swap rest
    → found_for threshold t f (some e) rest' ≡ map swap (found_for threshold t e (some f) rest)
found_for_comm threshold t e f rest rest' same h = elim (Bool-cases (differ threshold e f)) [
  | inl d ↦ rw (differ_comm threshold f e, d, h, same) refl
  | inr d ↦ rw (differ_comm threshold f e, d) h
]

found_in_comm :
    (threshold : ℕ) (t : Table) (mine theirs : Entries)
    → IsOrdered mine
    → IsOrdered theirs
    → found_in threshold t theirs mine ≡ map swap (found_in threshold t mine theirs)
unfolding found_in get
found_in_comm threshold t [] [] h k = refl
found_in_comm threshold t [] (f ∷ theirs) h k = found_in_comm threshold t [] theirs h k.1
found_in_comm threshold t (e ∷ mine) [] h k = found_in_comm threshold t mine [] h.1 k
found_in_comm threshold t (e ∷ mine) (f ∷ theirs) h k =
    elim (Bool-cases (text_eq f.sync_id e.sync_id)) [
      | inl same ↦
          let eq : f.sync_id ≡ e.sync_id = (text_eq_iff _ _).0 same in
          let rests : found_in threshold t theirs (e ∷ mine)
              ≡ map swap (found_in threshold t mine (f ∷ theirs)) =
            found_in-Above threshold t e theirs mine (rw (← eq) k.0)
            ∙ found_in_comm threshold t mine theirs h.1 k.1
            ∙ ap (map swap) (sym (found_in-Above threshold t f mine theirs (rw eq h.0))) in
          rw (text_eq_comm e.sync_id f.sync_id, same) (found_for_comm threshold t e f _ _ eq rests)
      | inr other ↦ elim (Bool-cases (text_leb e.sync_id f.sync_id)) [
        | inl before ↦
            let less : text_ltb e.sync_id f.sync_id ≡ true =
              ground
                (arith, text_leb_antisym e.sync_id f.sync_id, text_eq_iff f.sync_id e.sync_id) in
            let up = bound_of_head e f theirs less k.0 in
            found_in-Above threshold t e (f ∷ theirs) mine up
            ∙ found_in_comm threshold t mine (f ∷ theirs) h.1 k
            ∙ ap (map swap) (sym (found_in-skip threshold t e mine (f ∷ theirs) up))
        | inr after ↦
            let less : text_ltb f.sync_id e.sync_id ≡ true = ground arith in
            let up = bound_of_head f e mine less h.0 in
            found_in-skip threshold t f theirs (e ∷ mine) up
            ∙ found_in_comm threshold t (e ∷ mine) theirs h k.1
            ∙ ap (map swap) (sym (found_in-Above threshold t f (e ∷ mine) theirs up))
      ]
    ]

found_all_comm :
    (threshold : ℕ) (mine theirs : Digest) (tables ts : List Table)
    → ((t : Table) → IsOrdered (entries mine t) × IsOrdered (entries theirs t))
    → found_all threshold theirs mine tables ts
      ≡ map swap (found_all threshold mine theirs tables ts)
unfolding found_all
found_all_comm threshold mine theirs tables [] h = refl
found_all_comm threshold mine theirs tables (t ∷ ts) h =
    let rest = found_all_comm threshold mine theirs tables ts h in
    elim (Bool-cases (has_table t tables)) [
      | inl asked ↦
          let here =
            found_in_comm threshold t (entries mine t) (entries theirs t) (h t).0 (h t).1 in
          rw (asked, here, rest, map-append)
      | inr left_out ↦ rw (left_out, rest)
    ]

map-take : {A B : Type 0} (f : A → B) (n : ℕ) (xs : List A) → map f (take n xs) ≡ take n (map f xs)
map-take f zero xs = refl
map-take f (suc n) [] = refl
map-take f (suc n) (x ∷ xs) = ap (◌∷◌ (f x)) (map-take f n xs)

max_comm : (a b : Option ℕ) → conflict_threshold b a ≡ conflict_threshold a b
max_comm none none = refl
max_comm none (some b) = refl
max_comm (some a) none = refl
max_comm (some a) (some b) = ap some (omega arith)

-- The two devices find the same conflicts in the same order, each with the two versions in its own
-- place, and leave out as many of them, whatever each knows of their last sync, if their lists are in
-- order.
pub conflicts_comm :
    (mine theirs : Digest) (tables : List Table) (my_last their_last : Option ℕ)
    → ((t : Table) → IsOrdered (entries mine t) × IsOrdered (entries theirs t))
    → ((conflicts theirs mine tables (conflict_threshold their_last my_last)).0
        ≡ map swap (conflicts mine theirs tables (conflict_threshold my_last their_last)).0)
      × ((conflicts theirs mine tables (conflict_threshold their_last my_last)).1
          ≡ (conflicts mine theirs tables (conflict_threshold my_last their_last)).1)
unfolding conflicts
conflicts_comm mine theirs tables my_last their_last h =
    rw (max_comm my_last their_last) (of_threshold (conflict_threshold my_last their_last))
  where
    of_threshold :
        (o : Option ℕ)
        → ((conflicts theirs mine tables o).0 ≡ map swap (conflicts mine theirs tables o).0)
          × ((conflicts theirs mine tables o).1 ≡ (conflicts mine theirs tables o).1)
    of_threshold none = (refl, refl)
    of_threshold (some threshold) =
        let same = found_all_comm threshold mine theirs tables all_tables h in
        (
          ap (take max_conflicts) same ∙ sym (map-take swap max_conflicts _),
          ap (λ l. length l - max_conflicts) same ∙ ap (λ n. n - max_conflicts) (length-map _ swap),
        )
