-- ===== src/Backup/Stream/Written.antt =====
-- What the writer has written: the chunks of the data, each sealed under its number.
use meow_ny.Common.{
  ℕ, zero, suc, ◌+◌, ◌≤◌, ◌<◌, ◌≡◌, refl, ap, sym, ◌∙◌, subst, true, false, some, List, [], ◌∷◌,
  ◌++◌, arith, length, take, drop, leb, ◌==◌, length-append, Bool-cases, inl, inr,
}
use mathlib.Core.List.{append_assoc}
use meow_ny.Common.Chunks.{take-drop, concat}
use meow_ny.Common.Slices.{append_nil, append-inj, size_of_take, length-drop}
use meow_ny.Common.Error.{Result, ok, ◌>>=◌}
use meow_ny.Documents.Kinds.{Bytes}
use meow_ny.Backup.Stream.{
  Cipher, chunk_size, tag, nonce, next, ChunkWriter, seal_held, make_room, room, hold, write_rounds,
  write, finish_writer, new_writer,
}

-- A chunk that is sealed is longer by its tag, and opens to what it was; this is what the cipher promises.
pub record IsCipher (c : Cipher) : Type 0 where
  pub seals :
      (n header m : Bytes)
      → length m ≤ chunk_size
      → (s : Bytes) × (c.encrypt n header m ≡ some s)
        × (length s ≡ length m + tag)
        × (c.decrypt n header s ≡ some m)

-- The data from the chunk of a number on, and the bytes of the stream.
pub data Sealed (c : Cipher) (header : Bytes) : ℕ → Bytes → Bytes → Type 0 where
  last :
      {index : ℕ} {d x : Bytes}
      → length d ≤ chunk_size
      → c.encrypt (nonce index true) header d ≡ some x
      → Sealed c header index d x
  more :
      {index : ℕ} {d x : Bytes} (front rest s t : Bytes)
      → length front ≡ chunk_size
      → 1 ≤ length rest
      → d ≡ front ++ rest
      → x ≡ s ++ t
      → c.encrypt (nonce index false) header front ≡ some s
      → Sealed c header (next index) rest t
      → Sealed c header index d x

module _ (c : Cipher) where
  -- The writer that comes after: with the rest of the data it makes the same stream.
  record Goes (w v : ChunkWriter) (rest x : Bytes) : Type 0 where
    header : v.header ≡ w.header
    few : length v.held ≤ chunk_size
    to_come : Bytes
    sealed : Sealed c w.header v.index (v.held ++ rest) to_come
    same : v.out ++ to_come ≡ w.out ++ x

  full-more :
      (header held a x : Bytes) (index : ℕ)
      → length held ≡ chunk_size
      → 1 ≤ length a
      → Sealed c header index (held ++ a) x
      → (s : Bytes) × (t : Bytes) × (c.encrypt (nonce index false) header held ≡ some s)
        × (x ≡ s ++ t)
        × Sealed c header (next index) a t
  full-more header held a x index full some_more (last short e) =
      absurd (omega (arith, length-append held a))
  full-more header held a x index full some_more (more front rest s t size _ whole parts e sealed) =
      let (same, same') = append-inj held a front rest whole (omega arith) in
      (s, t, rw same e, parts, rw same' sealed)

  make_room-Goes :
      (w : ChunkWriter) (a x : Bytes)
      → 1 ≤ length a
      → length w.held ≤ chunk_size
      → Sealed c w.header w.index (w.held ++ a) x
      → (v : ChunkWriter) × (make_room c w ≡ ok v) × (length v.held < chunk_size) × Goes w v a x
  unfolding make_room seal_held
  make_room-Goes w a x some_more few sealed = elim (Bool-cases (length w.held == chunk_size)) [
    | inr space ↦ (
      w,
      ground arith,
      ground arith,
      record { header = refl; few = few; to_come = x; sealed = sealed; same = refl },
    )
    | inl full ↦
        let (s, t, e, parts, later) =
          full-more w.header w.held a x w.index (ground arith) some_more sealed in
        let v = record w { out = w.out ++ s; index = next w.index; held = [] } in
        (
          v,
          ground arith,
          omega arith,
          record {
            header = refl;
            few = omega arith;
            to_come = t;
            sealed = later;
            same = rw (parts) (append_assoc w.out s t);
          },
        )
  ]

  Goes-trans :
      (w v u : ChunkWriter) (a rest x : Bytes) (goes : Goes w v a x)
      → Goes v u rest goes.to_come
      → Goes w u rest x
  Goes-trans w v u a rest x goes onward = record {
    header = onward.header ∙ goes.header;
    few = onward.few;
    to_come = onward.to_come;
    sealed =
        subst (λ h. Sealed c h u.index (u.held ++ rest) onward.to_come) goes.header onward.sealed;
    same = onward.same ∙ goes.same;
  }

  Goes-hold :
      (v u : ChunkWriter) (n : ℕ) (a rest x : Bytes)
      → Goes (hold c v n a) u rest x
      → Goes v u rest x
  Goes-hold v u n a rest x goes = record {
    header = goes.header;
    few = goes.few;
    to_come = goes.to_come;
    sealed = goes.sealed;
    same = goes.same;
  }

  -- What is held goes on with the data in two parts.
  in_parts :
      (held a rest : Bytes) (n : ℕ) → held ++ (a ++ rest) ≡ (held ++ take n a) ++ (drop n a ++ rest)
  in_parts held a rest n =
      rw
        (
          append_assoc held (take n a) (drop n a ++ rest),
          ← append_assoc (take n a) (drop n a) rest,
          take-drop n a,
        )
        refl

  write_rounds-Goes :
      (fuel : ℕ) (w : ChunkWriter) (a rest x : Bytes)
      → length a ≤ fuel
      → length w.held ≤ chunk_size
      → Sealed c w.header w.index (w.held ++ (a ++ rest)) x
      → (v : ChunkWriter) × (write_rounds c fuel w a ≡ ok v) × Goes w v rest x
  unfolding write_rounds
  write_rounds-Goes fuel w [] rest x enough few sealed =
      (w, refl, record { header = refl; few = few; to_come = x; sealed = sealed; same = refl })
  write_rounds-Goes zero w (y ∷ a) rest x enough few sealed = absurd (omega arith)
  write_rounds-Goes (suc fuel) w (y ∷ a) rest x enough few sealed =
      let (v, made, space, goes) = make_room-Goes w (y ∷ a ++ rest) x (omega arith) few sealed in
      let n = room c v (y ∷ a) in
      let left = length-drop n (y ∷ a) in
      let held = length-append v.held (take n (y ∷ a)) in
      let onward : Sealed c v.header v.index
          ((v.held ++ take n (y ∷ a)) ++ (drop n (y ∷ a) ++ rest)) goes.to_come =
        rw (← in_parts v.held (y ∷ a) rest n, goes.header) goes.sealed in
      let (u, written, goes') =
        write_rounds-Goes fuel (hold c v n (y ∷ a)) (drop n (y ∷ a)) rest goes.to_come
          (omega (arith, left)) (omega (arith, held, size_of_take n (y ∷ a))) onward in
      (
        u,
        ground (arith, made, written),
        Goes-trans w v u (y ∷ a ++ rest) rest x goes
            (Goes-hold v u n (y ∷ a) rest goes.to_come goes'),
      )

  -- The data comes in pieces.
  abbrev pub write_all : List Bytes → ChunkWriter → Result ChunkWriter
  write_all [] w = ok w
  write_all (a ∷ pieces) w = write c w a >>= write_all pieces

  write_all-Goes :
      (pieces : List Bytes) (w : ChunkWriter) (x : Bytes)
      → length w.held ≤ chunk_size
      → Sealed c w.header w.index (w.held ++ concat pieces) x
      → (v : ChunkWriter) × (write_all pieces w ≡ ok v) × Goes w v [] x
  unfolding write
  write_all-Goes [] w x few sealed =
      (w, refl, record { header = refl; few = few; to_come = x; sealed = sealed; same = refl })
  write_all-Goes (a ∷ pieces) w x few sealed =
      let (v, written, goes) =
        write_rounds-Goes (length a) w a (concat pieces) x (omega arith) few sealed in
      let (u, all_written, goes') = write_all-Goes pieces v goes.to_come goes.few (
        subst (λ h. Sealed c h v.index (v.held ++ concat pieces) goes.to_come) (sym goes.header)
          goes.sealed) in
      (u, rw (written) all_written, Goes-trans w v u (concat pieces) [] x goes goes')

  short-last :
      (header d x : Bytes) (index : ℕ)
      → length d ≤ chunk_size
      → Sealed c header index d x
      → c.encrypt (nonce index true) header d ≡ some x
  short-last header d x index short (last _ e) = e
  short-last header d x index short (more front rest s t size some_more whole parts e later) =
      absurd (omega (arith, length-append front rest, ap (λ l. length l) whole))

  finish-Goes :
      (w v : ChunkWriter) (x : Bytes) → Goes w v [] x → finish_writer c v ≡ ok (w.out ++ x)
  unfolding finish_writer seal_held
  finish-Goes w v x goes =
      let whole : v.held ++ [] ≡ v.held = append_nil v.held in
      let sealed : Sealed c v.header v.index v.held goes.to_come =
        rw (← whole, goes.header) goes.sealed in
      let e = short-last v.header v.held goes.to_come v.index goes.few sealed in
      let done : finish_writer c v ≡ ok (v.out ++ goes.to_come) = ground (arith, e) in
      done ∙ ap (λ b. ok b) goes.same

  -- Whatever the pieces that the data comes in, what is written is the data in sealed chunks.
  pub written-Sealed :
      (pieces : List Bytes) (out header x : Bytes)
      → Sealed c header 0 (concat pieces) x
      → (write_all pieces (new_writer out header) >>= finish_writer c) ≡ ok (out ++ x)
  written-Sealed pieces out header x sealed =
      let w = new_writer out header in
      let (v, written, goes) = write_all-Goes pieces w x (omega arith) sealed in
      rw written (finish-Goes w v x goes)

leb-false : (a b : ℕ) → leb a b ≡ false → b < a
leb-false a b h = ground arith

-- There is such a stream for every data.
every_chunk :
    (c : Cipher) (header : Bytes) (fuel index : ℕ) (d : Bytes)
    → IsCipher c
    → length d ≤ fuel
    → (x : Bytes) × Sealed c header index d x
every_chunk c header zero index d cipher enough =
    let (x, e, _, _) = cipher.seals (nonce index true) header d (omega arith) in
    (x, last (omega arith) e)
every_chunk c header (suc fuel) index d cipher enough =
    elim (Bool-cases (leb (length d) chunk_size)) [
      | inl short ↦
          let (x, e, _, _) = cipher.seals (nonce index true) header d (ground arith) in
          (x, last (ground arith) e)
      | inr long ↦
          let above = leb-false (length d) chunk_size long in
          let front = take chunk_size d in
          let size : length front ≡ chunk_size = omega (arith, size_of_take chunk_size d, above) in
          let behind = length-drop chunk_size d in
          let (s, e, _, _) = cipher.seals (nonce index false) header front (omega (arith, size)) in
          let (t, later) =
            every_chunk c header fuel (next index) (drop chunk_size d) cipher
              (omega (arith, behind, enough, above)) in
          (
            s ++ t,
            more front (drop chunk_size d) s t size (omega (arith, behind, above))
                (sym (take-drop chunk_size d)) refl e later,
          )
    ]

pub Sealed-exists :
    (c : Cipher) (header : Bytes) (index : ℕ) (d : Bytes)
    → IsCipher c
    → (x : Bytes) × Sealed c header index d x
Sealed-exists c header index d cipher = every_chunk c header (length d) index d cipher (omega arith)
