-- ===== src/Backup/Stream/Read.antt =====
-- What is read back from a stream that was written.
use meow_ny.Common.{
  ℕ, zero, suc, ◌+◌, ◌-◌, ◌≤◌, ◌<◌, ◌≡◌, refl, ap, ◌∙◌, subst, min, true, List, [], ◌++◌, arith,
  length, take, drop, ltb, length-append, Bool-cases, inl, inr,
}
use meow_ny.Common.Chunks.{concat}
use meow_ny.Common.Slices.{
  length-drop, take_front, drop_front, drop-drop, take-add, drop_past, take_all,
}
use meow_ny.Common.Error.{Result-cases, ok, ◌>>=◌}
use meow_ny.Documents.Kinds.{Bytes}
use meow_ny.Backup.Stream.{
  skip, skip_rounds, Cipher, chunk_size, ChunkReader, new_reader, new_writer, fill, at_hand,
  take_rounds, take_bytes, vec_rounds, take_vec, finish_reader, finish_writer,
}
use meow_ny.Backup.Stream.Written.{IsCipher, Sealed, write_all, written-Sealed, Sealed-exists}
use meow_ny.Backup.Stream.Openings.{Sealed-length, open_next-Opens, ToCome}

module _ (c : Cipher) (cipher : IsCipher c) where
  record Holds (r : ChunkReader) (d : Bytes) : Type 0 where
    within : r.at ≤ length r.chunk
    rest : Bytes
    whole : d ≡ drop r.at r.chunk ++ rest
    to_come : ToCome c cipher r rest

  -- A byte is at hand.
  fill-Holds :
      (r : ChunkReader) (d : Bytes)
      → Holds r d
      → 1 ≤ length d
      → (s : ChunkReader) × (fill c r ≡ ok (true, s)) × (s.at < length s.chunk) × Holds s d
  unfolding fill
  fill-Holds r d holds full = elim (Bool-cases (ltb r.at (length r.chunk))) [
    | inl more_here ↦ (r, ground (arith, more_here), ground (arith, more_here), holds)
    | inr used_up ↦
        let past : length r.chunk ≤ r.at = ground (arith, used_up) in
        let whole : d ≡ holds.rest = holds.whole ∙ rw (drop_past r.at r.chunk past) refl in
        elim holds.to_come [
          | inl (nothing, _) ↦ absurd (omega (arith, ap (λ b. length b) (whole ∙ nothing), full))
          | inr (full', sealed, size) ↦
              let (s, opens, facts) = open_next-Opens c cipher r holds.rest full' sealed size in
              let some_left =
                Sealed-length c cipher r.header holds.rest r.input r.index full' sealed in
              (
                s,
                ground (arith, used_up, size, some_left, opens),
                omega (arith, facts.from_start, facts.full),
                record {
                  within = omega (arith, facts.from_start);
                  rest = facts.rest;
                  whole = whole ∙ facts.whole ∙ rw (facts.from_start) refl;
                  to_come = facts.to_come;
                },
              )
        ]
  ]

  abbrev moved : ChunkReader → ℕ → ChunkReader
  moved s k = record s { at = s.at + k }

  moved-Holds :
      (s : ChunkReader) (k : ℕ) (d : Bytes)
      → s.at + k ≤ length s.chunk
      → Holds s d
      → (take k d ≡ take k (drop s.at s.chunk)) × Holds (moved s k) (drop k d)
  moved-Holds s k d within holds =
      let at_hand = drop s.at s.chunk in
      let long = length-drop s.at s.chunk in
      let few : k ≤ length at_hand = omega (arith, long, within) in
      (
        rw (holds.whole) (take_front k at_hand holds.rest few),
        record {
          within = within;
          rest = holds.rest;
          whole =
              ap (λ b. drop k b) holds.whole
              ∙ drop_front k at_hand holds.rest few
              ∙ ap (λ b. b ++ holds.rest) (drop-drop s.at k (s.at + k) s.chunk refl);
          to_come = holds.to_come;
        },
      )

  take_rounds-step :
      (fuel : ℕ) (r s t : ChunkReader) (n : ℕ) (bytes : Bytes)
      → fill c r ≡ ok (true, s)
      → take_rounds c fuel (moved s (at_hand c s (suc n))) (suc n - at_hand c s (suc n))
        ≡ ok (bytes, t)
      → take_rounds c (suc fuel) r (suc n)
        ≡ ok (take (at_hand c s (suc n)) (drop s.at s.chunk) ++ bytes, t)
  unfolding take_rounds
  take_rounds-step fuel r s t n bytes filled taken = ground (arith, filled, taken)

  vec_rounds-step :
      (fuel : ℕ) (r s t : ChunkReader) (n : ℕ) (front bytes : Bytes)
      → take_bytes c r (min (suc n) chunk_size) ≡ ok (front, s)
      → vec_rounds c fuel s (suc n - min (suc n) chunk_size) ≡ ok (bytes, t)
      → vec_rounds c (suc fuel) r (suc n) ≡ ok (front ++ bytes, t)
  unfolding vec_rounds
  vec_rounds-step fuel r s t n front bytes taken rest = rw (taken, rest) refl

  take_rounds-Holds :
      (fuel : ℕ) (r : ChunkReader) (n : ℕ) (d : Bytes)
      → n ≤ fuel
      → n ≤ length d
      → Holds r d
      → (s : ChunkReader) × (take_rounds c fuel r n ≡ ok (take n d, s)) × Holds s (drop n d)
  unfolding take_rounds
  take_rounds-Holds fuel r zero d enough some_left holds = (r, refl, holds)
  take_rounds-Holds zero r (suc n) d enough some_left holds = absurd (omega arith)
  take_rounds-Holds (suc fuel) r (suc n) d enough some_left holds =
      let (s, filled, here, holds') = fill-Holds r d holds (omega (arith, some_left)) in
      let k = at_hand c s (suc n) in
      let (front, holds'') = moved-Holds s k d (omega (arith, here)) holds' in
      let (t, taken, holds3) =
        take_rounds-Holds fuel (moved s k) (suc n - k) (drop k d) (omega (arith, here, enough))
          (omega (arith, length-drop k d, some_left)) holds'' in
      let parts = take-add k (suc n - k) (suc n) d (omega (arith, here)) in
      let behind = drop-drop k (suc n - k) (suc n) d (omega (arith, here)) in
      let whole : take k (drop s.at s.chunk) ++ take (suc n - k) (drop k d) ≡ take (suc n) d =
        rw (← front) parts in
      (
        t,
        take_rounds-step fuel r s t n (take (suc n - k) (drop k d)) filled taken
            ∙ ap (λ b. ok (b, t)) whole,
        rw (← behind) holds3,
      )

  vec_rounds-Holds :
      (fuel : ℕ) (r : ChunkReader) (n : ℕ) (d : Bytes)
      → n ≤ fuel
      → n ≤ length d
      → Holds r d
      → (s : ChunkReader) × (vec_rounds c fuel r n ≡ ok (take n d, s)) × Holds s (drop n d)
  unfolding vec_rounds take_bytes
  vec_rounds-Holds fuel r zero d enough some_left holds = (r, refl, holds)
  vec_rounds-Holds zero r (suc n) d enough some_left holds = absurd (omega arith)
  vec_rounds-Holds (suc fuel) r (suc n) d enough some_left holds =
      let k = min (suc n) chunk_size in
      let (s, taken, holds') =
        take_rounds-Holds k r k d (omega arith) (omega (arith, some_left)) holds in
      let (t, rest, holds'') =
        vec_rounds-Holds fuel s (suc n - k) (drop k d) (omega (arith, enough))
          (omega (arith, length-drop k d, some_left)) holds' in
      let parts = take-add k (suc n - k) (suc n) d (omega arith) in
      let behind = drop-drop k (suc n - k) (suc n) d (omega arith) in
      (
        t,
        vec_rounds-step fuel r s t n (take k d) (take (suc n - k) (drop k d)) taken rest
            ∙ ap (λ b. ok (b, t)) parts,
        rw (← behind) holds'',
      )

  new_reader-Holds :
      (header d x : Bytes)
      → 1 ≤ length d
      → Sealed c header 0 d x
      → Holds (new_reader x header (length x)) d
  new_reader-Holds header d x full sealed = record {
    within = omega arith;
    rest = d;
    whole = refl;
    to_come = inr (full, sealed, refl);
  }

  finish-Holds : (r : ChunkReader) → Holds r [] → finish_reader c r ≡ ok tt
  unfolding finish_reader
  finish-Holds r holds =
      let none_left =
        ap (λ b. length b) holds.whole ∙ length-append (drop r.at r.chunk) holds.rest in
      let behind = length-drop r.at r.chunk in
      elim holds.to_come [
        | inl (_, over) ↦ ground (arith, none_left, behind, over, holds.within)
        | inr (full, _, _) ↦ absurd (omega (arith, none_left, full))
      ]

-- If the cipher opens what it sealed, data that is not empty can be written in whatever pieces; the
-- stream is read back as that data, and then it is over.
pub take_vec-write :
    (c : Cipher) (pieces : List Bytes) (out header : Bytes)
    → IsCipher c
    → 1 ≤ length (concat pieces)
    → (x : Bytes) × (s : ChunkReader) × ((write_all c pieces (new_writer out header)
          >>= finish_writer c)
        ≡ ok (out ++ x))
      × (take_vec c (new_reader x header (length x)) (length (concat pieces))
          ≡ ok (concat pieces, s))
      × (finish_reader c s ≡ ok tt)
unfolding take_vec
take_vec-write c pieces out header cipher full =
    let d = concat pieces in
    let (x, sealed) = Sealed-exists c header 0 d cipher in
    let (s, taken, holds) =
      vec_rounds-Holds c cipher (length d) (new_reader x header (length x)) (length d) d
        (omega arith) (omega arith) (new_reader-Holds c cipher header d x full sealed) in
    let over = subst (λ b. Holds c cipher s b) (drop_past (length d) d (omega arith)) holds in
    (
      x,
      s,
      written-Sealed c pieces out header x sealed,
      taken ∙ ap (λ b. ok (b, s)) (take_all d),
      finish-Holds c cipher s over,
    )

-- Skipping is reading without what is read.
skip_rounds-vec_rounds :
    (c : Cipher) (fuel : ℕ) (r : ChunkReader) (n : ℕ)
    → skip_rounds c fuel r n ≡ (vec_rounds c fuel r n >>= λ (bytes, s). ok s)
unfolding skip_rounds vec_rounds
skip_rounds-vec_rounds c fuel r zero = refl
skip_rounds-vec_rounds c zero r (suc n) = refl
skip_rounds-vec_rounds c (suc fuel) r (suc n) =
    elim (Result-cases (take_bytes c r (min (suc n) chunk_size))) [
      | inr (e, fails) ↦ rw fails refl
      | inl ((bytes, s), taken) ↦
          let same = skip_rounds-vec_rounds c fuel s (suc n - min (suc n) chunk_size) in
          elim (Result-cases (vec_rounds c fuel s (suc n - min (suc n) chunk_size))) [
            | inr (e, fails) ↦ rw (taken, same, fails) refl
            | inl ((rest, t), done) ↦ rw (taken, same, done) refl
          ]
    ]

pub skip-take_vec :
    (c : Cipher) (r : ChunkReader) (n : ℕ) → skip c r n ≡ (take_vec c r n >>= λ (bytes, s). ok s)
unfolding skip take_vec
skip-take_vec c r n = skip_rounds-vec_rounds c n r n
