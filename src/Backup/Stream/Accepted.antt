-- ===== src/Backup/Stream/Accepted.antt =====
-- What the reader accepts to its end is what the writer makes.
use meow_ny.Common.{
  ℕ, zero, suc, ◌+◌, ◌-◌, ◌≤◌, ◌≡◌, ◌⊎◌, refl, ap, sym, ◌∙◌, min, Bool, true, false, List, [], ◌++◌,
  arith, length, take, drop, inl, inr,
}
use mathlib.Core.List.{append_assoc}
use meow_ny.Common.Chunks.{take-drop, concat}
use meow_ny.Common.Slices.{append_nil, drop-drop, drop_past}
use meow_ny.Common.Error.{AppError, Result, ok, err, ◌>>=◌, Result-cases}
use meow_ny.Documents.Kinds.{Bytes}
use meow_ny.Backup.Stream.{
  Cipher, chunk_size, ChunkReader, new_reader, new_writer, fill, at_hand, take_rounds, take_bytes,
  vec_rounds, take_vec, finish_reader, finish_writer,
}
use meow_ny.Backup.Stream.Written.{Sealed, write_all, written-Sealed}
use meow_ny.Backup.Stream.Authentic.{IsAuthentic, Whole, Gives, fill-Whole, fill-Gives}

filled-cases :
    {A : Type 0} (r : Result (Bool × A))
    → (((a : A) × (r ≡ ok (true, a))) ⊎ ((a : A) × (r ≡ ok (false, a))))
      ⊎ ((e : AppError) × (r ≡ err e))
filled-cases (err e) = inr (e, refl)
filled-cases (ok (true, a)) = inl (inl (a, refl))
filled-cases (ok (false, a)) = inl (inr (a, refl))

module _ (c : Cipher) (authentic : IsAuthentic c) where
  moved_back :
      (s : ChunkReader) (k : ℕ) (d : Bytes)
      → Gives c authentic (record s { at = s.at + k }) d
      → Gives c authentic s (take k (drop s.at s.chunk) ++ d)
  moved_back s k d gives =
      let at_hand = drop s.at s.chunk in
      let further : drop k at_hand ≡ drop (s.at + k) s.chunk =
        drop-drop s.at k (s.at + k) s.chunk refl in
      record {
        rest = gives.rest;
        whole =
            ap (λ b. take k at_hand ++ b) (gives.whole ∙ ap (λ b. b ++ gives.rest) (sym further))
            ∙ sym (append_assoc (take k at_hand) (drop k at_hand) gives.rest)
            ∙ ap (λ b. b ++ gives.rest) (take-drop k at_hand);
        behind = gives.behind;
      }

  -- Reading on: what the reader gave before is what was read and what it gives now.
  abbrev Reads : ChunkReader → Bytes → ChunkReader → Type 0
  Reads r bytes s =
      Whole c authentic s × ((d : Bytes) → Gives c authentic s d → Gives c authentic r (bytes ++ d))

  Reads-trans : (r s t : ChunkReader) (a b : Bytes) → Reads r a s → Reads s b t → Reads r (a ++ b) t
  Reads-trans r s t a b (_, before) (whole, after) =
      (whole, λ d gives. rw (append_assoc a b d) (before (b ++ d) (after d gives)))

  -- A round that takes a byte.
  take_rounds-inv :
      (fuel : ℕ) (r : ChunkReader) (n : ℕ) (bytes : Bytes) (s : ChunkReader)
      → take_rounds c (suc fuel) r (suc n) ≡ ok (bytes, s)
      → (q : ChunkReader) × (b : Bytes) × (fill c r ≡ ok (true, q))
        × (take_rounds c fuel
              (record q { at = q.at + at_hand c q (suc n) })
              (suc n - at_hand c q (suc n))
            ≡ ok (b, s))
        × (bytes ≡ take (at_hand c q (suc n)) (drop q.at q.chunk) ++ b)
  unfolding take_rounds
  take_rounds-inv fuel r n bytes s h = elim (filled-cases (fill c r)) [
    | inr fails ↦ absurd (ground (arith, h, fails))
    | inl (inr (q, over)) ↦ absurd (ground (arith, h, over))
    | inl (inl (q, filled)) ↦
        elim (Result-cases (
          take_rounds c fuel (record q { at = q.at + at_hand c q (suc n) })
            (suc n - at_hand c q (suc n)))) [
              | inr (e, fails) ↦ absurd (ground (arith, h, filled, fails))
              | inl ((b, t), taken) ↦
                  let same : t ≡ s = ground (arith, h, filled, taken) in
                  (q, b, filled, rw (← same) taken, ground (arith, h, filled, taken))
            ]
  ]

  take_rounds-Reads :
      (fuel : ℕ) (r : ChunkReader) (n : ℕ) (bytes : Bytes) (s : ChunkReader)
      → Whole c authentic r
      → take_rounds c fuel r n ≡ ok (bytes, s)
      → Reads r bytes s
  unfolding take_rounds
  take_rounds-Reads fuel r zero bytes s size h =
      let nothing : [] ≡ bytes = ground arith in
      let same : r ≡ s = ground arith in rw (← nothing, ← same) (size, λ d gives. gives)
  take_rounds-Reads zero r (suc n) bytes s size h = absurd (cc)
  take_rounds-Reads (suc fuel) r (suc n) bytes s size h =
      let (q, b, filled, taken, whole) = take_rounds-inv fuel r n bytes s h in
      let k = at_hand c q (suc n) in
      let (whole_s, later) =
        take_rounds-Reads fuel (record q { at = q.at + k }) (suc n - k) b s
          (fill-Whole c authentic r q filled size) taken in
      (
        whole_s,
        λ d gives.
            rw (whole, append_assoc (take k (drop q.at q.chunk)) b d)
              (fill-Gives c authentic r q (take k (drop q.at q.chunk) ++ (b ++ d)) filled size
                (moved_back q k (b ++ d) (later d gives))),
      )

  vec_rounds-inv :
      (fuel : ℕ) (r : ChunkReader) (n : ℕ) (bytes : Bytes) (s : ChunkReader)
      → vec_rounds c (suc fuel) r (suc n) ≡ ok (bytes, s)
      → (q : ChunkReader) × (a : Bytes) × (b : Bytes) × (take_bytes c r (min (suc n) chunk_size)
          ≡ ok (a, q))
        × (vec_rounds c fuel q (suc n - min (suc n) chunk_size) ≡ ok (b, s))
        × (bytes ≡ a ++ b)
  unfolding vec_rounds
  vec_rounds-inv fuel r n bytes s h =
      elim (Result-cases (take_bytes c r (min (suc n) chunk_size))) [
        | inr (e, fails) ↦ absurd (ground (arith, h, fails))
        | inl ((a, q), taken) ↦
            elim (Result-cases (vec_rounds c fuel q (suc n - min (suc n) chunk_size))) [
              | inr (e, fails) ↦ absurd (ground (arith, h, taken, fails))
              | inl ((b, t), rest) ↦
                  let same : t ≡ s = ground (arith, h, taken, rest) in
                  (q, a, b, taken, rw (← same) rest, ground (arith, h, taken, rest))
            ]
      ]

  vec_rounds-Reads :
      (fuel : ℕ) (r : ChunkReader) (n : ℕ) (bytes : Bytes) (s : ChunkReader)
      → Whole c authentic r
      → vec_rounds c fuel r n ≡ ok (bytes, s)
      → Reads r bytes s
  unfolding vec_rounds take_bytes
  vec_rounds-Reads fuel r zero bytes s size h =
      let nothing : [] ≡ bytes = ground arith in
      let same : r ≡ s = ground arith in rw (← nothing, ← same) (size, λ d gives. gives)
  vec_rounds-Reads zero r (suc n) bytes s size h = absurd (cc)
  vec_rounds-Reads (suc fuel) r (suc n) bytes s size h =
      let (q, a, b, taken, rest, whole) = vec_rounds-inv fuel r n bytes s h in
      let k = min (suc n) chunk_size in
      let first = take_rounds-Reads k r k a q size taken in
      let then_on = vec_rounds-Reads fuel q (suc n - k) b s first.0 rest in
      rw whole (Reads-trans r q s a b first then_on)

  finish-Gives : (s : ChunkReader) → finish_reader c s ≡ ok tt → Gives c authentic s []
  unfolding finish_reader
  finish-Gives s h = record {
    rest = [];
    whole = rw (drop_past s.at s.chunk (ground (arith, h))) refl;
    behind = inl (refl, ground (arith, h));
  }

  accepted-Sealed :
      (header x d : Bytes) (n : ℕ) (s : ChunkReader)
      → take_vec c (new_reader x header (length x)) n ≡ ok (d, s)
      → finish_reader c s ≡ ok tt
      → 1 ≤ length x
      → Sealed c header 0 d x
  unfolding take_vec
  accepted-Sealed header x d n s read over full =
      let r = new_reader x header (length x) in
      let (_, before) = vec_rounds-Reads n r n d s refl read in
      let gives = before [] (finish-Gives s over) in
      let whole : d ≡ gives.rest = sym (append_nil d) ∙ gives.whole in
      elim gives.behind [
        | inl (_, none_left) ↦ absurd (omega (arith, none_left, full))
        | inr (_, _, sealed) ↦ rw whole sealed
      ]

  -- If the cipher opens only what was sealed, a stream that is not empty and is read to its end is the
  -- one that is written for the data that was read, in whatever pieces.
  pub take_vec-accepted :
      (header x out : Bytes) (pieces : List Bytes) (n : ℕ) (s : ChunkReader)
      → take_vec c (new_reader x header (length x)) n ≡ ok (concat pieces, s)
      → finish_reader c s ≡ ok tt
      → 1 ≤ length x
      → (write_all c pieces (new_writer out header) >>= finish_writer c) ≡ ok (out ++ x)
  take_vec-accepted header x out pieces n s read over full =
      written-Sealed c pieces out header x
        (accepted-Sealed header x (concat pieces) n s read over full)
