-- ===== src/Backup/Stream/Authentic.antt =====
-- What a chunk was that the reader opens.
use meow_ny.Common.{
  ℕ, ◌+◌, ◌-◌, ◌≤◌, ◌<◌, ◌≡◌, ◌⊎◌, refl, ap, sym, ◌∙◌, subst, min, true, false, some, [], ◌++◌,
  arith, length, take, drop, ltb, ◌==◌, length-append, Bool-cases, Option-cases, inl, inr,
}
use meow_ny.Common.Chunks.{take-drop}
use meow_ny.Common.Slices.{append_nil, length-drop, drop_past, take_all}
use meow_ny.Common.Error.{ok}
use meow_ny.Documents.Kinds.{Bytes}
use meow_ny.Backup.Stream.{
  Cipher, chunk_size, sealed_chunk, tag, nonce, next, ChunkReader, open_next, fill,
}
use meow_ny.Backup.Stream.Written.{Sealed, last, more}

-- What opens is what was sealed under this number and header; this is what authenticates a chunk.
pub record IsAuthentic (c : Cipher) : Type 0 where
  pub opens :
      (n header s m : Bytes)
      → c.decrypt n header s ≡ some m
      → (c.encrypt n header m ≡ some s) × (length s ≡ length m + tag)

module _ (c : Cipher) (authentic : IsAuthentic c) where
  -- What is in the file is what the writer makes of the rest of the data.
  abbrev pub Behind : ChunkReader → Bytes → Type 0
  Behind r rest =
      ((rest ≡ []) × (r.left ≡ 0))
      ⊎ ((1 ≤ length rest) × (1 ≤ r.left) × Sealed c r.header r.index rest r.input)

  abbrev pub Whole : ChunkReader → Type 0
  Whole r = r.left ≡ length r.input

  -- The data that the reader still hands out.
  pub record Gives (r : ChunkReader) (d : Bytes) : Type 0 where
    pub rest : Bytes
    pub whole : d ≡ drop r.at r.chunk ++ rest
    pub behind : Behind r rest

  abbrev opened_reader : ChunkReader → ℕ → Bytes → ChunkReader
  opened_reader r size plain = record r {
    input = drop size r.input;
    left = r.left - size;
    index = next r.index;
    chunk = plain;
    at = 0;
  }

  -- What a chunk that opened was.
  record Opened (r : ChunkReader) (size : ℕ) (s : ChunkReader) : Type 0 where
    plain : Bytes
    same : s ≡ opened_reader r size plain
    fits : size ≤ length r.input
    decrypted : c.decrypt (nonce r.index (size == r.left)) r.header (take size r.input) ≡ some plain
    full : 1 ≤ length plain
    proper : (size == r.left) ≡ false → length plain ≡ chunk_size

  open_next-Opened :
      (r s : ChunkReader) (size : ℕ) → open_next c r size ≡ ok (true, s) → Opened r size s
  unfolding open_next
  open_next-Opened r s size h =
      elim (Option-cases
        (c.decrypt (nonce r.index (size == r.left)) r.header (take size r.input))) [
          | inl closed ↦ absurd (ground (arith, h, closed))
          | inr (plain, e) ↦ record {
            plain = plain;
            same = ground (arith, h, e);
            fits = ground (arith, h, e);
            decrypted = e;
            full = ground (arith, h, e);
            proper = λ k. ground (arith, h, e, k);
          }
        ]

  ends_here :
      (r : ChunkReader) (d : Bytes) (o : ChunkReader) (opens : Opened r (min r.left sealed_chunk) o)
      → 1 ≤ r.left
      → Whole r
      → (min r.left sealed_chunk == r.left) ≡ true
      → Gives (opened_reader r (min r.left sealed_chunk) opens.plain) d
      → (1 ≤ length d) × Sealed c r.header r.index d r.input
  ends_here r d o opens some_left size is_last gives =
      let all_left : min r.left sealed_chunk ≡ r.left = ground (arith, is_last) in
      let plain = opens.plain in
      let chunk : take (min r.left sealed_chunk) r.input ≡ r.input =
        ap (λ k. take k r.input) (all_left ∙ size) ∙ take_all r.input in
      let opened : c.decrypt (nonce r.index true) r.header r.input ≡ some plain =
        rw (← is_last, ← chunk) opens.decrypted in
      let (e, long) = authentic.opens (nonce r.index true) r.header r.input plain opened in
      elim gives.behind [
        | inl (nothing, _) ↦
            let whole : d ≡ plain = gives.whole ∙ rw nothing (append_nil plain) in
            rw whole (opens.full, last (omega (arith, long, size, all_left)) e)
        | inr (_, more_left, _) ↦ absurd (omega (arith, more_left, all_left))
      ]

  goes_on :
      (r : ChunkReader) (d : Bytes) (o : ChunkReader) (opens : Opened r (min r.left sealed_chunk) o)
      → 1 ≤ r.left
      → Whole r
      → (min r.left sealed_chunk == r.left) ≡ false
      → Gives (opened_reader r (min r.left sealed_chunk) opens.plain) d
      → (1 ≤ length d) × Sealed c r.header r.index d r.input
  goes_on r d o opens some_left size not_last gives =
      let plain = opens.plain in
      let less : min r.left sealed_chunk < r.left = ground (arith, not_last) in
      let n = min r.left sealed_chunk in
      let opened : c.decrypt (nonce r.index false) r.header (take n r.input) ≡ some plain =
        rw (← not_last) opens.decrypted in
      let (e, _) = authentic.opens (nonce r.index false) r.header (take n r.input) plain opened in
      elim gives.behind [
        | inl (_, over) ↦ absurd (omega (arith, less, over))
        | inr (full, _, sealed) ↦ (
          omega (arith, ap (λ b. length b) gives.whole, length-append plain gives.rest, full),
          more plain gives.rest (take n r.input) (drop n r.input) (opens.proper not_last) full
              gives.whole (sym (take-drop n r.input)) e sealed,
        )
      ]

  open_next-Gives :
      (r s : ChunkReader) (d : Bytes)
      → open_next c r (min r.left sealed_chunk) ≡ ok (true, s)
      → 1 ≤ r.left
      → Whole r
      → Gives s d
      → (1 ≤ length d) × Sealed c r.header r.index d r.input
  open_next-Gives r s d h some_left size gives =
      let opens = open_next-Opened r s (min r.left sealed_chunk) h in
      let gives' = subst (λ q. Gives q d) opens.same gives in
      elim (Bool-cases (min r.left sealed_chunk == r.left)) [
        | inl is_last ↦ ends_here r d s opens some_left size is_last gives'
        | inr not_last ↦ goes_on r d s opens some_left size not_last gives'
      ]

  open_next-Whole :
      (r s : ChunkReader)
      → open_next c r (min r.left sealed_chunk) ≡ ok (true, s)
      → Whole r
      → Whole s
  open_next-Whole r s h size =
      let opens = open_next-Opened r s (min r.left sealed_chunk) h in
      let left = length-drop (min r.left sealed_chunk) r.input in
      rw (opens.same) (omega (arith, left, size))

  -- What a call of `fill` was, when a byte is at hand.
  fill-inv :
      (r s : ChunkReader)
      → fill c r ≡ ok (true, s)
      → (r ≡ s)
        ⊎ ((length r.chunk ≤ r.at)
            × (1 ≤ r.left)
            × (open_next c r (min r.left sealed_chunk) ≡ ok (true, s)))
  unfolding fill
  fill-inv r s h = elim (Bool-cases (ltb r.at (length r.chunk))) [
    | inl here ↦ inl (ground (arith, h, here))
    | inr used ↦ elim (Bool-cases (r.left == 0)) [
      | inl over ↦ absurd (ground (arith, h, used, over))
      | inr some_left ↦
          inr (ground (arith, used), ground (arith, some_left), ground (arith, h, used, some_left))
    ]
  ]

  pub fill-Whole : (r s : ChunkReader) → fill c r ≡ ok (true, s) → Whole r → Whole s
  fill-Whole r s h size = elim (fill-inv r s h) [
    | inl same ↦ subst (λ q. Whole q) same size
    | inr (_, _, opens) ↦ open_next-Whole r s opens size
  ]

  pub fill-Gives :
      (r s : ChunkReader) (d : Bytes) → fill c r ≡ ok (true, s) → Whole r → Gives s d → Gives r d
  fill-Gives r s d h size gives = elim (fill-inv r s h) [
    | inl same ↦ subst (λ q. Gives q d) (sym same) gives
    | inr (past, some_left, opens) ↦
        let (full, sealed) = open_next-Gives r s d opens some_left size gives in
        record {
          rest = d;
          whole = rw (drop_past r.at r.chunk past) refl;
          behind = inr (full, some_left, sealed);
        }
  ]
