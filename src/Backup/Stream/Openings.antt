-- ===== src/Backup/Stream/Openings.antt =====
-- How the reader opens a chunk that the writer sealed.
use meow_ny.Common.{
  ℕ, ◌+◌, ◌-◌, ◌≤◌, ◌<◌, ◌≡◌, ◌⊎◌, refl, ap, sym, ◌∙◌, min, Bool, true, false, not, ◌&&◌, ◌||◌,
  some, [], ◌++◌, arith, length, take, drop, ltb, ◌==◌, length-append, inl, inr,
}
use meow_ny.Common.Slices.{append_nil, take_whole, drop_whole, take_all}
use meow_ny.Common.Error.{ok}
use meow_ny.Documents.Kinds.{Bytes}
use meow_ny.Backup.Stream.{
  Cipher, chunk_size, sealed_chunk, tag, nonce, next, ChunkReader, open_next,
}
use meow_ny.Backup.Stream.Written.{IsCipher, Sealed, last, more}

not_last : (a b : ℕ) → a < b → (a == b) ≡ false
not_last a b h = ground arith

module _ (c : Cipher) (cipher : IsCipher c) where
  pub Sealed-length :
      (header d x : Bytes) (index : ℕ) → 1 ≤ length d → Sealed c header index d x → tag < length x
  Sealed-length header d x index full (last short e) =
      let (s, e', size, _) = cipher.seals (nonce index true) header d short in
      let same : s ≡ x = ground (arith, e, e') in rw (← same) (omega (arith, size))
  Sealed-length header d x index full (more front rest s t size some_more whole parts e later) =
      let (s', e', size', _) =
        cipher.seals (nonce index false) header front (omega (arith, size)) in
      let same : s' ≡ s = ground (arith, e, e') in
      let long : length s ≡ length front + tag = rw (← same) size' in
      rw parts (omega (arith, length-append s t, long, size))

  -- What the file holds after the chunk in hand.
  abbrev pub ToCome : ChunkReader → Bytes → Type 0
  ToCome r d =
      ((d ≡ []) × (r.left ≡ 0))
      ⊎ ((1 ≤ length d) × Sealed c r.header r.index d r.input × (r.left ≡ length r.input))

  -- A chunk is opened.
  pub record Opens (r : ChunkReader) (d : Bytes) (s : ChunkReader) : Type 0 where
    pub from_start : s.at ≡ 0
    pub full : 1 ≤ length s.chunk
    pub rest : Bytes
    pub whole : d ≡ s.chunk ++ rest
    pub to_come : ToCome s rest

  opened_reader : ChunkReader → ℕ → Bytes → ChunkReader
  opened_reader r size plain = record r {
    input = drop size r.input;
    left = r.left - size;
    index = next r.index;
    chunk = plain;
    at = 0;
  }

  open_next-opened :
      (r : ChunkReader) (size : ℕ) (is_last : Bool) (plain : Bytes)
      → tag ≤ size
      → size ≤ length r.input
      → (size == r.left) ≡ is_last
      → c.decrypt (nonce r.index is_last) r.header (take size r.input) ≡ some plain
      → ((length plain == 0) || (not is_last && not (length plain == chunk_size))) ≡ false
      → open_next c r size ≡ ok (true, opened_reader r size plain)
  unfolding open_next opened_reader
  open_next-opened r size is_last plain tagged fits ending opens proper =
      let goes_on : (ltb size tag || ltb (length r.input) size) ≡ false =
        ground (arith, tagged, fits) in
      rw (goes_on, ending, opens, proper) refl

  open_last :
      (r : ChunkReader) (d : Bytes)
      → 1 ≤ length d
      → length d ≤ chunk_size
      → c.encrypt (nonce r.index true) r.header d ≡ some r.input
      → r.left ≡ length r.input
      → (s : ChunkReader) × (open_next c r (min r.left sealed_chunk) ≡ ok (true, s)) × Opens r d s
  unfolding opened_reader
  open_last r d full short e size =
      let (x, e', long, opens) = cipher.seals (nonce r.index true) r.header d short in
      let same : x ≡ r.input = ground (arith, e, e') in
      let long' : length r.input ≡ length d + tag = rw (← same) long in
      let all_left : min r.left sealed_chunk ≡ length r.input = omega (arith, size, long', short) in
      let whole : take (length r.input) r.input ≡ r.input = take_all r.input in
      let opens' : c.decrypt (nonce r.index true) r.header (take (length r.input) r.input)
          ≡ some d =
        rw (whole, ← same) opens in
      (
        opened_reader r (length r.input) d,
        rw all_left (
            open_next-opened r (length r.input) true d (omega (arith, long')) (omega arith)
              (ground (arith, size)) opens' (ground (arith, full))),
        record {
          from_start = refl;
          full = full;
          rest = [];
          whole = sym (append_nil d);
          to_come = inl (refl, omega (arith, size));
        },
      )

  open_more :
      (r : ChunkReader) (front rest s t : Bytes)
      → length front ≡ chunk_size
      → 1 ≤ length rest
      → r.input ≡ s ++ t
      → c.encrypt (nonce r.index false) r.header front ≡ some s
      → Sealed c r.header (next r.index) rest t
      → r.left ≡ length r.input
      → (v : ChunkReader) × (open_next c r (min r.left sealed_chunk) ≡ ok (true, v))
        × Opens r (front ++ rest) v
  unfolding opened_reader
  open_more r front rest s t size some_more parts e later left =
      let (x, e', long, opens) =
        cipher.seals (nonce r.index false) r.header front (omega (arith, size)) in
      let same : x ≡ s = ground (arith, e, e') in
      let long' : length s ≡ length front + tag = rw (← same) long in
      let behind = Sealed-length r.header rest t (next r.index) some_more later in
      let both : length r.input ≡ length s + length t =
        ap (λ b. length b) parts ∙ length-append s t in
      let some_left : min r.left sealed_chunk ≡ length s =
        omega (arith, left, long', size, both, behind) in
      let opens' : c.decrypt (nonce r.index false) r.header (take (length s) r.input) ≡ some front =
        rw (parts, take_whole s t, ← same) opens in
      let rest_input : drop (length s) r.input ≡ t = rw parts (drop_whole s t) in
      (
        opened_reader r (length s) front,
        rw some_left (
            open_next-opened r (length s) false front (omega (arith, long')) (omega (arith, both))
              (not_last (length s) r.left (omega (arith, left, both, behind))) opens'
              (ground (arith, size))),
        record {
          from_start = refl;
          full = omega (arith, size);
          rest = rest;
          whole = refl;
          to_come = inr (some_more, rw rest_input later, rw rest_input (omega (arith, left, both)));
        },
      )

  pub open_next-Opens :
      (r : ChunkReader) (d : Bytes)
      → 1 ≤ length d
      → Sealed c r.header r.index d r.input
      → r.left ≡ length r.input
      → (s : ChunkReader) × (open_next c r (min r.left sealed_chunk) ≡ ok (true, s)) × Opens r d s
  open_next-Opens r d full (last short e) size = open_last r d full short e size
  open_next-Opens r d full (more front rest s t long some_more whole parts e later) size =
      rw whole (open_more r front rest s t long some_more parts e later size)
