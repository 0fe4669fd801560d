-- ===== src/Backup/Stream.antt =====
-- The sealed stream of a backup: src-tauri/src/backup/stream.rs. The cipher under its key (the crate
-- chacha20poly1305) is a parameter. What is written to is a list of bytes, and what is read from is one.
pub mod Written
pub mod Openings
pub mod Read
pub mod Authentic
pub mod Accepted
use meow_ny.Common.{
  ℕ, zero, suc, ◌+◌, ◌-◌, ◌*◌, ◌/◌, ◌%◌, ◌^◌, ◌≤◌, ◌≡◌, min, Bool, true, false, not, ◌&&◌, ◌||◌,
  Option, none, some, List, [], ◌∷◌, ◌++◌, length, take, drop, ltb, leb, ◌==◌, if◌then◌else◌,
}
use meow_ny.Common.Error.{
  AppError, internal, invalid_backup, wrong_credentials, Result, ok, err, ◌>>=◌,
}
use meow_ny.Documents.Kinds.{Bytes}

abbrev pub chunk_size : ℕ
chunk_size = 65536

abbrev pub tag : ℕ
tag = 16

abbrev pub sealed_chunk : ℕ
sealed_chunk = 65552

-- `encrypt` and `decrypt` of the cipher: the nonce, the header and the message.
pub record Cipher : Type 0 where
  pub encrypt : Bytes → Bytes → Bytes → Option Bytes
  pub decrypt : Bytes → Bytes → Bytes → Option Bytes

-- `to_be_bytes` of a number of that many bytes
unfoldable pub be_bytes : ℕ → ℕ → Bytes
be_bytes zero n = []
be_bytes (suc k) n = n / 256 ^ k % 256 ∷ be_bytes k n

unfoldable pub nonce : ℕ → Bool → Bytes
unfolding be_bytes
nonce index last = (if last then 1 else 0) ∷ 0 ∷ 0 ∷ 0 ∷ be_bytes 8 index

-- `index += 1` of an u64
abbrev pub next : ℕ → ℕ
next index = (index + 1) % 2 ^ 64

pub record ChunkWriter : Type 0 where
  pub out : Bytes
  pub header : Bytes
  pub index : ℕ
  pub held : Bytes

pub record ChunkReader : Type 0 where
  pub input : Bytes
  pub header : Bytes
  pub left : ℕ
  pub index : ℕ
  pub chunk : Bytes
  pub at : ℕ

abbrev pub new_writer : Bytes → Bytes → ChunkWriter
new_writer out header = record { out = out; header = header; index = 0; held = [] }

abbrev pub new_reader : Bytes → Bytes → ℕ → ChunkReader
new_reader input header sealed_len = record {
  input = input;
  header = header;
  left = sealed_len;
  index = 0;
  chunk = [];
  at = 0;
}

module _ (cipher : Cipher) where
  unfoldable pub seal_held : Bool → ChunkWriter → Result ChunkWriter
  unfolding nonce
  seal_held last w = elim (cipher.encrypt (nonce w.index last) w.header w.held) [
    | none ↦ err internal
    | some sealed ↦ ok (record w { out = w.out ++ sealed; index = next w.index; held = [] })
  ]

  unfoldable pub make_room : ChunkWriter → Result ChunkWriter
  unfolding seal_held
  make_room w = if length w.held == chunk_size then seal_held false w else ok w

  -- `take` bytes go to what is held.
  abbrev pub room : ChunkWriter → Bytes → ℕ
  room w bytes = min (chunk_size - length w.held) (length bytes)

  abbrev pub hold : ChunkWriter → ℕ → Bytes → ChunkWriter
  hold w n bytes = record w { held = w.held ++ take n bytes }

  -- Every round takes a byte, so the length of the data is enough fuel.
  unfoldable pub write_rounds : ℕ → ChunkWriter → Bytes → Result ChunkWriter
  unfolding make_room
  write_rounds fuel w [] = ok w
  write_rounds zero w (x ∷ bytes) = err internal
  write_rounds (suc fuel) w (x ∷ bytes) = elim (make_room w) [
    | err e ↦ err e
    | ok v ↦
        let n = room v (x ∷ bytes) in write_rounds fuel (hold v n (x ∷ bytes)) (drop n (x ∷ bytes))
  ]

  unfoldable pub write : ChunkWriter → Bytes → Result ChunkWriter
  unfolding write_rounds
  write w bytes = write_rounds (length bytes) w bytes

  unfoldable pub finish_writer : ChunkWriter → Result Bytes
  unfolding seal_held
  finish_writer w = seal_held true w >>= λ v. ok v.out

  abbrev pub refusal : ℕ → AppError
  refusal index = if index == 0 then wrong_credentials else invalid_backup

  abbrev pub opened : Bool → ChunkReader → Option Bytes → Result (Bool × ChunkReader)
  opened last r none = err (refusal r.index)
  opened last r (some plain) =
      if (length plain == 0) || (not last && not (length plain == chunk_size))
      then err invalid_backup
      else ok (true, record r { chunk = plain; at = 0; index = next r.index })

  unfoldable pub open_next : ChunkReader → ℕ → Result (Bool × ChunkReader)
  unfolding nonce
  open_next r size =
      if ltb size tag || ltb (length r.input) size
      then err invalid_backup
      else opened (size == r.left) (record r { input = drop size r.input; left = r.left - size })
          (cipher.decrypt (nonce r.index (size == r.left)) r.header (take size r.input))

  unfoldable pub fill : ChunkReader → Result (Bool × ChunkReader)
  unfolding open_next
  fill r =
      if ltb r.at (length r.chunk)
      then ok (true, r)
      else if r.left == 0
      then ok (false, r)
      else open_next r (min r.left sealed_chunk)

  -- The bytes that are at hand, up to `n`.
  abbrev pub at_hand : ChunkReader → ℕ → ℕ
  at_hand r n = min (length r.chunk - r.at) n

  -- Every round takes a byte, so the number of bytes is enough fuel.
  unfoldable pub take_rounds : ℕ → ChunkReader → ℕ → Result (Bytes × ChunkReader)
  unfolding fill
  take_rounds fuel r zero = ok ([], r)
  take_rounds zero r (suc n) = err internal
  take_rounds (suc fuel) r (suc n) = elim (fill r) [
    | err e ↦ err e
    | ok (false, s) ↦ err invalid_backup
    | ok (true, s) ↦
        let k = at_hand s (suc n) in
        take_rounds fuel (record s { at = s.at + k }) (suc n - k) >>= λ (bytes, t).
        ok (take k (drop s.at s.chunk) ++ bytes, t)
  ]

  unfoldable pub take_bytes : ChunkReader → ℕ → Result (Bytes × ChunkReader)
  unfolding take_rounds
  take_bytes r n = take_rounds n r n

  unfoldable pub vec_rounds : ℕ → ChunkReader → ℕ → Result (Bytes × ChunkReader)
  unfolding take_bytes
  vec_rounds fuel r zero = ok ([], r)
  vec_rounds zero r (suc n) = err internal
  vec_rounds (suc fuel) r (suc n) =
      let step = min (suc n) chunk_size in
      take_bytes r step >>= λ (bytes, s).
      vec_rounds fuel s (suc n - step) >>= λ (rest, t). ok (bytes ++ rest, t)

  unfoldable pub take_vec : ChunkReader → ℕ → Result (Bytes × ChunkReader)
  unfolding vec_rounds
  take_vec r len = vec_rounds len r len

  unfoldable pub skip_rounds : ℕ → ChunkReader → ℕ → Result ChunkReader
  unfolding take_bytes
  skip_rounds fuel r zero = ok r
  skip_rounds zero r (suc n) = err internal
  skip_rounds (suc fuel) r (suc n) =
      let step = min (suc n) chunk_size in
      take_bytes r step >>= λ (bytes, s). skip_rounds fuel s (suc n - step)

  unfoldable pub skip : ChunkReader → ℕ → Result ChunkReader
  unfolding skip_rounds
  skip r len = skip_rounds len r len

  unfoldable pub finish_reader : ChunkReader → Result (Unit {0})
  finish_reader r =
      if ltb r.at (length r.chunk) || not (r.left == 0) then err invalid_backup else ok tt
