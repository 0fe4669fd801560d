-- ===== src/Tests/Sealed.antt =====
-- A stream that is written and read back, under a cipher that adds 16 bytes.
use meow_ny.Common.Text.{text_eq, text_eq_refl, text_eq_iff}
use meow_ny.Backup.Stream.Authentic.{IsAuthentic}
use meow_ny.Backup.Stream.Accepted.{take_vec-accepted}
use meow_ny.Common.{
  if◌then◌else◌, Option, Bool-cases, inl, inr, none, ◌≡◌, refl, some, [], ◌∷◌, ◌++◌, arith, length,
  take, ◌-◌, ◌+◌, List, ap, length-append,
}
use meow_ny.Common.Chunks.{concat}
use meow_ny.Common.Error.{ok, ◌>>=◌}
use meow_ny.Sync.{codes}
use meow_ny.Documents.Kinds.{Bytes}
use meow_ny.Backup.Stream.{
  Cipher, ChunkReader, new_writer, new_reader, finish_writer, take_vec, finish_reader,
}
use meow_ny.Backup.Stream.Written.{IsCipher, write_all}
use meow_ny.Backup.Stream.Read.{take_vec-write}
use meow_ny.Common.Slices.{take_whole}

abbrev tag_of_zeros : Bytes
tag_of_zeros = codes "0000000000000000"

-- What opens under the tag.
abbrev checked : Bytes → Bytes → Option Bytes
checked s m = if text_eq (m ++ tag_of_zeros) s then some m else none

abbrev plain : Cipher
plain = record {
  encrypt = λ n header m. some (m ++ tag_of_zeros);
  decrypt = λ n header s. checked s (take (length s - 16) s);
}

length-sealed : (m : Bytes) → length (m ++ tag_of_zeros) ≡ length m + 16
length-sealed m = length-append m tag_of_zeros

opens_plain : (m : Bytes) → plain.decrypt [] [] (m ++ tag_of_zeros) ≡ some m
opens_plain m =
    let back : length (m ++ tag_of_zeros) - 16 ≡ length m = omega (arith, length-sealed m) in
    rw (back, take_whole m tag_of_zeros, text_eq_refl (m ++ tag_of_zeros)) refl

plain-IsCipher : IsCipher plain
plain-IsCipher = record {
  seals = λ n header m short. (m ++ tag_of_zeros, refl, length-sealed m, opens_plain m);
}

checked-opens : (s front m : Bytes) → checked s front ≡ some m → m ++ tag_of_zeros ≡ s
checked-opens s front m h = elim (Bool-cases (text_eq (front ++ tag_of_zeros) s)) [
  | inr other ↦ absurd (ground (arith, h, other))
  | inl same ↦
      let whole : front ≡ m = ground (arith, h, same) in
      rw (← whole) ((text_eq_iff (front ++ tag_of_zeros) s).0 same)
]

plain-IsAuthentic : IsAuthentic plain
plain-IsAuthentic = record {
  opens = λ n header s m h.
      let same = checked-opens s (take (length s - 16) s) m h in
      (ap (λ b. some b) same, rw (← same) (length-sealed m));
}

abbrev pieces : List Bytes
pieces = codes "meow" ∷ [] ∷ codes "NY" ∷ []

take_vec-write_example :
    (x : Bytes) × (s : ChunkReader) × ((write_all plain pieces
          (new_writer (codes "head") (codes "head"))
        >>= finish_writer plain)
      ≡ ok (codes "head" ++ x))
    × (take_vec plain (new_reader x (codes "head") (length x)) 6 ≡ ok (codes "meowNY", s))
    × (finish_reader plain s ≡ ok tt)
take_vec-write_example =
    take_vec-write plain pieces (codes "head") (codes "head") plain-IsCipher (omega arith)

abbrev stream : Bytes
stream = codes "meowNY0000000000000000"

abbrev at_end : ChunkReader
at_end = record {
  input = [];
  header = codes "head";
  left = 0;
  index = 1;
  chunk = codes "meowNY";
  at = 6;
}

read_whole :
    take_vec plain (new_reader stream (codes "head") (length stream)) 6 ≡ ok (concat pieces, at_end)
unfolding take_vec
read_whole = refl

is_over : finish_reader plain at_end ≡ ok tt
unfolding finish_reader
is_over = refl

take_vec-accepted_example :
    (write_all plain pieces (new_writer [] (codes "head")) >>= finish_writer plain)
    ≡ ok ([] ++ stream)
take_vec-accepted_example =
    take_vec-accepted plain plain-IsAuthentic (codes "head") stream [] pieces 6 at_end read_whole
      is_over (omega arith)
