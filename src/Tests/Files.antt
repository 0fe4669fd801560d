-- ===== src/Tests/Files.antt =====
-- Names of documents, and a small image.
use meow_ny.Common.{ℕ, ◌≡◌, ◌↔◌, refl, Bool, true, some, [], ◌∷◌, ◌++◌, arith, ◌&&◌, ◌||◌, leb}
use meow_ny.Common.Text.{Text, lower_ascii}
use meow_ny.Common.{map}
use meow_ny.Sync.{codes}
use meow_ny.Documents.Kinds.{gif, pdf, open_extension, Bytes, returns}
use meow_ny.Documents.Kinds.Image.{image_size, sniff}
use meow_ny.Documents.Kinds.Reads.{AreBytes, Fits}
use meow_ny.Documents.Kinds.Sizes.{Honest, image_size-Fits, sniff-Honest}
use meow_ny.Documents.Names.{clean_file_name, clean_title, is_clean_name, disk_name, open_name}
use meow_ny.Documents.Names.Clean.{is_clean_name_iff}
use meow_ny.Documents.Names.Disk.{IsSafe, disk_name-IsSafe, open_name-IsSafe}

abbrev is_alphanumeric : ℕ → Bool
is_alphanumeric c = (leb b'a' c && leb c b'z') || (leb b'0' c && leb c b'9')

cleaned : clean_file_name is_alphanumeric (codes "C:\\tmp\\ my   bill.pdf ") ≡ codes "my bill.pdf"
unfolding clean_file_name
cleaned = refl

is_clean_name_iff_example :
    ((is_clean_name is_alphanumeric (codes "my bill.pdf") ≡ true)
      ↔ ((raw : Text) × (clean_file_name is_alphanumeric raw ≡ codes "my bill.pdf")))
    × ((is_clean_name is_alphanumeric (codes "my bill.pdf") ≡ true)
        ↔ ((raw : Text) × (clean_title is_alphanumeric raw ≡ some (codes "my bill.pdf"))))
is_clean_name_iff_example = is_clean_name_iff is_alphanumeric (codes "my bill.pdf")

on_disk : disk_name (codes "con.txt. ") ≡ codes "_con.txt"
unfolding disk_name
on_disk = refl

disk_name-IsSafe_example : IsSafe (disk_name (codes "con.txt. "))
disk_name-IsSafe_example = disk_name-IsSafe (codes "con.txt. ")

given : open_name is_alphanumeric (codes "aux.exe") pdf ≡ some (codes "_aux.pdf")
unfolding open_name
given = refl

open_name-IsSafe_example :
    IsSafe (codes "_aux.pdf")
    × (stem : Text) × (e : Text) × (open_extension pdf ≡ some e)
    × (codes "_aux.pdf" ≡ stem ++ b'.' ∷ e)
open_name-IsSafe_example =
    open_name-IsSafe is_alphanumeric (codes "aux.exe") pdf (codes "_aux.pdf") given

-- A GIF of 3 by 2 pixels.
abbrev small_gif : Bytes
small_gif = codes "GIF89a" ++ 3 ∷ 0 ∷ 2 ∷ 0 ∷ 0 ∷ []

small_gif-bytes : AreBytes small_gif
small_gif-bytes = ground arith

its_size : image_size small_gif gif ≡ returns (some (3, 2))
unfolding image_size
its_size = refl

image_size-Fits_example : (size : _) × (image_size small_gif gif ≡ returns size) × Fits size
image_size-Fits_example = image_size-Fits small_gif gif small_gif-bytes

sniff-Honest_example :
    (kind : _) × (sniff (map lower_ascii) (codes "a.gif") small_gif ≡ returns kind)
    × Honest small_gif kind
sniff-Honest_example = sniff-Honest (map lower_ascii) (codes "a.gif") small_gif small_gif-bytes
