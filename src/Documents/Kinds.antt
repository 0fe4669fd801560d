-- ===== src/Documents/Kinds.antt =====
-- What kind of file a document is: `MediaType` and the readers of the first bytes in
-- src-tauri/src/documents/names.rs. A byte is its value; reading past the end of a slice is `panics`.
-- `str::to_lowercase` is a parameter.
pub mod Image
pub mod Reads
pub mod Sizes
use meow_ny.Common.{
  ℕ, zero, suc, ◌+◌, ◌-◌, ◌*◌, ◌/◌, ◌%◌, Bool, true, false, not, ◌&&◌, ◌||◌, Option, none, some,
  List, [], ◌∷◌, length, take, drop, get_elem?, all, any, ltb, leb, ◌==◌, if◌then◌else◌,
}
use meow_ny.Common.Text.{Text, text_eq}
use meow_ny.Sync.{codes}

pub data MediaType : Type 0 where
  jpeg png gif webp pdf text html csv other : MediaType

unfoldable pub as_str : MediaType → Text
as_str jpeg = codes "image/jpeg"
as_str png = codes "image/png"
as_str gif = codes "image/gif"
as_str webp = codes "image/webp"
as_str pdf = codes "application/pdf"
as_str text = codes "text/plain"
as_str html = codes "text/html"
as_str csv = codes "text/csv"
as_str other = codes "application/octet-stream"

abbrev pub all_types : List MediaType
all_types = jpeg ∷ png ∷ gif ∷ webp ∷ pdf ∷ text ∷ html ∷ csv ∷ other ∷ []

unfoldable pub find_type : Text → List MediaType → Option MediaType
unfolding as_str
find_type s [] = none
find_type s (t ∷ ts) = let rest = find_type s ts in if text_eq (as_str t) s then some t else rest

unfoldable pub parse : Text → Option MediaType
unfolding find_type
parse s = find_type s all_types

abbrev pub is_image : MediaType → Bool
is_image jpeg = true
is_image png = true
is_image gif = true
is_image webp = true
is_image pdf = false
is_image text = false
is_image html = false
is_image csv = false
is_image other = false

abbrev pub open_extension : MediaType → Option Text
open_extension jpeg = some (codes "jpg")
open_extension png = some (codes "png")
open_extension gif = some (codes "gif")
open_extension webp = some (codes "webp")
open_extension pdf = some (codes "pdf")
open_extension text = some (codes "txt")
open_extension html = some (codes "html")
open_extension csv = some (codes "csv")
open_extension other = none

-- A run of code that may panic.
pub data Run (A : Type 0) : Type 0 where
  panics : Run A
  returns : A → Run A

infixl 5 ◌>>=◌
abbrev pub ◌>>=◌ : {A B : Type 0} → Run A → (A → Run B) → Run B
panics >>= f = panics
returns a >>= f = f a

abbrev pub Bytes : Type 0
Bytes = List ℕ

abbrev pub Size : Type 0
Size = ℕ × ℕ

-- `b[i]`
unfoldable pub index : Bytes → ℕ → Run ℕ
index b i = elim (get_elem? b i) [ none ↦ panics | some x ↦ returns x ]

-- `b[from..to]`
unfoldable pub slice : Bytes → ℕ → ℕ → Run Bytes
slice b from to =
    if leb from to && leb to (length b) then returns (take (to - from) (drop from b)) else panics

abbrev pub starts_with : Bytes → Bytes → Bool
starts_with [] b = true
starts_with (x ∷ xs) [] = false
starts_with (x ∷ xs) (y ∷ ys) = (x == y) && starts_with xs ys

abbrev pub nonzero : ℕ → ℕ → Option Size
nonzero width height = if ltb 0 width && ltb 0 height then some (width, height) else none

unfoldable pub be16 : Bytes → ℕ → Run ℕ
unfolding index
be16 b at = index b at >>= λ x. index b (at + 1) >>= λ y. returns (x * 256 + y)

unfoldable pub le16 : Bytes → ℕ → Run ℕ
unfolding index
le16 b at = index b at >>= λ x. index b (at + 1) >>= λ y. returns (x + y * 256)

unfoldable pub le24 : Bytes → ℕ → Run ℕ
unfolding index
le24 b at = index b at >>= λ x.
    index b (at + 1) >>= λ y. index b (at + 2) >>= λ z. returns (x + y * 256 + z * 65536)

-- `u32::from_be_bytes` and `u32::from_le_bytes` of a slice of four bytes
unfoldable pub be32 : Bytes → ℕ → Run ℕ
unfolding be16
be32 b at = be16 b at >>= λ x. be16 b (at + 2) >>= λ y. returns (x * 65536 + y)

unfoldable pub le32 : Bytes → ℕ → Run ℕ
unfolding le16
le32 b at = le16 b at >>= λ x. le16 b (at + 2) >>= λ y. returns (x + y * 65536)
