-- ===== src/Documents/Kinds/Image.antt =====
-- The size that an image says it has, and `sniff`: src-tauri/src/documents/names.rs.
use meow_ny.Common.{
  ℕ, zero, suc, ◌+◌, ◌*◌, ◌/◌, ◌%◌, Bool, false, not, ◌&&◌, ◌||◌, Option, none, some, [], ◌∷◌,
  length, drop, get_elem?, any, ltb, leb, ◌==◌, if◌then◌else◌,
}
use mathlib.Core.List.{reverse}
use meow_ny.Common.Text.{Text, text_eq}
use meow_ny.Sync.{codes}
use meow_ny.Documents.Kinds.{
  MediaType, jpeg, png, gif, webp, pdf, text, html, csv, other, is_image, Run, panics, returns,
  ◌>>=◌, Bytes, Size, index, slice, starts_with, nonzero, be16, le16, le24, be32, le32,
}

abbrev pub max_image_pixels : ℕ
max_image_pixels = 64000000

-- The bytes `ff` before a marker: the marker and its place, or the end of the file.
unfoldable pub skip_ff : Bytes → ℕ → Option (ℕ × ℕ)
skip_ff [] i = none
skip_ff (x ∷ b) i = let rest = skip_ff b (i + 1) in if x == 0xff then rest else some (x, i)

-- One round of the loop ends with the place of the next one, or with what is returned.
pub data Round : Type 0 where
  continues : ℕ → Round
  ends : Option Size → Round

abbrev pub has_no_length : ℕ → Bool
has_no_length marker = leb marker 0x01 || (leb 0xd0 marker && leb marker 0xd7)

abbrev pub is_end : ℕ → Bool
is_end marker = leb 0xd8 marker && leb marker 0xda

abbrev pub starts_frame : ℕ → Bool
starts_frame marker =
    (leb 0xc0 marker && leb marker 0xcf)
    && not ((marker == 0xc4) || (marker == 0xc8) || (marker == 0xcc))

-- After the marker, at the place `i`.
unfoldable pub segment : Bytes → ℕ → ℕ → Run Round
unfolding be16
segment b marker i =
    if has_no_length marker
    then returns (continues i)
    else if is_end marker
    then returns (ends none)
    else if ltb (length b) (i + 2)
    then returns (ends none)
    else be16 b i >>= λ size.
        if ltb size 2
        then returns (ends none)
        else if starts_frame marker
        then (if ltb (length b) (i + 7)
            then returns (ends none)
            else be16 b (i + 5) >>= λ width.
                be16 b (i + 3) >>= λ height. returns (ends (nonzero width height)))
        else returns (continues (i + size))

unfoldable pub at_marker : Bytes → Option (ℕ × ℕ) → Run Round
unfolding segment
at_marker b none = returns (ends none)
at_marker b (some (marker, i)) = segment b marker (i + 1)

unfoldable pub round : Bytes → ℕ → Run Round
unfolding at_marker skip_ff
round b i = elim (get_elem? b i) [
  | none ↦ returns (ends none)
  | some x ↦ if not (x == 0xff) then returns (ends none) else at_marker b (skip_ff (drop i b) i)
]

unfoldable pub rounds : ℕ → Bytes → ℕ → Run (Option Size)
unfolding round
rounds zero b i = returns none
rounds (suc n) b i = elim (round b i) [
  | panics ↦ panics
  | returns (continues j) ↦ rounds n b j
  | returns (ends size) ↦ returns size
]

abbrev pub most_segments : ℕ
most_segments = 4096

unfoldable pub jpeg_size : Bytes → Run (Option Size)
unfolding rounds
jpeg_size b = rounds most_segments b 2

abbrev pub lossy_size : Bytes → Run (Option Size)
lossy_size b = le16 b 26 >>= λ w. le16 b 28 >>= λ h. returns (nonzero (w % 0x4000) (h % 0x4000))

abbrev pub lossy : Bytes → Bytes → Run (Option Size)
lossy b code = if text_eq code (0x9d ∷ 0x01 ∷ 0x2a ∷ []) then lossy_size b else returns none

abbrev pub lossless_size : Bytes → Run (Option Size)
lossless_size b =
    le32 b 21 >>= λ bits. returns (nonzero (bits % 0x4000 + 1) (bits / 0x4000 % 0x4000 + 1))

abbrev pub lossless : Bytes → ℕ → Run (Option Size)
lossless b signature = if signature == 0x2f then lossless_size b else returns none

-- By the four letters of the first chunk.
unfoldable pub webp_chunk : Bytes → Bytes → Run (Option Size)
unfolding index slice le16 le24 le32
webp_chunk b name =
    if text_eq name (codes "VP8 ") && leb 30 (length b)
    then (slice b 23 26 >>= lossy b)
    else if text_eq name (codes "VP8L")
    then (index b 20 >>= lossless b)
    else if text_eq name (codes "VP8X") && leb 30 (length b)
    then (le24 b 24 >>= λ w. le24 b 27 >>= λ h. returns (nonzero (w + 1) (h + 1)))
    else returns none

unfoldable pub webp_size : Bytes → Run (Option Size)
unfolding slice webp_chunk
webp_size b =
    if ltb (length b) 25
    then returns none
    else slice b 0 4 >>= λ riff.
        if not (text_eq riff (codes "RIFF"))
        then returns none
        else slice b 8 12 >>= λ kind.
            if not (text_eq kind (codes "WEBP"))
            then returns none
            else slice b 12 16 >>= webp_chunk b

unfoldable pub png_size : Bytes → Run (Option Size)
unfolding slice be32
png_size b =
    if ltb (length b) 24
    then returns none
    else slice b 12 16 >>= λ name.
        if not (text_eq name (codes "IHDR"))
        then returns none
        else be32 b 16 >>= λ w. be32 b 20 >>= λ h. returns (nonzero w h)

unfoldable pub gif_size : Bytes → Run (Option Size)
unfolding le16
gif_size b =
    if ltb (length b) 10
    then returns none
    else le16 b 6 >>= λ w. le16 b 8 >>= λ h. returns (nonzero w h)

unfoldable pub image_size : Bytes → MediaType → Run (Option Size)
unfolding png_size gif_size jpeg_size webp_size
image_size b png = png_size b
image_size b gif = gif_size b
image_size b jpeg = jpeg_size b
image_size b webp = webp_size b
image_size b pdf = returns none
image_size b text = returns none
image_size b html = returns none
image_size b csv = returns none
image_size b other = returns none

abbrev within_limit : Option Size → Bool
within_limit none = false
within_limit (some (w, h)) = leb (w * h) max_image_pixels

unfoldable pub drawable : Bytes → MediaType → Run Bool
unfolding image_size
drawable b kind =
    if is_image kind
    then (image_size b kind >>= λ size. returns (within_limit size))
    else returns false

-- The bytes that may follow in UTF-8: how many, and the range of the next one.
abbrev utf8_start : ℕ → Option (ℕ × ℕ × ℕ)
utf8_start a =
    if ltb a 0x80
    then some (0, 0x80, 0xbf)
    else if leb 0xc2 a && leb a 0xdf
    then some (1, 0x80, 0xbf)
    else if a == 0xe0
    then some (2, 0xa0, 0xbf)
    else if a == 0xed
    then some (2, 0x80, 0x9f)
    else if leb 0xe1 a && leb a 0xef
    then some (2, 0x80, 0xbf)
    else if a == 0xf0
    then some (3, 0x90, 0xbf)
    else if leb 0xf1 a && leb a 0xf3
    then some (3, 0x80, 0xbf)
    else if a == 0xf4
    then some (3, 0x80, 0x8f)
    else none

-- `std::str::from_utf8(..).is_ok()`
unfoldable pub is_utf8 : ℕ → ℕ → ℕ → Bytes → Bool
is_utf8 more low high [] = more == 0
is_utf8 (suc more) low high (a ∷ b) = leb low a && leb a high && is_utf8 more 0x80 0xbf b
is_utf8 zero low high (a ∷ b) = elim (utf8_start a) [
  | none ↦ false
  | some (more, low, high) ↦ is_utf8 more low high b
]

abbrev pub ends_with : Text → Text → Bool
ends_with end name = starts_with (reverse end) (reverse name)

unfoldable pub image_kind : Bytes → Run (Option MediaType)
unfolding slice
image_kind b =
    if starts_with (0xff ∷ 0xd8 ∷ 0xff ∷ []) b
    then returns (some jpeg)
    else if starts_with (0x89 ∷ b'P' ∷ b'N' ∷ b'G' ∷ 0x0d ∷ 0x0a ∷ 0x1a ∷ 0x0a ∷ []) b
    then returns (some png)
    else if starts_with (codes "GIF87a") b || starts_with (codes "GIF89a") b
    then returns (some gif)
    else if leb 12 (length b)
    then (slice b 0 4 >>= λ riff. slice b 8 12 >>= λ kind.
        returns
          (if text_eq riff (codes "RIFF") && text_eq kind (codes "WEBP") then some webp else none))
    else returns none

module _ (to_lowercase : Text → Text) where
  unfoldable pub text_kind : Text → Bytes → MediaType
  unfolding is_utf8
  text_kind name b =
      if starts_with (codes "%PDF-") b
      then pdf
      else if any (λ x. x == 0) b || not (is_utf8 0 0 0 b)
      then other
      else if ends_with (codes ".csv") (to_lowercase name)
      then csv
      else if ends_with (codes ".html") (to_lowercase name)
          || ends_with (codes ".htm") (to_lowercase name)
      then html
      else text

  abbrev pub sized : MediaType → Option Size → MediaType
  sized kind none = other
  sized kind (some size) = kind

  unfoldable pub sniff : Text → Bytes → Run MediaType
  unfolding image_kind image_size text_kind
  sniff name b = image_kind b >>= λ image. elim image [
    | some kind ↦ image_size b kind >>= λ size. returns (sized kind size)
    | none ↦ returns (text_kind name b)
  ]
