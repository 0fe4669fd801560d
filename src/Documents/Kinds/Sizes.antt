-- ===== src/Documents/Kinds/Sizes.antt =====
-- No file makes the readers of `image_size` read past its end, and the sizes they find are numbers that fit.
use meow_ny.Common.{
  ℕ, zero, suc, ◌+◌, ◌/◌, ◌%◌, ◌≤◌, ◌<◌, ◌≡◌, ◌⊎◌, refl, Bool, true, false, not, ◌&&◌, ◌||◌, Option,
  none, some, [], ◌∷◌, arith, length, drop, get_elem?, any, ltb, leb, ◌==◌, if◌then◌else◌,
  Bool-cases, Option-cases, inl, inr,
}
use meow_ny.Common.Text.{Text, text_eq}
use meow_ny.Sync.{codes}
use meow_ny.Documents.Kinds.{
  MediaType, jpeg, png, gif, webp, pdf, text, html, csv, other, is_image, returns, Bytes, Size,
  starts_with, nonzero,
}
use meow_ny.Documents.Kinds.Image.{
  skip_ff, Round, continues, ends, segment, at_marker, round, rounds, jpeg_size, lossy, lossless,
  webp_chunk, webp_size, png_size, gif_size, image_size, has_no_length, is_end, starts_frame,
  most_segments, image_kind, text_kind, sized, sniff, ends_with, is_utf8,
}
use meow_ny.Documents.Kinds.Reads.{
  Ends, returned, Ends-inv, AreBytes, Whatever, Fits, bind-Ends, if-Ends, index-Ends, slice-Ends,
  nonzero-Fits, be16-Ends, le16-Ends, le24-Ends, be32-Ends, le32-Ends,
}

module _ (b : Bytes) (bytes : AreBytes b) where
  png-Ends : Ends Fits (png_size b)
  unfolding png_size
  png-Ends =
      if-Ends (ltb (length b) 24) (λ short. returned none tt)
        λ long. bind-Ends (slice-Ends b 12 16 (omega arith) (ground arith)) λ name _.
          if-Ends (not (text_eq name (codes "IHDR"))) (λ strange. returned none tt)
            λ known. bind-Ends (be32-Ends b bytes 16 (ground arith)) λ w small.
              bind-Ends (be32-Ends b bytes 20 (ground arith))
                λ h small'. nonzero-Fits w h small small'

  gif-Ends : Ends Fits (gif_size b)
  unfolding gif_size
  gif-Ends =
      if-Ends (ltb (length b) 10) (λ short. returned none tt)
        λ long. bind-Ends (le16-Ends b bytes 6 (ground arith)) λ w small.
          bind-Ends (le16-Ends b bytes 8 (ground arith))
            λ h small'. nonzero-Fits w h (omega arith) (omega arith)

  lossy-Ends : (code : Bytes) → 30 ≤ length b → Ends Fits (lossy b code)
  lossy-Ends code long =
      if-Ends (text_eq code (0x9d ∷ 0x01 ∷ 0x2a ∷ []))
        (λ e. bind-Ends (le16-Ends b bytes 26 (omega arith)) λ w _.
          bind-Ends (le16-Ends b bytes 28 (omega arith))
            λ h _. nonzero-Fits (w % 0x4000) (h % 0x4000) (omega arith) (omega arith))
        λ e. returned none tt

  lossless-Ends : (signature : ℕ) → 25 ≤ length b → Ends Fits (lossless b signature)
  lossless-Ends signature long =
      if-Ends (signature == 0x2f)
        (λ e. bind-Ends (le32-Ends b bytes 21 (omega arith)) λ bits _.
          nonzero-Fits (bits % 0x4000 + 1) (bits / 0x4000 % 0x4000 + 1) (omega arith) (omega arith))
        λ e. returned none tt

  chunk-Ends : (name : Bytes) → 25 ≤ length b → Ends Fits (webp_chunk b name)
  unfolding webp_chunk
  chunk-Ends name long =
      if-Ends (text_eq name (codes "VP8 ") && leb 30 (length b))
        (λ e.
          bind-Ends (slice-Ends b 23 26 (omega arith) (ground arith))
            λ code _. lossy-Ends code (ground arith))
        λ _.
          if-Ends (text_eq name (codes "VP8L"))
            (λ e.
              bind-Ends (index-Ends b 20 bytes (omega (arith, long)))
                λ signature _. lossless-Ends signature long)
            λ _.
              if-Ends (text_eq name (codes "VP8X") && leb 30 (length b))
                (λ e. bind-Ends (le24-Ends b bytes 24 (ground arith)) λ w small.
                  bind-Ends (le24-Ends b bytes 27 (ground arith))
                    λ h small'. nonzero-Fits (w + 1) (h + 1) (omega arith) (omega arith))
                λ e. returned none tt

  webp-Ends : Ends Fits (webp_size b)
  unfolding webp_size
  webp-Ends =
      if-Ends (ltb (length b) 25) (λ short. returned none tt)
        λ long. bind-Ends (slice-Ends b 0 4 (omega arith) (ground arith)) λ riff _.
          if-Ends (not (text_eq riff (codes "RIFF"))) (λ strange. returned none tt)
            λ known. bind-Ends (slice-Ends b 8 12 (omega arith) (ground arith)) λ kind _.
              if-Ends (not (text_eq kind (codes "WEBP"))) (λ strange. returned none tt)
                λ known.
                  bind-Ends (slice-Ends b 12 16 (omega arith) (ground arith))
                    λ name _. chunk-Ends name (ground arith)

  -- What a round ends with.
  abbrev FitsRound : Round → Type 0
  FitsRound (continues j) = Unit
  FitsRound (ends size) = Fits size

  segment-Ends : (marker i : ℕ) → Ends FitsRound (segment b marker i)
  unfolding segment
  segment-Ends marker i =
      if-Ends (has_no_length marker) (λ e. returned (continues i) tt)
        λ _.
          if-Ends (is_end marker) (λ e. returned (ends none) tt)
            λ _.
              if-Ends (ltb (length b) (i + 2)) (λ e. returned (ends none) tt)
                λ long. bind-Ends (be16-Ends b bytes i (ground arith)) λ size _.
                  if-Ends (ltb size 2) (λ e. returned (ends none) tt)
                    λ _.
                      if-Ends (starts_frame marker)
                        (λ e.
                          if-Ends (ltb (length b) (i + 7)) (λ e. returned (ends none) tt)
                            λ longer.
                              bind-Ends (be16-Ends b bytes (i + 5) (ground arith)) λ w small.
                                bind-Ends (be16-Ends b bytes (i + 3) (ground arith))
                                  λ h small'. returned (ends (nonzero w h)) (ground arith))
                        λ e. returned (continues (i + size)) tt

  marker-Ends : (m : Option (ℕ × ℕ)) → Ends FitsRound (at_marker b m)
  unfolding at_marker
  marker-Ends none = returned (ends none) tt
  marker-Ends (some (marker, i)) = segment-Ends marker (i + 1)

  round-Ends : (i : ℕ) → Ends FitsRound (round b i)
  unfolding round
  round-Ends i = elim (Option-cases (get_elem? b i)) [
    | inl e ↦
        let stops : round b i ≡ returns (ends none) = ground arith in
        rw stops (returned (ends none) tt)
    | inr (x, e) ↦ elim (Bool-cases (x == 0xff)) [
      | inl found ↦
          let goes : round b i ≡ at_marker b (skip_ff (drop i b) i) = ground arith in
          rw goes (marker-Ends (skip_ff (drop i b) i))
      | inr strange ↦
          let stops : round b i ≡ returns (ends none) = ground arith in
          rw stops (returned (ends none) tt)
    ]
  ]

  rounds-Ends : (n i : ℕ) → Ends Fits (rounds n b i)
  unfolding rounds
  rounds-Ends zero i = returned none tt
  rounds-Ends (suc n) i =
      let (how, e, fits) = Ends-inv (round-Ends i) in
      elim how
          as (λ how. round b i ≡ returns how → FitsRound how → Ends Fits (rounds (suc n) b i)) [
            | continues j ↦ λ e _.
                let goes : rounds (suc n) b i ≡ rounds n b j = ground arith in
                rw goes (rounds-Ends n j)
            | ends size ↦ λ e fits.
                let stops : rounds (suc n) b i ≡ returns size = ground arith in
                rw stops (returned size fits)
          ]
        e fits

  image-Ends : (kind : MediaType) → Ends Fits (image_size b kind)
  unfolding image_size jpeg_size
  image-Ends jpeg = rounds-Ends most_segments 2
  image-Ends png = png-Ends
  image-Ends gif = gif-Ends
  image-Ends webp = webp-Ends
  image-Ends pdf = returned none tt
  image-Ends text = returned none tt
  image-Ends html = returned none tt
  image-Ends csv = returned none tt
  image-Ends other = returned none tt

-- Reading the size of an image returns for every file, and a size that it returns has two sides above
-- 0 and below 2 ^ 32.
pub image_size-Fits :
    (b : Bytes) (kind : MediaType)
    → AreBytes b
    → (size : Option Size) × (image_size b kind ≡ returns size) × Fits size
image_size-Fits b kind bytes = Ends-inv (image-Ends b bytes kind)

kind-Ends : (b : Bytes) → Ends Whatever (image_kind b)
unfolding image_kind
kind-Ends b =
    if-Ends (starts_with (0xff ∷ 0xd8 ∷ 0xff ∷ []) b) (λ e. returned (some jpeg) tt)
      λ _.
        if-Ends (starts_with (0x89 ∷ b'P' ∷ b'N' ∷ b'G' ∷ 0x0d ∷ 0x0a ∷ 0x1a ∷ 0x0a ∷ []) b)
          (λ e. returned (some png) tt)
          λ _.
            if-Ends (starts_with (codes "GIF87a") b || starts_with (codes "GIF89a") b)
              (λ e. returned (some gif) tt)
              λ _.
                if-Ends (leb 12 (length b))
                  (λ long. bind-Ends (slice-Ends b 0 4 (omega arith) (ground arith)) λ riff _.
                    bind-Ends (slice-Ends b 8 12 (omega arith) (ground arith)) λ kind _.
                      returned
                        (if text_eq riff (codes "RIFF") && text_eq kind (codes "WEBP")
                          then some webp
                          else none)
                        tt)
                  λ e. returned none tt

-- An image whose size can be read, or no image.
abbrev pub Honest : Bytes → MediaType → Type 0
Honest b kind =
    (is_image kind ≡ false)
    ⊎ ((w : ℕ) × (h : ℕ) × (image_size b kind ≡ returns (some (w, h))) × (0 < w) × (0 < h))

neither :
    (c : Bool) (k l : MediaType)
    → is_image k ≡ false
    → is_image l ≡ false
    → is_image (if c then k else l) ≡ false
neither true k l h i = h
neither false k l h i = i

module _ (to_lowercase : Text → Text) where
  text_kind-Honest : (name : Text) (b : Bytes) → is_image (text_kind to_lowercase name b) ≡ false
  unfolding text_kind
  text_kind-Honest name b = neither (starts_with (codes "%PDF-") b) pdf _ refl (
      neither (any (λ x. x == 0) b || not (is_utf8 0 0 0 b)) other _ refl (
        neither (ends_with (codes ".csv") (to_lowercase name)) csv _ refl (
          neither
            (ends_with (codes ".html") (to_lowercase name)
              || ends_with (codes ".htm") (to_lowercase name))
            html text refl refl)))

  sized-Honest :
      (b : Bytes) (kind : MediaType) (size : Option Size)
      → image_size b kind ≡ returns size
      → Fits size
      → Honest b (sized to_lowercase kind size)
  sized-Honest b kind none e fits = inl refl
  sized-Honest b kind (some (w, h)) e (wide, high, _, _) = inr (w, h, e, wide, high)

  -- A kind is found for every file, and when it is the kind of an image, the size of the image can be
  -- read and is not empty.
  pub sniff-Honest :
      (name : Text) (b : Bytes)
      → AreBytes b
      → (kind : MediaType) × (sniff to_lowercase name b ≡ returns kind) × Honest b kind
  unfolding sniff
  sniff-Honest name b bytes =
      let (image, e, _) = Ends-inv (kind-Ends b) in
      elim image
          as (λ image.
            image_kind b ≡ returns image
            → (kind : MediaType) × (sniff to_lowercase name b ≡ returns kind) × Honest b kind) [
              | none ↦
                  λ e. (text_kind to_lowercase name b, ground arith, inl (text_kind-Honest name b))
              | some kind ↦ λ e.
                  let (size, read, fits) = image_size-Fits b kind bytes in
                  (sized to_lowercase kind size, ground arith, sized-Honest b kind size read fits)
            ]
        e
