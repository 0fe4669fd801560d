-- ===== src/Documents/Names/Disk.antt =====
-- A name that a file on any system can have.
use meow_ny.Common.{
  ℕ, ◌≡◌, refl, sym, ◌∙◌, subst, Bool, true, false, ◌&&◌, ◌||◌, some, [], ◌∷◌, ◌++◌, arith, any,
  map, if◌then◌else◌, Bool-cases, Option-cases, inl, inr,
}
use meow_ny.Common.Text.{Text, is_empty}
use meow_ny.Fields.{is_whitespace, trim_start}
use meow_ny.Sync.{codes}
use meow_ny.Documents.Kinds.{
  MediaType, jpeg, png, gif, webp, pdf, text, html, csv, other, open_extension,
}
use meow_ny.Documents.Names.{
  is_hidden, drop_end, document, is_forbidden, dot_or_space, before_dot, upper_ascii, is_device,
  is_reserved, allowed, disk_name, open_name, stem_of, split_last,
}
use meow_ny.Documents.Names.Tidy.{any-drop_end, any-append}

-- A character that no file name may have.
unfoldable pub is_refused : ℕ → Bool
is_refused c = is_forbidden c || is_hidden c

abbrev pub starts_white : Text → Bool
starts_white [] = false
starts_white (c ∷ s) = is_whitespace c

pub record IsSafe (t : Text) : Type 0 where
  pub full : is_empty t ≡ false
  pub begins : starts_white t ≡ false
  pub ends : drop_end dot_or_space t ≡ t
  pub clear : any is_refused t ≡ false
  pub free : is_reserved t ≡ false

underscore-device : (r : Text) → is_device (b'_' ∷ r) ≡ false
underscore-device [] = refl
underscore-device (a ∷ []) = refl
underscore-device (a ∷ b ∷ []) = refl
underscore-device (a ∷ b ∷ c ∷ []) = refl
underscore-device (a ∷ b ∷ c ∷ d ∷ r) = refl

underscore-reserved : (r : Text) → is_reserved (b'_' ∷ r) ≡ false
unfolding is_reserved before_dot drop_end
underscore-reserved r =
    let rest = drop_end is_whitespace (before_dot r) in
    let stays : (if is_empty rest && false then [] else b'_' ∷ rest) ≡ b'_' ∷ rest = ground arith in
    rw stays (underscore-device (map upper_ascii rest))

underscore-refused : is_refused b'_' ≡ false
unfolding is_refused is_hidden
underscore-refused = refl

if-refused : (b : Bool) (c : ℕ) → is_refused c ≡ b → is_refused (if b then b'_' else c) ≡ false
if-refused true c h = underscore-refused
if-refused false c h = h

allowed-refused : (c : ℕ) → is_refused (allowed c) ≡ false
unfolding is_refused allowed
allowed-refused c = if-refused (is_refused c) c refl

map-refused : (s : Text) → any is_refused (map allowed s) ≡ false
map-refused [] = refl
map-refused (c ∷ s) = rw (allowed-refused c) (map-refused s)

any-trim_start : (p : ℕ → Bool) (s : Text) → any p s ≡ false → any p (trim_start s) ≡ false
unfolding trim_start
any-trim_start p [] h = refl
any-trim_start p (c ∷ s) h = ground (arith, any-trim_start p s)

trim_start-begins : (s : Text) → starts_white (trim_start s) ≡ false
unfolding trim_start
trim_start-begins [] = refl
trim_start-begins (c ∷ s) = ground (arith, trim_start-begins s)

ends-cons :
    (p : ℕ → Bool) (c : ℕ) (rest : Text)
    → drop_end p rest ≡ rest
    → drop_end p (if is_empty rest && p c then [] else c ∷ rest)
      ≡ (if is_empty rest && p c then [] else c ∷ rest)
unfolding drop_end
ends-cons p c rest h = elim (Bool-cases (is_empty rest && p c)) [
  | inl gone ↦ rw gone refl
  | inr stays ↦ rw (stays, h, stays) refl
]

pub drop_end-ends : (p : ℕ → Bool) (s : Text) → drop_end p (drop_end p s) ≡ drop_end p s
unfolding drop_end
drop_end-ends p [] = refl
drop_end-ends p (c ∷ s) = ends-cons p c (drop_end p s) (drop_end-ends p s)

pub ends-tail : (p : ℕ → Bool) (c : ℕ) (s : Text) → drop_end p (c ∷ s) ≡ c ∷ s → drop_end p s ≡ s
unfolding drop_end
ends-tail p c s h = ground arith

trim_start-ends :
    (p : ℕ → Bool) (s : Text) → drop_end p s ≡ s → drop_end p (trim_start s) ≡ trim_start s
unfolding trim_start
trim_start-ends p [] h = h
trim_start-ends p (c ∷ s) h = ground (arith, ends-tail p c s, trim_start-ends p s, h)

-- What stands before the test for a name of a device.
abbrev disk_stem : Text → Text
disk_stem name = trim_start (drop_end dot_or_space (map allowed name))

underscore_first :
    (out : Text)
    → is_empty out ≡ false
    → drop_end dot_or_space out ≡ out
    → any is_refused out ≡ false
    → IsSafe (b'_' ∷ out)
unfolding trim_start drop_end
underscore_first out full ends clear = record {
  full = refl;
  begins = refl;
  ends = rw (ends, full) refl;
  clear = rw underscore-refused clear;
  free = underscore-reserved out;
}

document-Safe : IsSafe document
unfolding trim_start drop_end is_refused is_hidden is_reserved before_dot
document-Safe = record { full = refl; begins = refl; ends = refl; clear = refl; free = refl }

-- A name on the disk is not empty, begins with no white space, ends with no dot and no space, has no
-- character that Windows forbids and none that is hidden, and is not the name of a device.
pub disk_name-IsSafe : (name : Text) → IsSafe (disk_name name)
unfolding disk_name
disk_name-IsSafe name =
    let cut = drop_end dot_or_space (map allowed name) in
    let ends = trim_start-ends dot_or_space cut (drop_end-ends dot_or_space (map allowed name)) in
    let clear =
      any-trim_start is_refused cut
        (any-drop_end is_refused dot_or_space (map allowed name) (map-refused name)) in
    elim (Bool-cases (is_empty (disk_stem name))) [
      | inl none_left ↦ rw none_left document-Safe
      | inr full ↦ elim (Bool-cases (is_reserved (disk_stem name))) [
        | inl device ↦ rw (full, device) (underscore_first (disk_stem name) full ends clear)
        | inr free ↦
            rw (full, free)
              (record {
                full = full;
                begins = trim_start-begins cut;
                ends = ends;
                clear = clear;
                free = free;
              })
      ]
    ]

append_full : (a z : Text) → is_empty z ≡ false → is_empty (a ++ z) ≡ false
append_full [] z h = h
append_full (c ∷ a) z h = refl

ends-append :
    (p : ℕ → Bool) (a z : Text)
    → is_empty z ≡ false
    → drop_end p z ≡ z
    → drop_end p (a ++ z) ≡ a ++ z
unfolding drop_end
ends-append p [] z full h = h
ends-append p (c ∷ a) z full h = rw (ends-append p a z full h, append_full a z full) refl

before_dot-append : (a z : Text) → before_dot (a ++ b'.' ∷ z) ≡ before_dot a
unfolding before_dot
before_dot-append [] z = refl
before_dot-append (c ∷ a) z = ground (arith, before_dot-append a z)

-- An extension that the app gives to a copy.
record IsExtension (e : Text) : Type 0 where
  ends : drop_end dot_or_space (b'.' ∷ e) ≡ b'.' ∷ e
  clear : any is_refused (b'.' ∷ e) ≡ false

known : (x e : Text) → some x ≡ some e → IsExtension x → IsExtension e
known x e h ext = let same : x ≡ e = cc in subst IsExtension same ext

open_extension-IsExtension :
    (media : MediaType) (e : Text) → open_extension media ≡ some e → IsExtension e
unfolding drop_end is_refused is_hidden
open_extension-IsExtension jpeg e h = known (codes "jpg") e h (record { ends = refl; clear = refl })
open_extension-IsExtension png e h = known (codes "png") e h (record { ends = refl; clear = refl })
open_extension-IsExtension gif e h = known (codes "gif") e h (record { ends = refl; clear = refl })
open_extension-IsExtension webp e h =
    known (codes "webp") e h (record { ends = refl; clear = refl })
open_extension-IsExtension pdf e h = known (codes "pdf") e h (record { ends = refl; clear = refl })
open_extension-IsExtension text e h = known (codes "txt") e h (record { ends = refl; clear = refl })
open_extension-IsExtension html e h =
    known (codes "html") e h (record { ends = refl; clear = refl })
open_extension-IsExtension csv e h = known (codes "csv") e h (record { ends = refl; clear = refl })
open_extension-IsExtension other e h = absurd (cc)

append-IsSafe : (stem e : Text) → IsSafe stem → IsExtension e → IsSafe (stem ++ b'.' ∷ e)
unfolding is_reserved
append-IsSafe [] e safe ext = absurd (cc)
append-IsSafe (c ∷ stem) e safe ext = record {
  full = refl;
  begins = safe.begins;
  ends = ends-append dot_or_space (c ∷ stem) (b'.' ∷ e) refl ext.ends;
  clear = any-append is_refused (c ∷ stem) (b'.' ∷ e) ∙ rw (safe.clear, ext.clear) refl;
  free = rw (before_dot-append (c ∷ stem) e) safe.free;
}

-- The name of the copy that a viewer is given is the name of a file that is safe in the same way, and ends
-- with the extension of the kind of file that was found.
pub open_name-IsSafe :
    (is_alphanumeric : ℕ → Bool) (name : Text) (media : MediaType) (t : Text)
    → open_name is_alphanumeric name media ≡ some t
    → IsSafe t
      × (stem : Text) × (e : Text) × (open_extension media ≡ some e)
      × (t ≡ stem ++ b'.' ∷ e)
unfolding open_name
open_name-IsSafe is_alphanumeric name media t h =
    let stem = disk_name (stem_of is_alphanumeric name (split_last b'.' name)) in
    elim (Option-cases (open_extension media)) [
      | inl closed ↦ absurd (ground (arith, closed))
      | inr (e, found) ↦
          let made : stem ++ b'.' ∷ e ≡ t = ground (arith, found) in
          let safe =
            append-IsSafe stem e
              (disk_name-IsSafe (stem_of is_alphanumeric name (split_last b'.' name)))
              (open_extension-IsExtension media e found) in
          (subst IsSafe made safe, stem, e, found, sym made)
    ]
