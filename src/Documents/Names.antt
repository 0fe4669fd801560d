-- ===== src/Documents/Names.antt =====
-- What a document is called: the names of src-tauri/src/documents/names.rs. The function
-- `char::is_alphanumeric` is a parameter, since it stands on the tables of Unicode.
pub mod Tidy
pub mod Cut
pub mod Clean
pub mod Disk
use meow_ny.Common.{
  ℕ, ◌+◌, ◌-◌, ◌≡◌, Bool, true, false, not, ◌&&◌, ◌||◌, Option, none, some, List, [], ◌∷◌, ◌++◌,
  length, take, all, any, map, ltb, leb, ◌==◌, if◌then◌else◌,
}
use meow_ny.Common.Text.{Text, utf8_len, is_digit, is_empty, text_eq}
use meow_ny.Fields.{is_whitespace, is_control, trim_start}
use meow_ny.Sync.{codes}
use meow_ny.Documents.Kinds.{MediaType, open_extension}

abbrev pub name_max_chars : ℕ
name_max_chars = 120

abbrev pub extension_keep_chars : ℕ
extension_keep_chars = 12

unfoldable pub is_hidden : ℕ → Bool
is_hidden c =
    is_control c
    || (c == 0xad)
    || (c == 0x61c)
    || (c == 0x180e)
    || (leb 0x200b c && leb c 0x200f)
    || (leb 0x202a c && leb c 0x202e)
    || (leb 0x2060 c && leb c 0x2064)
    || (leb 0x2066 c && leb c 0x206f)
    || (c == 0xfeff)

-- The loop of `sanitize`, which gives the characters as it pushes them: `begun` is `!out.is_empty()`.
unfoldable pub tidied : Bool → Bool → Text → Text
unfolding is_hidden
tidied begun space [] = []
tidied begun space (c ∷ s) = elim (is_whitespace c) [
  | true ↦ tidied begun begun s
  | false ↦ elim (is_hidden c) [
    | true ↦ tidied begun space s
    | false ↦ let rest = tidied true false s in if space then b' ' ∷ c ∷ rest else c ∷ rest
  ]
]

-- The text less the characters at its end that pass the test: `trim_end`, and `pop` in a loop.
unfoldable pub drop_end : (ℕ → Bool) → Text → Text
drop_end p [] = []
drop_end p (c ∷ s) = let rest = drop_end p s in if is_empty rest && p c then [] else c ∷ rest

-- `rposition`: what stands before the last `d`, and after it.
unfoldable pub split_last : ℕ → Text → Option (Text × Text)
split_last d [] = none
split_last d (c ∷ s) = elim (split_last d s) [
  | some (a, b) ↦ some (c ∷ a, b)
  | none ↦ if c == d then some ([], s) else none
]

abbrev pub only_dots : Text → Bool
only_dots = all (λ c. c == b'.')

abbrev pub is_separator : ℕ → Bool
is_separator c = (c == b'/') || (c == b'\\')

abbrev pub has_separator : Text → Bool
has_separator = any is_separator

-- `rsplit(..).next()` at the separators
unfoldable pub last_part : Text → Text
last_part [] = []
last_part (c ∷ s) = let rest = last_part s in if has_separator (c ∷ s) then rest else c ∷ s

abbrev pub document : Text
document = codes "document"

module _ (is_alphanumeric : ℕ → Bool) where
  -- An extension that is kept, with the length of the name before it and of what comes after the dot.
  abbrev pub keeps_extension : Text → Text → Bool
  keeps_extension before after =
      not (is_empty before)
      && leb (1 + length after) extension_keep_chars
      && all is_alphanumeric after

  abbrev pub cut_stem : Text → Text → Text
  cut_stem stem extension =
      drop_end is_whitespace (take (name_max_chars - length extension) stem) ++ extension

  abbrev pub cut_at : Text → Option (Text × Text) → Text
  cut_at name none = cut_stem name []
  cut_at name (some (before, after)) =
      if keeps_extension before after then cut_stem before (b'.' ∷ after) else cut_stem name []

  unfoldable pub cut : Text → Text
  unfolding drop_end split_last
  cut name = if leb (length name) name_max_chars then name else cut_at name (split_last b'.' name)

  unfoldable pub sanitize : Text → Text
  unfolding tidied cut
  sanitize raw = cut (tidied false false raw)

  unfoldable pub clean_file_name : Text → Text
  unfolding last_part sanitize
  clean_file_name raw =
      let name = sanitize (last_part raw) in if only_dots name then document else name

  unfoldable pub clean_title : Text → Option Text
  unfolding sanitize
  clean_title raw =
      let name = sanitize (map (λ c. if is_separator c then b'-' else c) raw) in
      if not (only_dots name) then some name else none

  unfoldable pub is_clean_name : Text → Bool
  unfolding sanitize
  is_clean_name name =
      not (is_empty name)
      && not (has_separator name)
      && not (only_dots name)
      && text_eq (sanitize name) name

abbrev pub is_forbidden : ℕ → Bool
is_forbidden c =
    (c == b'<')
    || (c == b'>')
    || (c == b':')
    || (c == b'"')
    || (c == b'/')
    || (c == b'\\')
    || (c == b'|')
    || (c == b'?')
    || (c == b'*')

abbrev pub dot_or_space : ℕ → Bool
dot_or_space c = (c == b'.') || (c == b' ')

-- `split('.').next()`
unfoldable pub before_dot : Text → Text
before_dot [] = []
before_dot (c ∷ s) = if c == b'.' then [] else c ∷ before_dot s

-- `to_ascii_uppercase`
abbrev pub upper_ascii : ℕ → ℕ
upper_ascii c = if leb b'a' c && leb c b'z' then c - 32 else c

abbrev is_port : Text → Bool
is_port (a ∷ b ∷ c ∷ d ∷ []) =
    (text_eq (a ∷ b ∷ c ∷ []) (codes "COM") || text_eq (a ∷ b ∷ c ∷ []) (codes "LPT"))
    && is_digit d
    && not (d == b'0')
is_port other = false

abbrev pub is_device : Text → Bool
is_device stem =
    text_eq stem (codes "CON")
    || text_eq stem (codes "PRN")
    || text_eq stem (codes "AUX")
    || text_eq stem (codes "NUL")
    || is_port stem

unfoldable pub is_reserved : Text → Bool
unfolding before_dot drop_end
is_reserved out = is_device (map upper_ascii (drop_end is_whitespace (before_dot out)))

unfoldable pub allowed : ℕ → ℕ
unfolding is_hidden
allowed c = if is_forbidden c || is_hidden c then b'_' else c

unfoldable pub disk_name : Text → Text
unfolding allowed drop_end trim_start is_reserved
disk_name name =
    let out = trim_start (drop_end dot_or_space (map allowed name)) in
    if is_empty out then document else if is_reserved out then b'_' ∷ out else out

module _ (is_alphanumeric : ℕ → Bool) where
  abbrev pub drops_extension : Text → Text → Bool
  drops_extension before after =
      not (is_empty before)
      && leb (1 + utf8_len after) (extension_keep_chars + 1)
      && all is_alphanumeric after

  abbrev pub stem_of : Text → Option (Text × Text) → Text
  stem_of name none = name
  stem_of name (some (before, after)) = if drops_extension before after then before else name

  abbrev pub opened : Text → Option Text → Option Text
  opened stem none = none
  opened stem (some extension) = some (stem ++ b'.' ∷ extension)

  unfoldable pub open_name : Text → MediaType → Option Text
  unfolding split_last disk_name
  open_name name media =
      opened (disk_name (stem_of name (split_last b'.' name))) (open_extension media)
