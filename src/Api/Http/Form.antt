-- ===== src/Api/Http/Form.antt =====
-- The form of a request that `parse_head` of src-tauri/src/api/http.rs accepts, in terms of characters
-- and numbers only.
use meow_ny.Common.{
  ℕ, ◌+◌, ◌≤◌, ◌≡◌, ◌≢◌, ◌⊎◌, true, List, [], ◌∷◌, any, ◌==◌, if◌then◌else◌, length, All,
}
use meow_ny.Common.Text.{Text, utf8_len, text_eq}
use meow_ny.Sync.{codes}
use meow_ny.Api.Http.{Header, Request}

abbrev pub Between : ℕ → ℕ → ℕ → Type 0
Between low high c = (low ≤ c) × (c ≤ high)

-- A digit, a lower case letter, or one of the symbols that a name may have.
abbrev pub IsNameChar : ℕ → Type 0
IsNameChar c =
    Between 0x30 0x39 c
    ⊎ (Between 0x61 0x7a c ⊎ (any (λ d. d == c) (codes "!#$%&'*+-.^_`|~") ≡ true))

-- No control character but the tabulator, and no delete character.
abbrev pub IsValueChar : ℕ → Type 0
IsValueChar c = ((0x20 ≤ c) ⊎ (c ≡ 0x9)) × (c ≢ 0x7f)

abbrev pub NotBlank : ℕ → Type 0
NotBlank c = (c ≢ 0x20) × (c ≢ 0x9)

abbrev pub FirstNotBlank : Text → Type 0
FirstNotBlank [] = Unit
FirstNotBlank (c ∷ s) = NotBlank c

abbrev pub LastNotBlank : Text → Type 0
LastNotBlank [] = Unit
LastNotBlank (c ∷ []) = NotBlank c
LastNotBlank (c ∷ d ∷ s) = LastNotBlank (d ∷ s)

abbrev pub IsField : Header → Type 0
IsField (name, value) =
    (1 ≤ length name)
    × All IsNameChar name
    × All IsValueChar value
    × FirstNotBlank value
    × LastNotBlank value

-- How often a name stands among the headers.
abbrev pub times : Text → List Header → ℕ
times name [] = 0
times name ((n, v) ∷ hs) = let rest = times name hs in if text_eq n name then 1 + rest else rest

abbrev pub OnceAtMost : List Header → Type 0
OnceAtMost hs =
    (times (codes "host") hs ≤ 1)
    × (times (codes "content-length") hs ≤ 1)
    × (times (codes "authorization") hs ≤ 1)
    × (times (codes "origin") hs ≤ 1)
    × (times (codes "expect") hs ≤ 1)

pub record IsStrict (r : Request) : Type 0 where
  pub some_method : 1 ≤ length r.method
  pub short_method : utf8_len r.method ≤ 16
  pub method_letters : All (Between 0x41 0x5a) r.method
  pub path : (rest : Text) × (r.target ≡ 0x2f ∷ rest)
  pub short_target : utf8_len r.target ≤ 200
  pub target_visible : All (Between 0x21 0x7e) r.target
  pub fields : All IsField r.headers
  pub once : OnceAtMost r.headers
  pub not_chunked : times (codes "transfer-encoding") r.headers ≡ 0
  pub no_body : r.body ≡ []
