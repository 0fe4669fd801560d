-- ===== src/Sync/Hello.antt =====
-- The greeting: `Hello` of src-tauri/src/sync/wire.rs, `check_hello` of engine.rs, and which way a
-- sync goes (`reviewer`, `sends` and `receives` of flow.rs).
pub mod Agreed
use meow_ny.Common.{
  ℕ, ◌+◌, ◌-◌, ◌/◌, ◌*◌, ◌≤◌, ◌≡◌, ◌≢◌, ◌↔◌, ◌⊎◌, inl, inr, refl, Bool, true, false, not, ◌&&◌,
  ◌||◌, Option, none, some, List, [], ◌∷◌, arith, ltb, leb, ◌==◌, length, all, if◌then◌else◌,
  Bool-cases, Option-cases,
}
use meow_ny.Common.Text.{Text, utf8_len, text_eq, text_eq_iff, text_eq_comm, is_digit}
use meow_ny.Fields.{no_controls}
use meow_ny.Stamp.{Stamp, parse, is_lower_hex}
use meow_ny.Sync.{codes, WireError, SyncError, Answer, fails, gives, ◌>>=◌, ◌>>◌, fail_if, ok_or}

pub data Mode : Type 0 where
  both to_desktop to_phone : Mode

pub record Hello : Type 0 where
  pub device_id : Text
  pub name : Text
  pub app_version : Text
  pub schema : ℕ
  pub protocol : ℕ
  pub clock : Text
  pub currency : Text
  pub generation : ℕ
  pub since : Option ℕ
  pub mode : Mode

-- `is_hex`
abbrev pub is_hex : Text → ℕ → Bool
is_hex s n = (utf8_len s == n) && all is_lower_hex s

abbrev pub is_some {ℓ} : {A : Type ℓ} → Option A → Bool
is_some none = false
is_some (some a) = true

-- `Stamp::is_valid`
abbrev pub is_valid : Text → Bool
is_valid text = is_some (parse text)

-- `is_ascii_graphic`
abbrev is_graphic : ℕ → Bool
is_graphic c = leb 33 c && leb c 126

abbrev is_upper : ℕ → Bool
is_upper c = leb b'A' c && leb c b'Z'

abbrev pub currency_ok : Text → Bool
currency_ok s = (utf8_len s == 3) && all is_upper s

-- `Hello::validate`
unfoldable pub validate : Hello → Answer WireError (Unit {0})
validate h =
    fail_if
      (not (is_hex h.device_id 32)
        || not (leb 1 (length h.name) && leb (length h.name) 50 && no_controls h.name)
        || not (
            leb 1 (utf8_len h.app_version)
            && leb (utf8_len h.app_version) 32
            && all is_graphic h.app_version)
        || not (is_valid h.clock))
      (WireError.invalid (codes "hello"))
    >> fail_if (not (currency_ok h.currency) || not (leb h.generation 1000000))
        (WireError.invalid (codes "hello"))

pub data Warning : Type 0 where
  clock_off : ℕ → Warning

abbrev pub max_clock_lead_ms : ℕ
max_clock_lead_ms = 86400000

abbrev pub clock_warning_ms : ℕ
clock_warning_ms = 60000

abbrev pub abs_diff : ℕ → ℕ → ℕ
abs_diff a b = (a - b) + (b - a)

abbrev pub warnings_of : ℕ → List Warning
warnings_of gap = if ltb clock_warning_ms gap then clock_off (gap / 1000) ∷ [] else []

unfoldable pub check_hello : Hello → Hello → ℕ → Answer SyncError (List Warning)
check_hello mine theirs now_ms =
    fail_if (not (theirs.protocol == mine.protocol)) SyncError.protocol_mismatch
    >> fail_if (not (theirs.schema == mine.schema))
        (SyncError.schema_mismatch (ltb theirs.schema mine.schema))
    >> fail_if (text_eq theirs.device_id mine.device_id) (SyncError.invalid (codes "device"))
    >> ok_or (parse theirs.clock) (SyncError.invalid (codes "clock"))
    >>= λ s.
        fail_if (ltb max_clock_lead_ms (abs_diff s.ms now_ms)) SyncError.clock_far_off
        >> fail_if
            ((theirs.generation == mine.generation) && not (text_eq theirs.currency mine.currency))
            SyncError.currency
        >> gives (warnings_of (abs_diff s.ms now_ms))

pub data Role : Type 0 where
  desktop phone : Role

-- The device that reviews the conflicts of a sync.
abbrev pub reviewer : Mode → Role
reviewer to_phone = phone
reviewer to_desktop = desktop
reviewer both = desktop

abbrev pub sends : Role → Mode → Bool
sends role both = true
sends phone to_desktop = true
sends desktop to_desktop = false
sends desktop to_phone = true
sends phone to_phone = false

abbrev pub receives : Role → Mode → Bool
receives role both = true
receives desktop to_desktop = true
receives phone to_desktop = false
receives phone to_phone = true
receives desktop to_phone = false

abbrev pub other_role : Role → Role
other_role desktop = phone
other_role phone = desktop
