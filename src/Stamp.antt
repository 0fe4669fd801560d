-- ===== src/Stamp.antt =====
-- Stamps and the hybrid clock behind them: src-tauri/src/sync/stamp.rs. The wall clock is an argument.
pub mod Newer
pub mod RoundTrip
use meow_ny.Common.{
  ℕ, zero, suc, ◌+◌, ◌-◌, ◌*◌, ◌/◌, ◌%◌, ◌<◌, ◌≡◌, Bool, true, false, not, ◌&&◌, ◌||◌, Option, none,
  some, List, [], ◌∷◌, ◌++◌, ltb, leb, ◌==◌, all, drop, take, get_or, length, if◌then◌else◌,
}
use meow_ny.Common.Text.{Text, utf8_len, is_digit}
use meow_ny.Common.Decimal.{show, value}
use meow_ny.Store.{Clock, Db}

pub record Stamp : Type 0 where
  pub ms : ℕ
  pub counter : ℕ
  pub device : Text

abbrev pub stamp_len : ℕ
stamp_len = 27

abbrev pub is_lower_hex : ℕ → Bool
is_lower_hex c = is_digit c || (leb b'a' c && leb c b'f')

abbrev pub hex_value : ℕ → ℕ
hex_value c = if is_digit c then c - b'0' else c - b'a' + 10

-- `u16::from_str_radix(.., 16)` of lower-case digits
unfoldable pub hex_from : ℕ → Text → ℕ
hex_from n [] = n
hex_from n (c ∷ s) = hex_from (n * 16 + hex_value c) s

abbrev pub slice : ℕ → ℕ → Text → Text
slice from count s = take count (drop from s)

unfoldable pub parse : Text → Option Stamp
unfolding hex_from
parse text =
    if not (utf8_len text == stamp_len)
      || not (get_or text 13 0 == b'-')
      || not (get_or text 18 0 == b'-')
      || not (all is_digit (take 13 text))
      || not (all is_lower_hex (slice 14 4 text))
      || not (all is_lower_hex (drop 19 text))
    then none
    else some (record {
      ms = value (take 13 text);
      counter = hex_from 0 (slice 14 4 text);
      device = drop 19 text;
    })

abbrev pub hex_digit : ℕ → ℕ
hex_digit n = if ltb n 10 then n + b'0' else n - 10 + b'a'

-- `{:04x}` of an `u16`
abbrev pub hex_4 : ℕ → Text
hex_4 n =
    hex_digit (n / 4096 % 16)
    ∷ hex_digit (n / 256 % 16)
    ∷ hex_digit (n / 16 % 16)
    ∷ hex_digit (n % 16)
    ∷ []

unfoldable pub zeros : ℕ → Text
zeros zero = []
zeros (suc n) = b'0' ∷ zeros n

-- `{:013}`
unfoldable pub pad_13 : ℕ → Text
unfolding show zeros
pad_13 n = zeros (13 - length (show n)) ++ show n

unfoldable pub format : Stamp → Text
unfolding pad_13
format s = pad_13 s.ms ++ (b'-' ∷ (hex_4 s.counter ++ (b'-' ∷ s.device)))

-- `UPDATE sync_clock SET ..` of `tick`.
unfoldable pub ticked : ℕ → Clock → Clock
ticked now clock = record clock {
  last_counter =
      if ltb clock.last_ms now
      then 0
      else if leb 65535 clock.last_counter
      then 0
      else clock.last_counter + 1;
  last_ms =
      if ltb clock.last_ms now
      then now
      else if leb 65535 clock.last_counter
      then clock.last_ms + 1
      else clock.last_ms;
}

-- The stamp that the clock gives now.
abbrev pub stamp_of : Clock → Stamp
stamp_of clock = record {
  ms = clock.last_ms;
  counter = clock.last_counter;
  device = take 8 clock.device_id;
}

unfoldable pub tick : ℕ → Db → Db × Stamp
unfolding ticked
tick now db = (record db { clock = ticked now db.clock }, stamp_of (ticked now db.clock))

-- (milliseconds, counter) is less.
abbrev pub is_behind : ℕ → ℕ → Stamp → Bool
is_behind ms counter s = ltb ms s.ms || ((s.ms == ms) && ltb counter s.counter)

unfoldable pub observed : Stamp → Clock → Clock
observed s clock =
    if is_behind clock.last_ms clock.last_counter s
    then record clock { last_ms = s.ms; last_counter = s.counter }
    else clock

unfoldable pub observe : Stamp → Db → Db
unfolding observed
observe s db = record db { clock = observed s db.clock }
