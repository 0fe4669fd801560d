-- ===== src/Sync/Hello/Agreed.antt =====
-- When two devices go on after their greetings.
use meow_ny.Common.{ℕ, ◌≤◌, ◌≡◌, ◌≢◌, ◌↔◌, refl, sym, some, List, arith, Option-cases, inl, inr}
use meow_ny.Common.Text.{text_eq_iff}
use meow_ny.Stamp.{Stamp, parse}
use meow_ny.Sync.{gives}
use meow_ny.Sync.Hello.{Hello, Warning, max_clock_lead_ms, abs_diff, warnings_of, check_hello}

-- What makes the other device one to sync with.
pub record Fits (mine theirs : Hello) (now_ms : ℕ) (warnings : List Warning) : Type 0 where
  pub protocol : theirs.protocol ≡ mine.protocol
  pub schema : theirs.schema ≡ mine.schema
  pub device : theirs.device_id ≢ mine.device_id
  pub time : Stamp
  pub clock : parse theirs.clock ≡ some time
  pub near : abs_diff time.ms now_ms ≤ max_clock_lead_ms
  pub currency : theirs.generation ≡ mine.generation → theirs.currency ≡ mine.currency
  pub warned : warnings ≡ warnings_of (abs_diff time.ms now_ms)

check_hello-Fits :
    (mine theirs : Hello) (now_ms : ℕ) (warnings : List Warning)
    → check_hello mine theirs now_ms ≡ gives warnings
    → Fits mine theirs now_ms warnings
unfolding check_hello
check_hello-Fits mine theirs now_ms warnings h = elim (Option-cases (parse theirs.clock)) [
  | inl e ↦ absurd (ground arith)
  | inr (s, e) ↦ record {
    protocol = ground arith;
    schema = ground arith;
    device = λ same. ground (arith, text_eq_iff theirs.device_id mine.device_id);
    time = s;
    clock = e;
    near = ground arith;
    currency = λ same. ground (arith, text_eq_iff theirs.currency mine.currency);
    warned = ground arith;
  }
]

Fits-check_hello :
    (mine theirs : Hello) (now_ms : ℕ) (warnings : List Warning)
    → Fits mine theirs now_ms warnings
    → check_hello mine theirs now_ms ≡ gives warnings
unfolding check_hello
Fits-check_hello mine theirs now_ms warnings f =
    ground (
      arith,
      text_eq_iff theirs.device_id mine.device_id,
      text_eq_iff theirs.currency mine.currency,
    )

-- A greeting is accepted, with the warnings of its clock, exactly when the other device speaks the
-- same version over the same tables, is another device, has a clock that can be read and is within a
-- day of this one, and names the same currency if it has changed it as often.
pub check_hello_iff :
    (mine theirs : Hello) (now_ms : ℕ) (warnings : List Warning)
    → (check_hello mine theirs now_ms ≡ gives warnings) ↔ Fits mine theirs now_ms warnings
check_hello_iff mine theirs now_ms warnings =
    (check_hello-Fits mine theirs now_ms warnings, Fits-check_hello mine theirs now_ms warnings)

-- A device whose greeting is accepted accepts the other's in turn, if the clock of the other can be
-- read and is within a day of its own time.
pub check_hello_back :
    (mine theirs : Hello) (my_now their_now : ℕ) (warnings : List Warning) (time : Stamp)
    → check_hello mine theirs my_now ≡ gives warnings
    → parse mine.clock ≡ some time
    → abs_diff time.ms their_now ≤ max_clock_lead_ms
    → check_hello theirs mine their_now ≡ gives (warnings_of (abs_diff time.ms their_now))
check_hello_back mine theirs my_now their_now warnings time accepted read near =
    let f = check_hello-Fits mine theirs my_now warnings accepted in
    Fits-check_hello theirs mine their_now (warnings_of (abs_diff time.ms their_now)) (record {
      protocol = sym f.protocol;
      schema = sym f.schema;
      device = λ same. f.device (sym same);
      time = time;
      clock = read;
      near = near;
      currency = λ same. sym (f.currency (sym same));
      warned = refl;
    })
