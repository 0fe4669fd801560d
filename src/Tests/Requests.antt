-- ===== src/Tests/Requests.antt =====
-- A request to the local API.
use meow_ny.Common.{◌≡◌, refl, [], ◌∷◌, ◌++◌}
use meow_ny.Common.Text.{Text}
use meow_ny.Sync.{codes, gives}
use meow_ny.Api.Http.{Request, is_single, parse_head}
use meow_ny.Api.Http.Form.{IsStrict}
use meow_ny.Api.Http.Strict.{parse_head-IsStrict}
use meow_ny.Api.Http.Printed.{head_of, parse_head-head_of}

abbrev request : Request
request = record {
  method = codes "POST";
  target = codes "/v1/add";
  headers = (codes "host", codes "127.0.0.1") ∷ (codes "content-length", codes "12") ∷ [];
  body = [];
}

abbrev new_line : Text
new_line = 0xd ∷ 0xa ∷ []

abbrev head : Text
head =
    codes "POST /v1/add HTTP/1.1"
    ++ new_line
    ++ codes "Host: 127.0.0.1"
    ++ new_line
    ++ codes "Content-Length: 12"

is_read : parse_head head ≡ gives request
unfolding parse_head is_single
is_read = refl

parse_head-IsStrict_example : IsStrict request
parse_head-IsStrict_example = parse_head-IsStrict head request is_read

is_strict : IsStrict request
is_strict = parse_head-IsStrict head request is_read

parse_head-head_of_example : parse_head (head_of request) ≡ gives request
parse_head-head_of_example = parse_head-head_of request is_strict
