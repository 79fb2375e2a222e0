-- ===== src/Core/Examples.antt =====
-- Runs of the encoder, the decoder and the checks of paths.
use velodex.Prelude.{◌≡◌, ◌↔◌, refl, Bool, true, some, [], Str, codes, all, ltb, arith}
use velodex.Prelude.Results.{ok, err}
use velodex.Core.Encoding.{
  push_component, push_path, decode_percent, invalid_encoding, reserved_route,
}
use velodex.Core.Encoding.Decoding.{Decodes, decode_percent_iff}
use velodex.Core.Encoding.RoundTrip.{decode_percent-push}
use velodex.Core.Routes.{
  split, split_once, strip_prefix, validate_route, local_file_url, is_local_file_url,
}
use velodex.Core.Routes.Validation.{judge, validate_route-judge}
use velodex.Core.Routes.FileUrls.{file_prefix, local_file_url-parts}

-- A test for UTF-8 that knows ASCII only.
abbrev is_ascii : Str → Bool
is_ascii text = all (λ byte. ltb byte 128) text

decode_percent_iff_example :
    (decode_percent is_ascii (codes "pkg%201.0%23x") ≡ ok (codes "pkg 1.0#x"))
    ↔ (Decodes (codes "pkg%201.0%23x") (codes "pkg 1.0#x") × (is_ascii (codes "pkg 1.0#x") ≡ true))
decode_percent_iff_example =
    decode_percent_iff is_ascii (codes "pkg%201.0%23x") (codes "pkg 1.0#x") refl

decode_percent-push_example :
    (decode_percent is_ascii (push_component [] (codes "a b/c")) ≡ ok (codes "a b/c"))
    × (decode_percent is_ascii (push_path [] (codes "a b/c")) ≡ ok (codes "a b/c"))
unfolding push_component push_path
decode_percent-push_example =
    decode_percent-push is_ascii (codes "a b/c")
      (omega arith, (omega arith, (omega arith, (omega arith, (omega arith, tt))))) refl refl refl

broken_escape : decode_percent is_ascii (codes "pkg%xx") ≡ err (invalid_encoding (codes "pkg%xx"))
unfolding decode_percent
broken_escape = refl

admin_reserved : validate_route (codes "admin/x") ≡ err (reserved_route (codes "admin/x"))
unfolding validate_route
admin_reserved = refl

validate_route-judge_example :
    validate_route (codes "root/pypi") ≡ judge (codes "root/pypi") (split b'/' (codes "root/pypi"))
validate_route-judge_example = validate_route-judge (codes "root/pypi")

local_file_url-parts_example :
    (is_local_file_url (codes "root") (local_file_url (codes "root") (codes "aa") (codes "x y"))
      ≡ true)
    × (rest : Str) × (strip_prefix
          (file_prefix (codes "root"))
          (local_file_url (codes "root") (codes "aa") (codes "x y"))
        ≡ some rest)
    × (split_once b'/' rest ≡ some (codes "aa", push_component [] (codes "x y")))
local_file_url-parts_example =
    local_file_url-parts (codes "root") (codes "aa") (codes "x y")
      ((λ e. omega arith), ((λ e. omega arith), tt))
