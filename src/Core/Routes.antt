-- ===== src/Core/Routes.antt =====
-- The checks of routes and the file URLs of crates/peryx-core/src/path.rs, and what they use of `str`.
pub mod Segments
pub mod Validation
pub mod FileUrls
use velodex.Prelude.{
  ltb, ℕ, Bool, true, false, not, ◌&&◌, ◌||◌, Option, none, some, List, [], ◌∷◌, ◌++◌, Str, codes,
  any, all, is_empty, is_some, is_some_and, get_or, contains, ◌==◌, nat_eq, list_eq, if◌then◌else◌,
}
use velodex.Prelude.Results.{Result, ok, err}
use velodex.Core.Encoding.{
  is_unreserved, push_component, push_path, PathSafetyError, decode_percent, is_within,
  invalid_filename, invalid_path_segment, invalid_route, reserved_route,
}

-- `str::split` at a byte: the text before the first one, and those between and behind the others.
abbrev pub first_part : ℕ → Str → Str
first_part c [] = []
first_part c (x ∷ text) = let rest = first_part c text in if x == c then [] else x ∷ rest

abbrev pub later_parts : ℕ → Str → List Str
later_parts c [] = []
later_parts c (x ∷ text) =
    let rest = later_parts c text in if x == c then first_part c text ∷ rest else rest

abbrev pub split : ℕ → Str → List Str
split c text = first_part c text ∷ later_parts c text

-- `str::split_once`
abbrev pub in_front : ℕ → Option (Str × Str) → Option (Str × Str)
in_front x none = none
in_front x (some (before, after)) = some (x ∷ before, after)

abbrev pub split_once : ℕ → Str → Option (Str × Str)
split_once c [] = none
split_once c (x ∷ text) =
    let rest = in_front x (split_once c text) in if x == c then some ([], text) else rest

-- `str::starts_with` and `str::ends_with` of a byte, `str::contains` of a doubled one
abbrev pub begins_with : ℕ → Str → Bool
begins_with c [] = false
begins_with c (x ∷ text) = x == c

abbrev pub ends_with : ℕ → Str → Bool
ends_with c [] = false
ends_with c (x ∷ []) = x == c
ends_with c (x ∷ y ∷ text) = ends_with c (y ∷ text)

abbrev pub contains_twice : ℕ → Str → Bool
contains_twice c [] = false
contains_twice c (x ∷ []) = false
contains_twice c (x ∷ y ∷ text) = ((x == c) && (y == c)) || contains_twice c (y ∷ text)

-- `str::strip_prefix`, by which `str::starts_with` of a text is tested
abbrev pub strip_prefix : Str → Str → Option Str
strip_prefix [] text = some text
strip_prefix (c ∷ prefix) [] = none
strip_prefix (c ∷ prefix) (x ∷ text) =
    let rest = strip_prefix prefix text in if x == c then rest else none

abbrev pub reserved_route_prefixes : List Str
reserved_route_prefixes =
    codes "+stats"
    ∷ codes "+status"
    ∷ codes "admin"
    ∷ codes "api-docs"
    ∷ codes "browse"
    ∷ codes "metrics"
    ∷ codes "pkg"
    ∷ codes "stats"
    ∷ []

-- The bytes that are let through are the unreserved ones.
abbrev pub valid_route_segment : Str → Bool
valid_route_segment segment =
    not (is_empty segment)
    && (not (segment == codes ".") && (not (segment == codes "..") && all is_unreserved segment))

-- `split_once('/')` with `map_or((route, None), …)`
abbrev pub first_and_rest : Str → Option (Str × Str) → Str × Option Str
first_and_rest route none = (route, none)
first_and_rest route (some (first, rest)) = (first, some rest)

-- The second half of `validate_route`, on the first segment and the rest.
abbrev pub check_segments : Str → Str × Option Str → Result PathSafetyError (Unit {0})
check_segments route (first, rest) =
    if contains reserved_route_prefixes first
    then err (reserved_route route)
    else if not (valid_route_segment first)
        || is_some_and
            (λ rest. any (λ segment. not (valid_route_segment segment)) (split b'/' rest)) rest
    then err (invalid_route route)
    else ok tt

unfoldable pub validate_route : Str → Result PathSafetyError (Unit {0})
validate_route route =
    if is_empty route
      || (begins_with b'/' route || (ends_with b'/' route || contains_twice b'/' route))
    then err (invalid_route route)
    else check_segments route (first_and_rest route (split_once b'/' route))

unfoldable pub local_file_url : Str → Str → Str → Str
unfolding push_component push_path
local_file_url route sha256 filename =
    push_component ((push_path (codes "/") route ++ codes "/files/") ++ (sha256 ++ codes "/"))
      filename

unfoldable pub is_local_file_url : Str → Str → Bool
unfolding push_path
is_local_file_url route url =
    is_some (strip_prefix (push_path (codes "/") route ++ codes "/files/") url)

-- `decode_path_segment` and `decode_path`
unfoldable pub decode_path_segment : (Str → Bool) → Str → Result PathSafetyError Str
unfolding decode_percent
decode_path_segment is_utf8 segment = decode_percent is_utf8 segment

unfoldable pub decode_path : (Str → Bool) → Str → Result PathSafetyError Str
unfolding decode_percent
decode_path is_utf8 path = decode_percent is_utf8 path

-- `chars().any(char::is_control)` on the bytes of UTF-8: below the space, DEL, and U+0080 to U+009F,
-- which are 0xC2 and a byte from 0x80 to 0x9F.
abbrev pub second_of_control : Str → Bool
second_of_control [] = false
second_of_control (byte ∷ text) = is_within 128 159 byte

abbrev pub has_control : Str → Bool
has_control [] = false
has_control (byte ∷ text) =
    (ltb byte 32 || ((byte == 127) || ((byte == 194) && second_of_control text)))
    || has_control text

-- The condition that `validate_filename` and `validate_path_segment` share
abbrev pub is_unsafe : Str → Bool
is_unsafe text =
    is_empty text
    || ((text == codes ".")
        || ((text == codes "..")
            || (contains text b'/' || (contains text b'\\' || has_control text))))

unfoldable pub validate_filename : Str → Result PathSafetyError (Unit {0})
validate_filename filename = if is_unsafe filename then err (invalid_filename filename) else ok tt

unfoldable pub validate_path_segment : Str → Str → Result PathSafetyError (Unit {0})
validate_path_segment kind value =
    if is_unsafe value then err (invalid_path_segment kind value) else ok tt
