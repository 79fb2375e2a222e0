-- ===== src/Oci/Paths.antt =====
-- The classification of request paths (`classify` of crates/peryx-ecosystem-oci/src/name.rs).
pub mod Ends
pub mod Requests
pub mod Reading
pub mod RoundTrip
use velodex.Prelude.{
  ℕ, ◌-◌, Bool, true, false, not, ◌&&◌, ◌||◌, Option, none, some, and_then, List, [], ◌∷◌, ◌++◌,
  Str, codes, any, is_empty, length, leb, ltb, take, get_or, get_elem?, ◌==◌, nat_eq, list_eq,
  if◌then◌else◌,
}
use velodex.Core.Routes.{split, ends_with, strip_prefix}
use velodex.Oci.Names.{Reference, join_name, parse_digest, parse_reference}

pub data OciRoute : Type 0 where
  catalog : OciRoute
  manifest : Str → Reference → OciRoute
  blob blob_contents : Str → Str → OciRoute
  tags_list : Str → OciRoute
  referrers : Str → Str → OciRoute
  upload_start : Str → OciRoute
  upload_session : Str → Str → OciRoute

-- `segments[len - k]`, which is in range where it is taken, and `segments[..len - k]`
abbrev pub from_end : ℕ → List Str → Str
from_end k segments = get_or [] (get_elem? segments (length segments - k))

abbrev pub before_end : ℕ → List Str → List Str
before_end k segments = take (length segments - k) segments

abbrev pub third_is_blobs : List Str → Bool
third_is_blobs segments = leb 3 (length segments) && (from_end 3 segments == codes "blobs")

-- The `match` on the verb, with its guards
abbrev pub classify_verb : List Str → Str → Str → Option OciRoute
classify_verb components verb tail =
    if (verb == codes "blobs") && (tail == codes "uploads")
    then and_then (join_name components) (λ name. some (upload_start name))
    else if verb == codes "manifests"
    then and_then (join_name components)
        (λ name. and_then (parse_reference tail) (λ reference. some (manifest name reference)))
    else if verb == codes "blobs"
    then and_then (join_name components)
        (λ name. and_then (parse_digest tail) (λ digest. some (blob name digest)))
    else if (verb == codes "tags") && (tail == codes "list")
    then and_then (join_name components) (λ name. some (tags_list name))
    else if verb == codes "referrers"
    then and_then (join_name components) (λ name. some (referrers name tail))
    else none

-- What stands at the end decides; `front3` and `front2` are the segments before the last three and two.
abbrev pub classify_ends : Bool → Str → Str → List Str → List Str → Option OciRoute
classify_ends third verb tail front3 front2 =
    if third && (verb == codes "uploads")
    then and_then (join_name front3) (λ name. some (upload_session name tail))
    else if third && (tail == codes "contents")
    then and_then (join_name front3)
        (λ name. and_then (parse_digest verb) (λ digest. some (blob_contents name digest)))
    else classify_verb front2 verb tail

unfoldable pub classify_segments : List Str → Option OciRoute
classify_segments segments =
    if any is_empty segments
    then none
    else if ltb (length segments) 2
    then none
    else classify_ends (third_is_blobs segments) (from_end 2 segments) (from_end 1 segments)
        (before_end 3 segments) (before_end 2 segments)

-- `strip_suffix('/')`, or the text as it is
abbrev pub strip_slash : Str → Str
strip_slash text = if ends_with b'/' text then take (length text - 1) text else text

unfoldable pub classify : Str → Option OciRoute
unfolding classify_segments
classify path = and_then (strip_prefix (codes "/v2/") path) (λ rest.
    let rest' = strip_slash rest in
    if rest' == codes "_catalog" then some catalog else classify_segments (split b'/' rest'))
