-- ===== src/Core/Routes/Validation.antt =====
-- What a route must be: `validate_route` of crates/peryx-core/src/path.rs, said of the route's segments.
use velodex.Prelude.{
  ◌==◌, nat_eq, list_eq, codes, ◌≡◌, inl, inr, refl, sym, subst, ◌∙◌, Bool, true, false, not, ◌&&◌,
  ◌||◌, Option, none, some, List, [], ◌∷◌, Str, arith, any, all, is_empty, contains, nat_eq,
  list_eq, if◌then◌else◌, Bool-cases,
}
use velodex.Prelude.Results.{Result, ok, err}
use velodex.Core.Encoding.{PathSafetyError, invalid_route, reserved_route}
use velodex.Core.Routes.{
  is_unsafe, validate_path_segment, split, split_once, reserved_route_prefixes, valid_route_segment,
  first_and_rest, check_segments, validate_route,
}
use velodex.Core.Routes.Segments.{any_empty, split-alone, split_once-none, split_once-some}

abbrev pub head_of : List Str → Str
head_of [] = []
head_of (segment ∷ segments) = segment

abbrev judge_full : Str → List Str → Result PathSafetyError (Unit {0})
judge_full route segments =
    if contains reserved_route_prefixes (head_of segments)
    then err (reserved_route route)
    else if all valid_route_segment segments
    then ok tt
    else err (invalid_route route)

-- A route by its segments: none may be empty, the first may not be reserved, and each must be valid.
abbrev pub judge : Str → List Str → Result PathSafetyError (Unit {0})
judge route segments =
    if any is_empty segments then err (invalid_route route) else judge_full route segments

any-all :
    (segments : List Str)
    → any (λ segment. not (valid_route_segment segment)) segments
      ≡ not (all valid_route_segment segments)
any-all [] = refl
any-all (s ∷ segments) = ground (arith, any-all segments)

abbrev all_right : Result PathSafetyError (Unit {0})
all_right = ok tt

-- The two orders of the tests, on their values.
same_answer :
    (route : Str) (reserved valid rest_valid : Bool)
    → (if reserved
        then err (reserved_route route)
        else if not valid || not rest_valid
        then err (invalid_route route)
        else all_right)
      ≡ (if reserved
          then err (reserved_route route)
          else if valid && rest_valid
          then all_right
          else err (invalid_route route))
same_answer route true valid rest_valid = refl
same_answer route false true true = refl
same_answer route false true false = refl
same_answer route false false rest_valid = refl

judge_one : (route first : Str) → check_segments route (first, none) ≡ judge_full route (first ∷ [])
judge_one route first =
    same_answer route (contains reserved_route_prefixes first) (valid_route_segment first) true

judge_more :
    (route first rest : Str)
    → check_segments route (first, some rest) ≡ judge_full route (first ∷ split b'/' rest)
judge_more route first rest = rw (any-all (split b'/' rest)) (
    same_answer route (contains reserved_route_prefixes first) (valid_route_segment first)
      (all valid_route_segment (split b'/' rest)))

judge_parts :
    (route : Str) (parts : Option (Str × Str))
    → split_once b'/' route ≡ parts
    → check_segments route (first_and_rest route parts) ≡ judge_full route (split b'/' route)
judge_parts route none e =
    subst (λ segments. check_segments route (route, none) ≡ judge_full route segments)
      (sym (split_once-none b'/' route e)) (judge_one route route)
judge_parts route (some (first, rest)) e =
    subst (λ segments. check_segments route (first, some rest) ≡ judge_full route segments)
      (sym (split_once-some b'/' route first rest e)) (judge_more route first rest)

-- The check of a route gives the answer, for every route and on every branch, that its segments
-- between slashes give: it is invalid if one is empty, else reserved if the first is a name of peryx
-- itself, else valid exactly if each segment is.
pub validate_route-judge : (route : Str) → validate_route route ≡ judge route (split b'/' route)
unfolding validate_route
validate_route-judge route = elim (Bool-cases (any is_empty (split b'/' route))) [
  | inl bad ↦ rw (bad, sym (any_empty b'/' route) ∙ bad) refl
  | inr good ↦
      rw (good, sym (any_empty b'/' route) ∙ good) (judge_parts route (split_once b'/' route) refl)
]

-- A path parameter that passes the check is one segment, which is not empty and leads nowhere else.
pub validate_path_segment-split :
    (kind value : Str)
    → validate_path_segment kind value ≡ ok tt
    → (split b'/' value ≡ value ∷ [])
      × (is_empty value ≡ false)
      × ((value == codes ".") ≡ false)
      × ((value == codes "..") ≡ false)
unfolding validate_path_segment
validate_path_segment-split kind value h = elim (Bool-cases (is_unsafe value)) [
  | inl bad ↦ let h' = rw bad at h in cc
  | inr good ↦
      let (filled, good') = neither _ _ good in
      let (not_dot, good'') = neither _ _ good' in
      let (not_dots, good3) = neither _ _ good'' in
      let (no_slash, rest) = neither _ _ good3 in
      (split-alone b'/' value no_slash, filled, not_dot, not_dots)
]
  where
    neither : (p q : Bool) → (p || q) ≡ false → (p ≡ false) × (q ≡ false)
    neither false q h = (refl, h)
    neither true q h = cc
