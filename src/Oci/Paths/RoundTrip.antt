-- ===== src/Oci/Paths/RoundTrip.antt =====
-- The classification of a request's path (`classify` of
-- crates/peryx-ecosystem-oci/src/name.rs).
use velodex.Prelude.{
  ◌+◌, ◌-◌, ◌≤◌, ◌≡◌, inl, inr, refl, sym, ap, subst, ◌∙◌, Bool, true, false, not, ◌||◌, some, List,
  [], ◌∷◌, ◌++◌, Str, codes, arith, any, all, is_empty, length, take, contains, ◌==◌, nat_eq,
  list_eq, list_beq_iff, if◌then◌else◌, Bool-cases,
}
use velodex.Core.Routes.{split, begins_with, ends_with, contains_twice}
use velodex.Core.Routes.Segments.{any_empty, split-alone}
use velodex.Oci.Names.{join}
use velodex.Oci.Paths.{OciRoute, catalog, strip_slash, classify, classify_segments}
use velodex.Oci.Paths.Ends.{length_end, take_prefix}
use velodex.Oci.Paths.Requests.{
  Request, at_manifest, at_blob, at_contents, at_tags, at_referrers, at_upload_start, at_session,
}
use velodex.Oci.Paths.Reading.{Request→classify}

abbrev pub no_slash : Str → Bool
no_slash segment = not (contains segment b'/')

split_segment :
    (s rest : Str) → contains s b'/' ≡ false → split b'/' (s ++ (b'/' ∷ rest)) ≡ s ∷ split b'/' rest
split_segment [] rest h = refl
split_segment (x ∷ s) rest h =
    let r = split_segment s rest (ground (arith, h)) in ground (arith, h, r)

pub split-join :
    (first : Str) (segments : List Str)
    → all no_slash (first ∷ segments) ≡ true
    → split b'/' (join (first ∷ segments)) ≡ first ∷ segments
split-join first [] h = split-alone b'/' first (ground (arith, h))
split-join first (next ∷ segments) h =
    split_segment first (join (next ∷ segments)) (ground (arith, h))
    ∙ ap (λ rest. first ∷ rest) (split-join next segments (ground (arith, h)))

slash_at_end : (text : Str) → ends_with b'/' (text ++ codes "/") ≡ true
slash_at_end [] = refl
slash_at_end (x ∷ []) = refl
slash_at_end (x ∷ y ∷ text) = slash_at_end (y ∷ text)

strip_slash-slash : (text : Str) → strip_slash (text ++ codes "/") ≡ text
strip_slash-slash text =
    rw (slash_at_end text)
      (ap (λ n. take n (text ++ codes "/")) shorter ∙ take_prefix text (codes "/"))
  where
    longer : (xs : Str) → length (xs ++ codes "/") ≡ length xs + 1
    longer [] = omega arith
    longer (x ∷ xs) = omega (arith, longer xs)

    shorter : length (text ++ codes "/") - 1 ≡ length text
    shorter = omega (arith, longer text)

Request-long :
    {route : OciRoute} {segments : List Str} → Request route segments → 2 ≤ length segments
Request-long (at_manifest components tail n r c) =
    omega (arith, length_end components (codes "manifests" ∷ tail ∷ []))
Request-long (at_blob components tail n d) =
    omega (arith, length_end components (codes "blobs" ∷ tail ∷ []))
Request-long (at_contents components middle n d) =
    omega (arith, length_end components (codes "blobs" ∷ middle ∷ codes "contents" ∷ []))
Request-long (at_tags components n) =
    omega (arith, length_end components (codes "tags" ∷ codes "list" ∷ []))
Request-long (at_referrers components {tail = tail} n c) =
    omega (arith, length_end components (codes "referrers" ∷ tail ∷ []))
Request-long (at_upload_start components n) =
    omega (arith, length_end components (codes "blobs" ∷ codes "uploads" ∷ []))
Request-long (at_session components {session = session} n) =
    omega (arith, length_end components (codes "blobs" ∷ codes "uploads" ∷ session ∷ []))

module _ {route : OciRoute} (first : Str) (segments : List Str)
    (request : Request route (first ∷ segments)) (filled : any is_empty (first ∷ segments) ≡ false)
    (plain : all no_slash (first ∷ segments) ≡ true) where
  text : Str
  text = join (first ∷ segments)

  parts : split b'/' text ≡ first ∷ segments
  unfolding text
  parts = split-join first segments plain

  no_slash_left : ends_with b'/' text ≡ false
  no_slash_left =
      let e = sym (any_empty b'/' text) ∙ ap (any is_empty) parts ∙ filled in
      last_false (is_empty text) (begins_with b'/' text) (ends_with b'/' text)
        (contains_twice b'/' text) e
    where
      last_false : (p q r s : Bool) → (p || (q || (r || s))) ≡ false → r ≡ false
      last_false p q r s h = ground (arith, h)

  not_catalog : (text == codes "_catalog") ≡ false
  not_catalog = elim (Bool-cases (text == codes "_catalog")) [
    | inr other ↦ other
    | inl same ↦
        let e : codes "_catalog" ∷ [] ≡ first ∷ segments =
          sym (ap (split b'/') ((list_beq_iff text (codes "_catalog")).0 same)) ∙ parts in
        absurd (omega (arith, ap length e, Request-long request))
  ]

  read : (rest : Str) → strip_slash rest ≡ text → classify (codes "/v2/" ++ rest) ≡ some route
  unfolding classify
  read rest e =
      subst
        (λ x.
          (if x == codes "_catalog" then some catalog else classify_segments (split b'/' x))
          ≡ some route)
        (sym e) (rw not_catalog (ap classify_segments parts ∙ Request→classify request filled))

  -- The path of a request is classified as the request, with a slash at its end or without, if its
  -- segments are not empty and have no slash. Not among the requests are those for a manifest or for
  -- referrers that end in `contents` in a repository whose last component is `blobs`.
  pub classify-join :
      (classify (codes "/v2/" ++ join (first ∷ segments)) ≡ some route)
      × (classify (codes "/v2/" ++ (join (first ∷ segments) ++ codes "/")) ≡ some route)
  unfolding text
  classify-join =
      (read text (rw no_slash_left refl), read (text ++ codes "/") (strip_slash-slash text))
