-- ===== src/Oci/Examples.antt =====
-- Runs of the checks of names and of the classification of paths.
use velodex.Prelude.{◌≡◌, ◌↔◌, refl, true, false, some, none, List, [], ◌∷◌, ◌++◌, Str, codes}
use velodex.Oci.Names.{tag, valid_name_component, join, join_name, parse_digest, parse_reference}
use velodex.Oci.Names.Components.{NameComponent, valid_name_component_iff}
use velodex.Oci.Paths.{OciRoute, manifest, classify, classify_segments}
use velodex.Oci.Paths.Requests.{Request, at_manifest}
use velodex.Oci.Paths.Reading.{classify_segments_iff}
use velodex.Oci.Paths.RoundTrip.{classify-join}

valid_name_component_iff_example :
    (valid_name_component (codes "a__b-c") ≡ true) ↔ NameComponent (codes "a__b-c")
valid_name_component_iff_example = valid_name_component_iff (codes "a__b-c")

mixed_separator : valid_name_component (codes "a._b") ≡ false
unfolding valid_name_component
mixed_separator = refl

abbrev pull : OciRoute
pull = manifest (codes "team/app") (tag (codes "v1"))

abbrev pull_segments : List Str
pull_segments = codes "team" ∷ codes "app" ∷ codes "manifests" ∷ codes "v1" ∷ []

pull-Request : Request pull pull_segments
unfolding join_name parse_reference
pull-Request = at_manifest (codes "team" ∷ codes "app" ∷ []) (codes "v1") refl refl refl

classify-join_example :
    (classify (codes "/v2/" ++ join pull_segments) ≡ some pull)
    × (classify (codes "/v2/" ++ (join pull_segments ++ codes "/")) ≡ some pull)
classify-join_example =
    classify-join (codes "team") (codes "app" ∷ codes "manifests" ∷ codes "v1" ∷ []) pull-Request
      refl refl

classify_segments_iff_example :
    (classify_segments pull_segments ≡ some pull) ↔ Request pull pull_segments
classify_segments_iff_example = classify_segments_iff pull pull_segments refl

-- A tag `contents` is out of reach in a repository whose last component is `blobs`.
shadowed_pull : classify (codes "/v2/team/blobs/manifests/contents") ≡ none
unfolding classify join_name parse_digest
shadowed_pull = refl
