-- ===== src/Oci/Paths/Requests.antt =====
-- The requests that a path can be, by its segments, and the classification of segments against them
-- (`classify` of crates/peryx-ecosystem-oci/src/name.rs).
use velodex.Prelude.{
  ◌≡◌, inl, inr, refl, sym, ap, ◌∙◌, Bool, true, false, ◌&&◌, some, List, [], ◌∷◌, ◌++◌, Str, codes,
  arith, any, is_empty, length, leb, ltb, ◌==◌, nat_eq, list_eq, ltb→lt, Bool-cases,
}
use velodex.Oci.Names.{Reference, join_name, parse_digest, parse_reference}
use velodex.Oci.Paths.{
  OciRoute, manifest, blob, blob_contents, tags_list, referrers, upload_start, upload_session,
  from_end, before_end, third_is_blobs, classify_ends, classify_segments,
}
use velodex.Oci.Paths.Ends.{length_end, before_end_prefix, from_end_behind, from_end_before}

-- A repository `…/blobs` and a tail `contents` are the form of a request for the contents of a blob.
abbrev pub looks_like_contents : List Str → Str → Bool
looks_like_contents components tail =
    (ltb 0 (length components) && (from_end 1 components == codes "blobs"))
    && (tail == codes "contents")

-- What each request looks like: the components of the name, and what the request has behind it.
pub data Request : OciRoute → List Str → Type 0 where
  at_manifest :
      (components : List Str) (tail : Str) {name : Str} {reference : Reference}
      → join_name components ≡ some name
      → parse_reference tail ≡ some reference
      → looks_like_contents components tail ≡ false
      → Request (manifest name reference) (components ++ (codes "manifests" ∷ tail ∷ []))
  at_blob :
      (components : List Str) (tail : Str) {name digest : Str}
      → join_name components ≡ some name
      → parse_digest tail ≡ some digest
      → Request (blob name digest) (components ++ (codes "blobs" ∷ tail ∷ []))
  at_contents :
      (components : List Str) (middle : Str) {name digest : Str}
      → join_name components ≡ some name
      → parse_digest middle ≡ some digest
      → Request
          (blob_contents name digest)
          (components ++ (codes "blobs" ∷ middle ∷ codes "contents" ∷ []))
  at_tags :
      (components : List Str) {name : Str}
      → join_name components ≡ some name
      → Request (tags_list name) (components ++ (codes "tags" ∷ codes "list" ∷ []))
  at_referrers :
      (components : List Str) {name tail : Str}
      → join_name components ≡ some name
      → looks_like_contents components tail ≡ false
      → Request (referrers name tail) (components ++ (codes "referrers" ∷ tail ∷ []))
  at_upload_start :
      (components : List Str) {name : Str}
      → join_name components ≡ some name
      → Request (upload_start name) (components ++ (codes "blobs" ∷ codes "uploads" ∷ []))
  at_session :
      (components : List Str) {name session : Str}
      → join_name components ≡ some name
      → Request
          (upload_session name session)
          (components ++ (codes "blobs" ∷ codes "uploads" ∷ session ∷ []))

module _ (components : List Str) where
  pub third_of_two :
      (verb tail : Str)
      → third_is_blobs (components ++ (verb ∷ tail ∷ []))
        ≡ (ltb 0 (length components) && (from_end 1 components == codes "blobs"))
  third_of_two verb tail = elim (Bool-cases (ltb 0 (length components))) [
    | inl some_left ↦ λ i.
        same i
        && (from_end_before 2 components end (ltb→lt 0 (length components) some_left) refl i
            == codes "blobs")
    | inr none_left ↦
        ap (λ x. x && (from_end 3 (components ++ end) == codes "blobs")) (same ∙ none_left)
        ∙ sym (ap (λ x. x && (from_end 1 components == codes "blobs")) none_left)
  ]
    where
      end : List Str
      end = verb ∷ tail ∷ []

      same : leb 3 (length (components ++ end)) ≡ ltb 0 (length components)
      same = let l = length_end components end in ground (arith, l)

  pub two_ends :
      (verb tail : Str)
      → any is_empty (components ++ (verb ∷ tail ∷ [])) ≡ false
      → (rest : List Str) × (classify_segments (components ++ (verb ∷ tail ∷ []))
          ≡ classify_ends
              (ltb 0 (length components) && (from_end 1 components == codes "blobs"))
              verb
              tail
              rest
              components)
  unfolding classify_segments
  two_ends verb tail filled =
      let segments = components ++ (verb ∷ tail ∷ []) in
      let long : ltb (length segments) 2 ≡ false =
        let l = length_end components (verb ∷ tail ∷ []) in ground (arith, l) in
      (
        before_end 3 segments,
        rw (filled, long)
            (λ i.
              classify_ends (third_of_two verb tail i)
                (from_end_behind 2 0 components (verb ∷ tail ∷ []) refl (omega arith) i)
                (from_end_behind 1 1 components (verb ∷ tail ∷ []) refl (omega arith) i)
                (before_end 3 segments) (before_end_prefix 2 components (verb ∷ tail ∷ []) refl i)),
      )

  pub three_ends :
      (middle tail : Str)
      → any is_empty (components ++ (codes "blobs" ∷ middle ∷ tail ∷ [])) ≡ false
      → (rest : List Str) × (classify_segments (components ++ (codes "blobs" ∷ middle ∷ tail ∷ []))
          ≡ classify_ends true middle tail components rest)
  unfolding classify_segments
  three_ends middle tail filled =
      let end = codes "blobs" ∷ middle ∷ tail ∷ [] in
      let segments = components ++ end in
      let l = length_end components end in
      let long : ltb (length segments) 2 ≡ false = ground (arith, l) in
      let three : leb 3 (length segments) ≡ true = ground (arith, l) in
      let third : third_is_blobs segments ≡ true =
        rw (three, from_end_behind 3 0 components end refl (omega arith)) refl in
      (
        before_end 2 segments,
        rw (filled, long)
            (λ i.
              classify_ends (third i) (from_end_behind 2 1 components end refl (omega arith) i)
                (from_end_behind 1 2 components end refl (omega arith) i)
                (before_end_prefix 3 components end refl i) (before_end 2 segments)),
      )
