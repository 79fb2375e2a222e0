-- ===== src/Oci/Paths/Reading.antt =====
-- The classification of the segments of a request
-- (`classify` of crates/peryx-ecosystem-oci/src/name.rs).
use velodex.Prelude.{
  ◌≤◌, ◌≡◌, ◌↔◌, inl, inr, refl, sym, ap, subst, ◌∙◌, Bool, true, false, ◌&&◌, Option, none, some,
  and_then, List, [], ◌∷◌, ◌++◌, Str, codes, arith, any, is_empty, length, leb, ltb, ◌==◌, nat_eq,
  list_eq, list_beq_iff, Bool-cases,
}
use velodex.Oci.Names.{join_name, parse_digest, parse_reference}
use velodex.Oci.Paths.{
  OciRoute, blob_contents, upload_session, from_end, before_end, third_is_blobs, classify_verb,
  classify_ends, classify_segments,
}
use velodex.Oci.Paths.Ends.{ends_in_two, ends_in_three}
use velodex.Oci.Paths.Requests.{
  looks_like_contents, Request, at_manifest, at_blob, at_contents, at_tags, at_referrers,
  at_upload_start, at_session, two_ends, three_ends, third_of_two,
}

by_verb :
    (third : Bool) (verb tail : Str) (rest components : List Str)
    → (verb == codes "uploads") ≡ false
    → (third && (tail == codes "contents")) ≡ false
    → classify_ends third verb tail rest components ≡ classify_verb components verb tail
by_verb false verb tail rest components e clear = refl
by_verb true verb tail rest components e clear = rw (e, clear) refl

and_false : (b c : Bool) → c ≡ false → (b && c) ≡ false
and_false true c h = h
and_false false c h = refl

-- No word is a digest.
no_digest :
    (tail word digest : Str)
    → parse_digest word ≡ none
    → parse_digest tail ≡ some digest
    → (tail == word) ≡ false
no_digest tail word digest e h = elim (Bool-cases (tail == word)) [
  | inr other ↦ other
  | inl same ↦
      let h' : parse_digest word ≡ some digest =
        subst (λ x. parse_digest x ≡ some digest) ((list_beq_iff tail word).0 same) h in
      cc
]

contents_none : parse_digest (codes "contents") ≡ none
unfolding parse_digest
contents_none = refl

uploads_none : parse_digest (codes "uploads") ≡ none
unfolding parse_digest
uploads_none = refl

pub Request→classify :
    {route : OciRoute} {segments : List Str}
    → Request route segments
    → any is_empty segments ≡ false
    → classify_segments segments ≡ some route
Request→classify (at_manifest components tail named referred clear) filled =
    let (rest, e) = two_ends components (codes "manifests") tail filled in
    e ∙ by_verb _ (codes "manifests") tail rest components refl clear ∙ rw (named, referred) refl
Request→classify (at_blob components tail {digest = digest} named digested) filled =
    let (rest, e) = two_ends components (codes "blobs") tail filled in
    let no_contents = no_digest tail (codes "contents") digest contents_none digested in
    let no_uploads = no_digest tail (codes "uploads") digest uploads_none digested in
    e
    ∙ by_verb _ (codes "blobs") tail rest components refl (and_false _ _ no_contents)
    ∙ rw (no_uploads, named, digested) refl
Request→classify (at_contents components middle {digest = digest} named digested) filled =
    let (rest, e) = three_ends components middle (codes "contents") filled in
    let no_uploads = no_digest middle (codes "uploads") digest uploads_none digested in
    e ∙ rw (no_uploads, named, digested) refl
Request→classify (at_tags components named) filled =
    let (rest, e) = two_ends components (codes "tags") (codes "list") filled in
    e
    ∙ by_verb _ (codes "tags") (codes "list") rest components refl (and_false _ _ refl)
    ∙ rw named refl
Request→classify (at_referrers components {tail = tail} named clear) filled =
    let (rest, e) = two_ends components (codes "referrers") tail filled in
    e ∙ by_verb _ (codes "referrers") tail rest components refl clear ∙ rw named refl
Request→classify (at_upload_start components named) filled =
    let (rest, e) = two_ends components (codes "blobs") (codes "uploads") filled in
    e
    ∙ by_verb _ (codes "blobs") (codes "uploads") rest components refl (and_false _ _ refl)
    ∙ rw named refl
Request→classify (at_session components {session = session} named) filled =
    let (rest, e) = three_ends components (codes "uploads") session filled in e ∙ rw named refl

and_then-some :
    {A B : Type 0} (o : Option A) (f : A → Option B) (y : B)
    → and_then o f ≡ some y
    → (x : A) × (o ≡ some x) × (f x ≡ some y)
and_then-some none f y h = cc
and_then-some (some x) f y h = (x, refl, h)

both_hold : (b c : Bool) → (b && c) ≡ true → (b ≡ true) × (c ≡ true)
both_hold true c h = (refl, h)
both_hold false c h = cc

abbrev this : OciRoute → Option OciRoute
this route = some route

module _ (components : List Str) (route : OciRoute) where
  -- A request with the verb and the tail that were found.
  found :
      {found_route : OciRoute} {verb tail verb' tail' : Str}
      → verb ≡ verb'
      → tail ≡ tail'
      → this found_route ≡ this route
      → Request found_route (components ++ (verb' ∷ tail' ∷ []))
      → Request route (components ++ (verb ∷ tail ∷ []))
  found {found_route} {verb} {tail} v t e r =
      let same : found_route ≡ route = cc in
      subst (λ x. Request x (components ++ (verb ∷ tail ∷ []))) same
        (subst (λ l. Request found_route (components ++ l)) (λ i. sym v i ∷ sym t i ∷ []) r)

  verb→Request :
      (verb tail : Str)
      → looks_like_contents components tail ≡ false
      → classify_verb components verb tail ≡ some route
      → Request route (components ++ (verb ∷ tail ∷ []))
  verb→Request verb tail clear h =
      elim (Bool-cases ((verb == codes "blobs") && (tail == codes "uploads"))) [
        | inl upload ↦
            let (v, t) = both_hold _ _ upload in
            let (name, named, e) = and_then-some (join_name components) _ route (rw upload at h) in
            found (is v) (is t) e (at_upload_start components named)
        | inr no_upload ↦
            let h1 = rw no_upload at h in
            elim (Bool-cases (verb == codes "manifests")) [
              | inl v ↦
                  let (name, named, h2) =
                    and_then-some (join_name components) _ route (rw v at h1) in
                  let (reference, referred, e) = and_then-some (parse_reference tail) _ route h2 in
                  found (is v) refl e (at_manifest components tail named referred clear)
              | inr no_manifest ↦
                  let h2 = rw no_manifest at h1 in
                  elim (Bool-cases (verb == codes "blobs")) [
                    | inl v ↦
                        let (name, named, h3) =
                          and_then-some (join_name components) _ route (rw v at h2) in
                        let (digest, digested, e) = and_then-some (parse_digest tail) _ route h3 in
                        found (is v) refl e (at_blob components tail named digested)
                    | inr no_blob ↦
                        let h3 = rw no_blob at h2 in
                        elim (Bool-cases ((verb == codes "tags") && (tail == codes "list"))) [
                          | inl tags ↦
                              let (v, t) = both_hold _ _ tags in
                              let (name, named, e) =
                                and_then-some (join_name components) _ route (rw tags at h3) in
                              found (is v) (is t) e (at_tags components named)
                          | inr no_tags ↦
                              let h4 = rw no_tags at h3 in
                              elim (Bool-cases (verb == codes "referrers")) [
                                | inl v ↦
                                    let (name, named, e) =
                                      and_then-some (join_name components) _ route (rw v at h4) in
                                    found (is v) refl e (at_referrers components named clear)
                                | inr no_verb ↦ let h5 = rw no_verb at h4 in cc
                              ]
                        ]
                  ]
            ]
      ]
    where
      is : {text word : Str} → (text == word) ≡ true → text ≡ word
      is {text} {word} h = (list_beq_iff text word).0 h

module _ (segments : List Str) (route : OciRoute) (long : 2 ≤ length segments) where
  abbrev verb : Str
  verb = from_end 2 segments

  abbrev tail : Str
  tail = from_end 1 segments

  three :
      third_is_blobs segments ≡ true
      → before_end 3 segments ++ (codes "blobs" ∷ verb ∷ tail ∷ []) ≡ segments
  three h =
      let (l, b) = both_hold (leb 3 (length segments)) (from_end 3 segments == codes "blobs") h in
      ap (λ x. before_end 3 segments ++ (x ∷ verb ∷ tail ∷ []))
        (sym ((list_beq_iff (from_end 3 segments) (codes "blobs")).0 b))
      ∙ ends_in_three segments (ground (arith, l))

  two_third : third_is_blobs segments ≡ (
      ltb 0 (length (before_end 2 segments))
      && (from_end 1 (before_end 2 segments) == codes "blobs"))
  two_third =
      ap third_is_blobs (sym (ends_in_two segments long))
      ∙ third_of_two (before_end 2 segments) verb tail

  ends→Request :
      classify_ends
          (third_is_blobs segments)
          verb
          tail
          (before_end 3 segments)
          (before_end 2 segments)
        ≡ some route
      → Request route segments
  ends→Request h = elim (Bool-cases (third_is_blobs segments && (verb == codes "uploads"))) [
    | inl session ↦
        let (third, v) = both_hold (third_is_blobs segments) (verb == codes "uploads") session in
        let (name, named, e) =
          and_then-some (join_name (before_end 3 segments)) _ route (rw session at h) in
        let same : upload_session name tail ≡ route = cc in
        subst (λ l. Request route l) (three third)
          (subst (λ x. Request route (before_end 3 segments ++ (codes "blobs" ∷ x ∷ tail ∷ [])))
            (sym (is v))
            (subst
              (λ r.
                Request r (before_end 3 segments ++ (codes "blobs" ∷ codes "uploads" ∷ tail ∷ [])))
              same (at_session (before_end 3 segments) named)))
    | inr no_session ↦
        let h1 = rw no_session at h in
        elim (Bool-cases (third_is_blobs segments && (tail == codes "contents"))) [
          | inl contents ↦
              let (third, t) =
                both_hold (third_is_blobs segments) (tail == codes "contents") contents in
              let (name, named, h2) =
                and_then-some (join_name (before_end 3 segments)) _ route (rw contents at h1) in
              let (digest, digested, e) = and_then-some (parse_digest verb) _ route h2 in
              let same : blob_contents name digest ≡ route = cc in
              subst (λ l. Request route l) (three third)
                (subst
                  (λ x. Request route (before_end 3 segments ++ (codes "blobs" ∷ verb ∷ x ∷ [])))
                  (sym (is t))
                  (subst
                    (λ r.
                      Request r
                        (before_end 3 segments ++ (codes "blobs" ∷ verb ∷ codes "contents" ∷ [])))
                    same (at_contents (before_end 3 segments) verb named digested)))
          | inr no_contents ↦
              let h2 = rw no_contents at h1 in
              let clear : looks_like_contents (before_end 2 segments) tail ≡ false =
                ap (λ x. x && (tail == codes "contents")) (sym two_third) ∙ no_contents in
              subst (λ l. Request route l) (ends_in_two segments long)
                (verb→Request (before_end 2 segments) route verb tail clear h2)
        ]
  ]
    where
      is : {text word : Str} → (text == word) ≡ true → text ≡ word
      is {text} {word} h = (list_beq_iff text word).0 h

-- Segments of which none is empty are classified as a request exactly if they are the segments of that
-- request: the components of a valid name and, behind them, what the request is made of. Excepted is
-- one form, which is no manifest and no referrers request: a repository of which the last component is
-- `blobs`, with the reference `contents` or with `contents` as the digest.
pub classify_segments_iff :
    (route : OciRoute) (segments : List Str)
    → any is_empty segments ≡ false
    → (classify_segments segments ≡ some route) ↔ Request route segments
unfolding classify_segments
classify_segments_iff route segments filled = (
  λ h. elim (Bool-cases (ltb (length segments) 2)) [
    | inl short ↦ let h' = rw (filled, short) at h in cc
    | inr long ↦ ends→Request segments route (ground (arith, long)) (rw (filled, long) at h)
  ],
  λ request. Request→classify request filled,
)
