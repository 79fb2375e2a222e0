-- ===== src/Oci/Names/Digests.antt =====
-- The two checks of a digest (`valid_content_digest` and `parse_digest` of
-- crates/peryx-ecosystem-oci/src/name.rs).
use velodex.Prelude.{
  ℕ, ◌≡◌, inl, inr, refl, true, false, ◌||◌, some, [], ◌∷◌, ◌++◌, Str, codes, arith, all, is_empty,
  ◌==◌, nat_eq, list_eq, Bool-cases,
}
use velodex.Core.Encoding.{is_within}
use velodex.Oci.Names.{is_alnum, is_lower_hex, is_encoded, parse_digest, valid_content_digest}

letter :
    (byte : ℕ)
    → (is_within b'0' b'9' byte || is_within b'a' b'f' byte) ≡ true
    → is_alnum byte ≡ true
letter byte h = ground arith

hex_encoded :
    (text : Str)
    → all (λ byte. is_within b'0' b'9' byte || is_within b'a' b'f' byte) text ≡ true
    → all (λ byte. is_alnum byte || ((byte == b'=') || ((byte == b'_') || (byte == b'-')))) text
      ≡ true
hex_encoded [] h = refl
hex_encoded (byte ∷ text) h =
    let rest = hex_encoded text (ground (arith, h)) in rw (letter byte (ground (arith, h))) rest

-- A digest by SHA-256 that the referrers endpoint takes for valid is one that the paths of manifests and
-- blobs take, as it is.
pub valid_content_digest-parse_digest :
    (encoded : Str)
    → valid_content_digest (codes "sha256:" ++ encoded) ≡ true
    → parse_digest (codes "sha256:" ++ encoded) ≡ some (codes "sha256:" ++ encoded)
unfolding valid_content_digest parse_digest
valid_content_digest-parse_digest encoded h = elim (Bool-cases (is_encoded encoded)) [
  | inr bad ↦ let h' = rw bad at h in cc
  | inl good ↦
      let h' : is_lower_hex 64 encoded ≡ true = rw good at h in
      let filled : is_empty encoded ≡ false = ground (arith, good) in
      rw (filled, hex_encoded encoded (ground (arith, h'))) refl
]
