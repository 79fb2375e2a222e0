-- ===== src/Identity/Examples.antt =====
-- Runs of crates/peryx-identity/src/acl.rs on one index with two tokens.
use velodex.Prelude.{
  ◌≡◌, ◌↔◌, ◌≢◌, ◌⊎◌, refl, arith, true, false, none, some, [], ◌∷◌, ◌++◌, Str, codes, Any, ◌==◌,
  if◌then◌else◌, and_then, ℕ, ◌≤◌, inl, inr, subst, all, All, Option, ltb, Bool-cases,
}
use velodex.Prelude.Int.{pos}
use velodex.Identity.Glob.{Glob, walk, rounds, start, matches, matches_prefix, remainders_after}
use velodex.Identity.Glob.Meaning.{Matches}
use velodex.Identity.Glob.Matching.{matches_iff_Matches}
use velodex.Identity.Glob.Prefix.{remainders_after_iff, matches_prefix_iff}
use velodex.Identity.Secrets.{IsBytes, secrets_match, secrets_match_iff}
use velodex.Identity.Acl.{
  read, write, delete, action_eq, unauthenticated, forbidden, anonymous, named, ok, err, Grant,
  NamedToken, IndexAcl, authorize, authorize_grants, authorize_exact_grants, authenticated,
  identify, grants, upload_token, upload_token_name,
}
use velodex.Identity.Basic.{BasicCredentials, parse_basic, parse_basic_lem}
use velodex.Identity.Acl.Decisions.{Holds, IsOpen, Reason, authorize_iff, authorize_denial}
use velodex.Identity.Acl.Scope.{authorize_exact_grants-authorize_grants, upload_token_grants}
use velodex.Identity.Acl.Credentials.{IsLive, identify_sound, grants-identify}

abbrev acme_any : Glob
acme_any = record { pattern = codes "acme-*" }

matches_iff_Matches_example :
    ((fuel : ℕ)
      → rounds acme_any.pattern (codes "acme-web") ≤ fuel
      → walk acme_any.pattern (codes "acme-web") fuel start
        ≡ some (matches acme_any (codes "acme-web")))
    × ((matches acme_any (codes "acme-web") ≡ true) ↔ Matches acme_any.pattern (codes "acme-web"))
matches_iff_Matches_example = matches_iff_Matches acme_any (codes "acme-web")

remainders_after_iff_example :
    Any (λ rem. Matches rem (codes "e-web")) (remainders_after acme_any (codes "acm"))
    ↔ Matches (codes "acme-*") (codes "acm" ++ codes "e-web")
remainders_after_iff_example = remainders_after_iff acme_any (codes "acm") (codes "e-web")

matches_prefix_iff_example :
    (matches_prefix acme_any (codes "acme-w") ≡ true)
    ↔ ((rest : Str) × Matches (codes "acme-*") (codes "acme-w" ++ rest))
matches_prefix_iff_example = matches_prefix_iff acme_any (codes "acme-w")

secrets_match_iff_example :
    (secrets_match (codes "s3") (codes "s4") ≡ true) ↔ (codes "s3" ≡ codes "s4")
secrets_match_iff_example =
    secrets_match_iff (codes "s3") (codes "s4") (omega arith, (omega arith, tt))
      (omega arith, (omega arith, tt))

-- An index that reads need a token for. `ci` may read and write under `acme-`, `admin` everything.
abbrev publisher : Grant
publisher = record { projects = acme_any ∷ []; actions = read ∷ write ∷ [] }

abbrev everything_grant : Grant
everything_grant = record {
  projects = (record { pattern = codes "*" }) ∷ [];
  actions = read ∷ delete ∷ [];
}

abbrev ci : NamedToken
ci = record {
  name = codes "ci";
  secret = codes "s3";
  grants = publisher ∷ [];
  expires_at = some (pos 100);
}

abbrev admin : NamedToken
admin = record {
  name = codes "admin";
  secret = codes "s4";
  grants = everything_grant ∷ [];
  expires_at = none;
}

abbrev private : IndexAcl
private = record { anonymous_read = false; tokens = ci ∷ admin ∷ [] }

authorize_iff_example :
    (authorize (named (codes "ci")) private (some (codes "acme-web")) write ≡ ok)
    ↔ (IsOpen private write ⊎ Holds (named (codes "ci")) private (codes "acme-web") write)
authorize_iff_example = authorize_iff (named (codes "ci")) private (codes "acme-web") write

authorize_denial_example :
    ¬ IsOpen private delete
    × Reason forbidden (named (codes "ci")) private (some (codes "acme-web")) delete
unfolding authorize
authorize_denial_example =
    authorize_denial (named (codes "ci")) private (some (codes "acme-web")) delete forbidden refused
  where
    refused :
        authorize (named (codes "ci")) private (some (codes "acme-web")) delete ≡ err forbidden
    refused = refl

authorize_exact_grants-authorize_grants_example :
    authorize_grants (publisher ∷ []) (some (codes "acme-*")) write ≡ ok
unfolding authorize_exact_grants
authorize_exact_grants-authorize_grants_example =
    authorize_exact_grants-authorize_grants (publisher ∷ []) (codes "acme-*") write exact
  where
    exact : authorize_exact_grants (publisher ∷ []) (codes "acme-*") write ≡ ok
    exact = refl

upload_token_grants_example :
    (authorize (named upload_token_name) (upload_token (codes "s3")) (some (codes "web")) delete
      ≡ ok)
    × (authorize anonymous (upload_token (codes "s3")) (some (codes "web")) delete
        ≡ (if delete == read then ok else err unauthenticated))
upload_token_grants_example = upload_token_grants (codes "s3") (codes "web") delete

-- A decoder of what is not encoded.
abbrev as_is : Str → Str
as_is text = text

abbrev header_value : Str
header_value = codes "Basic ci:s3"

-- A decoder of what is not encoded, which refuses what are no bytes.
abbrev only_bytes : Str → Option Str
only_bytes text = if all (λ b. ltb b 256) text then some text else none

all-IsBytes : (text : Str) → all (λ b. ltb b 256) text ≡ true → IsBytes text
all-IsBytes [] h = tt
all-IsBytes (b ∷ text) h = (ground arith, all-IsBytes text (ground arith))

identify_sound_example :
    (credentials : BasicCredentials) × (t : NamedToken) × (and_then
        (some header_value)
        (parse_basic as_is only_bytes)
      ≡ some credentials)
    × Any (λ u. u ≡ t) private.tokens
    × IsLive t (pos 7)
    × (credentials.password ≡ t.secret)
    × (t.name ≡ codes "ci")
unfolding identify authenticated secrets_match parse_basic
identify_sound_example =
    identify_sound as_is only_bytes decodes private secrets (some header_value) (pos 7) (codes "ci")
      speaks
  where
    speaks :
        (identify as_is only_bytes private (some header_value) (pos 7)).principal
        ≡ named (codes "ci")
    speaks = refl

    decodes : (encoded text : Str) → only_bytes encoded ≡ some text → IsBytes text
    decodes encoded text e = elim (Bool-cases (all (λ b. ltb b 256) encoded)) [
      | inl bytes ↦
          let same : encoded ≡ text = cc (e, bytes) in
          subst IsBytes same (all-IsBytes encoded bytes)
      | inr more ↦ cc (e, more)
    ]

    secrets : All (λ (t : NamedToken). IsBytes t.secret) private.tokens
    secrets = (all-IsBytes (codes "s3") refl, (all-IsBytes (codes "s4") refl, tt))

grants-identify_example :
    grants private (identify as_is some private (some header_value) (pos 7)).principal
    ≡ publisher ∷ []
unfolding authenticated secrets_match parse_basic
grants-identify_example =
    grants-identify as_is some private header_value (pos 7)
      (record { user = codes "ci"; password = codes "s3" }) ci (((λ e. differ e), tt), (tt, tt))
      refl known
  where
    differ : codes "ci" ≢ codes "admin"
    differ e = cc

    known : authenticated private (codes "s3") (pos 7) ≡ some ci
    known = refl

parse_basic_lem_example :
    parse_basic (λ text. text) some (codes "Basic ann:s3:x")
    ≡ some (record { user = codes "ann"; password = codes "s3:x" })
parse_basic_lem_example =
    parse_basic_lem (λ text. text) some (codes "ann:s3:x") (codes "ann") (codes "s3:x") refl
      (omega arith, (omega arith, (omega arith, tt)))
