-- ===== src/Identity/Acl/Credentials.antt =====
-- `IndexAcl::identify` of crates/peryx-identity/src/acl.rs: which token a presented password stands for.
use velodex.Prelude.{
  ◌≡◌, ◌≢◌, inl, inr, sym, ap, subst, ◌∙◌, true, Option, some, List, [], ◌∷◌, arith, Str, Any, All,
  find, and_then, ◌==◌, list_eq, nat_eq, Option-cases, find-Any, find_hit, find_miss, beq_false,
  beq_refl,
}
use velodex.Prelude.Int.{ℤ, ◌<ℤ◌, ltb_ℤ_iff}
use velodex.Identity.Secrets.{IsBytes, secrets_match, secrets_match_iff}
use velodex.Identity.Basic.{BasicCredentials, parse_basic, HasBytes, parse_basic-HasBytes}
use velodex.Identity.Acl.{named, NamedToken, IndexAcl, token, live, authenticated, identify, grants}

-- The token stops at its expiry time.
abbrev pub IsLive : NamedToken → ℤ → Type 0
IsLive t now = (expiry : ℤ) → t.expires_at ≡ some expiry → now <ℤ expiry

live_iff : (t : NamedToken) (now : ℤ) → live t now ≡ true → IsLive t now
unfolding live
live_iff t now h expiry e = (ltb_ℤ_iff now expiry).0 (ground arith)

-- The names of the tokens differ.
abbrev pub IsDistinct : List NamedToken → Type 0
IsDistinct [] = Unit
IsDistinct (t ∷ ts) = All (λ (u : NamedToken). t.name ≢ u.name) ts × IsDistinct ts

same_name : (u t : NamedToken) → u ≡ t → (u.name == t.name) ≡ true
same_name u t e = subst (λ x. (x.name == t.name) ≡ true) (sym e) (beq_refl t.name)

-- Where names differ, the name of a token leads back to it.
found_by_name :
    (ts : List NamedToken) (t : NamedToken)
    → IsDistinct ts
    → Any (λ u. u ≡ t) ts
    → find (λ (u : NamedToken). u.name == t.name) ts ≡ some t
found_by_name [] t d m = elim m [ ]
found_by_name (u ∷ ts) t d (inl e) =
    find_hit (λ (x : NamedToken). x.name == t.name) u ts (same_name u t e) ∙ ap some e
found_by_name (u ∷ ts) t (fresh, d) (inr m) =
    find_miss (λ (x : NamedToken). x.name == t.name) u ts (beq_false (differs ts fresh m))
    ∙ found_by_name ts t d m
  where
    differs :
        (us : List NamedToken)
        → All (λ (x : NamedToken). u.name ≢ x.name) us
        → Any (λ x. x ≡ t) us
        → u.name ≢ t.name
    differs [] h m = elim m [ ]
    differs (x ∷ us) h (inl e) = rw (← e) h.0
    differs (x ∷ us) h (inr m) = differs us h.1 m

-- A member of a list has what all members have.
All-member :
    (P : NamedToken → Type 0) (ts : List NamedToken) (t : NamedToken)
    → All P ts
    → Any (λ u. u ≡ t) ts
    → P t
All-member P [] t h m = elim m [ ]
All-member P (u ∷ ts) t (first, h) (inl e) = subst P e first
All-member P (u ∷ ts) t (first, h) (inr m) = All-member P ts t h m

module _ (trim : Str → Str) (decode : Str → Option Str)
    (decodes : (encoded text : Str) → decode encoded ≡ some text → IsBytes text) (acl : IndexAcl)
    (secrets : All (λ (t : NamedToken). IsBytes t.secret) acl.tokens) (header : Option Str)
    (now : ℤ) where
  presented-IsBytes :
      (credentials : BasicCredentials)
      → and_then header (parse_basic trim decode) ≡ some credentials
      → IsBytes credentials.password
  presented-IsBytes credentials e = subst HasBytes e (elim (Option-cases header) [
    | inl absent ↦ rw absent tt
    | inr (value, present) ↦ rw present (parse_basic-HasBytes trim decode value decodes)
  ])

  -- A request speaks under a name only if its header carries the secret of a live token of that name as
  -- its password. The secrets are bytes, and so is what the decoder of the header returns.
  pub identify_sound :
      (subject : Str)
      → (identify trim decode acl header now).principal ≡ named subject
      → (credentials : BasicCredentials) × (t : NamedToken) × (and_then header
            (parse_basic trim decode)
          ≡ some credentials)
        × Any (λ u. u ≡ t) acl.tokens
        × IsLive t now
        × (credentials.password ≡ t.secret)
        × (t.name ≡ subject)
  unfolding identify authenticated
  identify_sound subject h = elim (Option-cases (and_then header (parse_basic trim decode))) [
    | inl e ↦ let h' = rw (e, identify) at h in cc
    | inr (c, e) ↦ elim (Option-cases (authenticated acl c.password now)) [
      | inl none_fits ↦ let h' = rw (e, none_fits, identify) at h in cc
      | inr (t, fits) ↦
          let h' = rw (e, fits, identify) at h in
          let (m, tests) = find-Any _ acl.tokens t fits in
          let is_live : live t now ≡ true = ground arith in
          let same : secrets_match c.password t.secret ≡ true = ground arith in
          let own = All-member (λ (x : NamedToken). IsBytes x.secret) acl.tokens t secrets m in
          (
            c,
            t,
            e,
            m,
            live_iff t now is_live,
            (secrets_match_iff c.password t.secret (presented-IsBytes c e) own).0 same,
            cc,
          )
    ]
  ]

-- Where the names of an index's tokens differ, a request is granted what the token that its password
-- authenticates is granted.
pub grants-identify :
    (trim : Str → Str) (decode : Str → Option Str) (acl : IndexAcl) (value : Str) (now : ℤ)
    (credentials : BasicCredentials) (t : NamedToken)
    → IsDistinct acl.tokens
    → parse_basic trim decode value ≡ some credentials
    → authenticated acl credentials.password now ≡ some t
    → grants acl (identify trim decode acl (some value) now).principal ≡ t.grants
unfolding grants identify authenticated token
grants-identify trim decode acl value now credentials t d parsed fits =
    rw (parsed, fits, identify) (grants-named (find-Any _ acl.tokens t fits).0)
  where
    grants-named : Any (λ u. u ≡ t) acl.tokens → grants acl (named t.name) ≡ t.grants
    grants-named m =
        let found : token acl t.name ≡ some t = found_by_name acl.tokens t d m in rw (found, grants)
