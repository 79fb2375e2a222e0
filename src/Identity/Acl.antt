-- ===== src/Identity/Acl.antt =====
-- crates/peryx-identity/src/acl.rs: what an index grants, who a request speaks as, and the decision.
-- Trimming and the base64 decoder are arguments of `identify`. A set of actions is a list of them.
pub mod Decisions
pub mod Scope
pub mod Credentials
use velodex.Prelude.{
  ℕ, ◌≡◌, ◌↔◌, refl, Bool, true, false, not, ◌&&◌, ◌||◌, Option, none, some, List, [], ◌∷◌, arith,
  Str, codes, any, find, is_none_or, and_then, PartialEq, ◌==◌, list_eq, nat_eq, contains,
  if◌then◌else◌,
}
use velodex.Prelude.Int.{ℤ, ltb_ℤ}
use velodex.Identity.Glob.{Glob, matches}
use velodex.Identity.Secrets.{secrets_match}
use velodex.Identity.Basic.{BasicCredentials, parse_basic}

pub data Action : Type 0 where
  read write delete : Action

abbrev action_beq : Action → Action → Bool
action_beq read read = true
action_beq write write = true
action_beq delete delete = true
action_beq _ _ = false

pub action_beq_iff : (a b : Action) → (action_beq a b ≡ true) ↔ (a ≡ b)
action_beq_iff a b = (λ h. ground arith, λ h. ground arith)

instance abbrev pub action_eq : PartialEq Action
action_eq = record { eq = action_beq; eq_iff = action_beq_iff }

pub data Denial : Type 0 where
  unavailable unauthenticated forbidden : Denial

pub data Principal : Type 0 where
  anonymous : Principal
  named : Str → Principal

-- `Result<(), Denial>`
pub data Decision : Type 0 where
  ok : Decision
  err : Denial → Decision

pub record Grant : Type 0 where
  pub projects : List Glob
  pub actions : List Action

pub record NamedToken : Type 0 where
  pub name : Str
  pub secret : Str
  pub grants : List Grant
  pub expires_at : Option ℤ

pub record IndexAcl : Type 0 where
  pub anonymous_read : Bool
  pub tokens : List NamedToken

pub record Identity : Type 0 where
  pub principal : Principal
  pub user : Option Str

unfoldable pub allows : Grant → Option Str → Action → Bool
allows grant project action =
    contains grant.actions action
    && is_none_or (λ name. any (λ glob. matches glob name) grant.projects) project

unfoldable pub allows_all : Grant → Action → Bool
allows_all grant action =
    contains grant.actions action && any (λ (glob : Glob). glob.pattern == codes "*") grant.projects

-- `.then_some(()).ok_or(Denial::Forbidden)`
abbrev pub or_forbidden : Bool → Decision
or_forbidden true = ok
or_forbidden false = err forbidden

unfoldable pub authorize_grants : List Grant → Option Str → Action → Decision
unfolding allows
authorize_grants grants project action =
    or_forbidden (any (λ grant. allows grant project action) grants)

unfoldable pub authorize_exact_grants : List Grant → Str → Action → Decision
authorize_exact_grants grants resource action = or_forbidden (
    any
      (λ (grant : Grant).
        contains grant.actions action
        && any (λ (glob : Glob). glob.pattern == resource) grant.projects)
      grants)

unfoldable pub token : IndexAcl → Str → Option NamedToken
token acl name = find (λ (t : NamedToken). t.name == name) acl.tokens

unfoldable pub grants_to_anyone : IndexAcl → Action → Bool
grants_to_anyone acl action =
    any (λ (t : NamedToken). any (λ (grant : Grant). contains grant.actions action) t.grants)
      acl.tokens

unfoldable pub authorize : Principal → IndexAcl → Option Str → Action → Decision
unfolding authorize_grants token grants_to_anyone
authorize principal acl project action =
    if (action == read) && acl.anonymous_read then ok else elim principal [
      | named subject ↦ elim (token acl subject) [
        | some t ↦ authorize_grants t.grants project action
        | none ↦ err forbidden
      ]
      | anonymous ↦ if grants_to_anyone acl action then err unauthenticated else err unavailable
    ]

unfoldable pub authorize_all : Principal → IndexAcl → Action → Decision
unfolding allows_all token grants_to_anyone
authorize_all principal acl action =
    if (action == read) && acl.anonymous_read then ok else elim principal [
      | named subject ↦ elim (token acl subject) [
        | some t ↦ or_forbidden (any (λ grant. allows_all grant action) t.grants)
        | none ↦ err forbidden
      ]
      | anonymous ↦ if grants_to_anyone acl action then err unauthenticated else err unavailable
    ]

-- `IndexAcl::grants`
unfoldable pub grants : IndexAcl → Principal → List Grant
unfolding token
grants acl anonymous = []
grants acl (named subject) = elim (token acl subject) [ some t ↦ t.grants | none ↦ [] ]

unfoldable pub live : NamedToken → ℤ → Bool
live t now = is_none_or (λ expiry. ltb_ℤ now expiry) t.expires_at

-- The token that a password authenticates: the first live one with this secret.
unfoldable pub authenticated : IndexAcl → Str → ℤ → Option NamedToken
unfolding live
authenticated acl password now =
    find (λ (t : NamedToken). live t now && secrets_match password t.secret) acl.tokens

module _ (trim : Str → Str) (decode : Str → Option Str) where
  unfoldable pub identify : IndexAcl → Option Str → ℤ → Identity
  unfolding authenticated parse_basic
  identify acl header now = elim (and_then header (parse_basic trim decode)) [
    | none ↦ record { principal = anonymous; user = none }
    | some credentials ↦ record {
      principal = elim (authenticated acl credentials.password now) [
        | some t ↦ named t.name
        | none ↦ anonymous
      ];
      user = some credentials.user;
    }
  ]

abbrev pub upload_token_name : Str
upload_token_name = codes "upload_token"

-- `NamedToken::upload` and `IndexAcl::upload_token`
unfoldable pub upload : Str → NamedToken
upload secret = record {
  name = upload_token_name;
  secret = secret;
  grants =
      (record { projects = (record { pattern = codes "*" }) ∷ []; actions = write ∷ delete ∷ [] })
      ∷ [];
  expires_at = none;
}

unfoldable pub upload_token : Str → IndexAcl
unfolding upload
upload_token secret = record { anonymous_read = true; tokens = upload secret ∷ [] }
