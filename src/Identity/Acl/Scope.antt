-- ===== src/Identity/Acl/Scope.antt =====
-- How the decisions of crates/peryx-identity/src/acl.rs relate: the whole catalog, one project, some
-- project, one exact resource, and the token that `upload_token` stands for.
use mathlib.Core.List.{append-nil}
use velodex.Prelude.{
  ◌≡◌, inl, inr, refl, sym, subst, ◌∙◌, true, false, ◌&&◌, none, some, List, [], ◌∷◌, arith, Str,
  codes, any, Any, ◌==◌, list_eq, nat_eq, contains, if◌then◌else◌, Bool-cases, Option-cases,
  any→Any, Any→any, contains→Any, Any→contains, list_beq_iff,
}
use velodex.Identity.Glob.{Glob, matches, star}
use velodex.Identity.Glob.Meaning.{Matches}
use velodex.Identity.Glob.Matching.{matches_iff}
use velodex.Identity.Acl.{
  Action, read, write, delete, action_eq, Principal, anonymous, named, ok, err, unauthenticated,
  Grant, IndexAcl, allows, allows_all, authorize_grants, authorize_exact_grants, token, authorize,
  authorize_all, upload_token, upload_token_name,
}
use velodex.Identity.Acl.Decisions.{
  Covers, Holds, or_forbidden-ok, authorize_grants_iff, authorize_iff, IsOpen-test, authorize_open,
  authorize_named,
}

-- The pattern `*` stands for every text.
everything : (name : Str) → Matches (codes "*") name
everything name = (name, [], sym (append-nil name), refl)

-- A pattern stands for its own text.
Matches-self : (p : Str) → Matches p p
Matches-self [] = refl
Matches-self (c ∷ p) = elim (Bool-cases (c == star)) [
  | inl wild ↦ rw wild (c ∷ [], p, refl, Matches-self p)
  | inr plain ↦ rw plain (p, refl, Matches-self p)
]

allows_all-Covers :
    (grant : Grant) (name : Str) (action : Action)
    → allows_all grant action ≡ true
    → Covers grant action name
unfolding allows_all
allows_all-Covers grant name action h = (
  contains→Any grant.actions action (ground arith),
  any→Any (λ (glob : Glob). glob.pattern == codes "*") (λ (glob : Glob). Matches glob.pattern name)
      grant.projects
      (λ glob e.
        subst (λ p. Matches p name) (sym ((list_beq_iff glob.pattern (codes "*")).0 e))
          (everything name))
      (ground arith),
)

all_Holds :
    (principal : Principal) (acl : IndexAcl) (action : Action) (name : Str)
    → ((action == read) && acl.anonymous_read) ≡ false
    → authorize_all principal acl action ≡ ok
    → Holds principal acl name action
unfolding authorize_all
all_Holds anonymous acl action name shut h = let h' = rw (shut, authorize_all) at h in ground arith
all_Holds (named subject) acl action name shut h = elim (Option-cases (token acl subject)) [
  | inl e ↦ let h' = rw (shut, e, authorize_all) at h in cc
  | inr (t, e) ↦
      let h' = rw (shut, e, authorize_all) at h in
      (
        t,
        e,
        any→Any (λ grant. allows_all grant action) (λ grant. Covers grant action name) t.grants
            (λ grant. allows_all-Covers grant name action) (or_forbidden-ok _ h'),
      )
]

-- Who may read, write or delete the whole catalog may do so on every project, also on those to come.
pub authorize_all-authorize :
    (principal : Principal) (acl : IndexAcl) (action : Action) (name : Str)
    → authorize_all principal acl action ≡ ok
    → authorize principal acl (some name) action ≡ ok
authorize_all-authorize principal acl action name h =
    elim (Bool-cases ((action == read) && acl.anonymous_read)) [
      | inl e ↦ authorize_open principal acl (some name) action e
      | inr e ↦
          (authorize_iff principal acl name action).1
            (inr (all_Holds principal acl action name e h))
    ]

some_action :
    (gs : List Grant) (action : Action) (name : Str)
    → Any (λ grant. Covers grant action name) gs
    → authorize_grants gs none action ≡ ok
unfolding authorize_grants
some_action gs action name c =
    rw
      (Any→any (λ grant. allows grant none action) (λ grant. Covers grant action name) gs
        (λ grant. allows_none grant) c)
      refl
  where
    allows_none : (grant : Grant) → Covers grant action name → allows grant none action ≡ true
    allows_none grant c = rw (Any→contains grant.actions action c.0) refl

Holds-any :
    (principal : Principal) (acl : IndexAcl) (action : Action) (name : Str)
    → ((action == read) && acl.anonymous_read) ≡ false
    → Holds principal acl name action
    → authorize principal acl none action ≡ ok
Holds-any anonymous acl action name shut h = elim h [ ]
Holds-any (named subject) acl action name shut (t, e, c) =
    authorize_named acl action shut subject none t e ∙ some_action t.grants action name c

-- Who may act on some project passes the check that is made before the project is known.
pub authorize_any :
    (principal : Principal) (acl : IndexAcl) (action : Action) (name : Str)
    → authorize principal acl (some name) action ≡ ok
    → authorize principal acl none action ≡ ok
authorize_any principal acl action name h =
    elim (Bool-cases ((action == read) && acl.anonymous_read)) [
      | inl e ↦ authorize_open principal acl none action e
      | inr e ↦ elim ((authorize_iff principal acl name action).0 h) [
        | inl o ↦ cc ((IsOpen-test acl action).1 o)
        | inr c ↦ Holds-any principal acl action name e c
      ]
    ]

-- A grant for one exact resource also admits it where patterns are expanded.
pub authorize_exact_grants-authorize_grants :
    (gs : List Grant) (resource : Str) (action : Action)
    → authorize_exact_grants gs resource action ≡ ok
    → authorize_grants gs (some resource) action ≡ ok
unfolding authorize_exact_grants
authorize_exact_grants-authorize_grants gs resource action h =
    (authorize_grants_iff gs resource action).1
      (any→Any _ (λ grant. Covers grant action resource) gs covered (or_forbidden-ok _ h))
  where
    named_exactly :
        (glob : Glob) → (glob.pattern == resource) ≡ true → Matches glob.pattern resource
    named_exactly glob e =
        subst (Matches glob.pattern) ((list_beq_iff glob.pattern resource).0 e)
          (Matches-self glob.pattern)

    covered :
        (grant : Grant)
        → (contains grant.actions action
            && any (λ (glob : Glob). glob.pattern == resource) grant.projects)
          ≡ true
        → Covers grant action resource
    covered grant e = (
      contains→Any grant.actions action (ground arith),
      any→Any (λ (glob : Glob). glob.pattern == resource)
          (λ (glob : Glob). Matches glob.pattern resource) grant.projects named_exactly
          (ground arith),
    )

star_matches : (name : Str) → matches (record { pattern = codes "*" }) name ≡ true
star_matches name = (matches_iff (record { pattern = codes "*" }) name).1 (everything name)

-- With the `upload_token` shorthand its holder may do everything on every project, and a request
-- without a credential may read and is asked to authenticate for the rest.
pub upload_token_grants :
    (secret name : Str) (action : Action)
    → (authorize (named upload_token_name) (upload_token secret) (some name) action ≡ ok)
      × (authorize anonymous (upload_token secret) (some name) action
          ≡ (if action == read then ok else err unauthenticated))
unfolding upload_token authorize
upload_token_grants secret name read = (refl, refl)
upload_token_grants secret name write = (rw (star_matches name) refl, refl)
upload_token_grants secret name delete = (rw (star_matches name) refl, refl)
