-- ===== src/Identity/Acl/Decisions.antt =====
-- The decisions of `authorize` and its relatives, against what a grant means.
use velodex.Prelude.{
  ◌≡◌, ◌↔◌, ◌⊎◌, inl, inr, refl, sym, subst, ◌∙◌, Bool, true, false, ◌&&◌, Option, none, some, List,
  arith, Str, Any, ◌==◌, list_eq, nat_eq, if◌then◌else◌, Bool-cases, Option-cases, any→Any, Any→any,
  contains→Any, Any→contains,
}
use velodex.Identity.Glob.{Glob, matches}
use velodex.Identity.Glob.Meaning.{Matches}
use velodex.Identity.Glob.Matching.{matches_iff}
use velodex.Identity.Acl.{
  Action, read, write, delete, action_eq, Denial, unavailable, unauthenticated, forbidden,
  Principal, anonymous, named, ok, err, Grant, NamedToken, IndexAcl, allows, or_forbidden,
  authorize_grants, token, grants_to_anyone, authorize,
}

-- The grant has the action, and one of its patterns stands for the name.
abbrev pub Covers : Grant → Action → Str → Type 0
Covers grant action name =
    Any (λ a. a ≡ action) grant.actions
    × Any (λ (glob : Glob). Matches glob.pattern name) grant.projects

-- The token that the principal speaks as has such a grant.
abbrev pub Holds : Principal → IndexAcl → Str → Action → Type 0
Holds anonymous acl name action = ⊥
Holds (named subject) acl name action =
    (t : NamedToken) × (token acl subject ≡ some t)
    × Any (λ grant. Covers grant action name) t.grants

abbrev pub IsOpen : IndexAcl → Action → Type 0
IsOpen acl action = (action ≡ read) × (acl.anonymous_read ≡ true)

pub allows_iff :
    (grant : Grant) (name : Str) (action : Action)
    → (allows grant (some name) action ≡ true) ↔ Covers grant action name
unfolding allows
allows_iff grant name action = (
  λ h. (
    contains→Any grant.actions action (ground arith),
    any→Any (λ glob. matches glob name) (λ glob. Matches glob.pattern name) grant.projects
        (λ glob. (matches_iff glob name).0) (ground arith),
  ),
  λ c.
      let has_action = Any→contains grant.actions action c.0 in
      let has_project =
        Any→any (λ glob. matches glob name) (λ glob. Matches glob.pattern name) grant.projects
          (λ glob. (matches_iff glob name).1) c.1 in
      rw (has_action, has_project) refl,
)

pub or_forbidden-ok : (b : Bool) → or_forbidden b ≡ ok → b ≡ true
or_forbidden-ok true h = refl
or_forbidden-ok false h = cc

-- `authorize_grants` admits a project exactly if some grant covers it.
pub authorize_grants_iff :
    (gs : List Grant) (name : Str) (action : Action)
    → (authorize_grants gs (some name) action ≡ ok) ↔ Any (λ grant. Covers grant action name) gs
unfolding authorize_grants
authorize_grants_iff gs name action = (
  λ h.
      any→Any (λ grant. allows grant (some name) action) (λ grant. Covers grant action name) gs
        (λ grant. (allows_iff grant name action).0) (or_forbidden-ok _ h),
  λ c.
      rw
        (Any→any (λ grant. allows grant (some name) action) (λ grant. Covers grant action name) gs
          (λ grant. (allows_iff grant name action).1) c)
        refl,
)

pub IsOpen-test :
    (acl : IndexAcl) (action : Action)
    → (((action == read) && acl.anonymous_read) ≡ true) ↔ IsOpen acl action
IsOpen-test acl read = (λ h. (refl, ground arith), λ h. h.1)
IsOpen-test acl write = (λ h. cc, λ h. cc (h.0))
IsOpen-test acl delete = (λ h. cc, λ h. cc (h.0))

-- Where the index is not open, `authorize` looks at the principal.
module _ (acl : IndexAcl) (action : Action)
    (shut : ((action == read) && acl.anonymous_read) ≡ false) where
  pub authorize_named :
      (subject : Str) (project : Option Str) (t : NamedToken)
      → token acl subject ≡ some t
      → authorize (named subject) acl project action ≡ authorize_grants t.grants project action
  unfolding authorize
  authorize_named subject project t e = rw (shut, e, authorize)

  pub authorize_unknown :
      (subject : Str) (project : Option Str)
      → token acl subject ≡ none
      → authorize (named subject) acl project action ≡ err forbidden
  unfolding authorize
  authorize_unknown subject project e = rw (shut, e, authorize)

  pub authorize_anonymous :
      (project : Option Str)
      → authorize anonymous acl project action
        ≡ (if grants_to_anyone acl action then err unauthenticated else err unavailable)
  unfolding authorize
  authorize_anonymous project = rw (shut, authorize)

  pub anonymous_refused : (project : Option Str) → authorize anonymous acl project action ≡ ok → ⊥
  anonymous_refused project h = ground (arith, authorize_anonymous project)

  shut_iff :
      (principal : Principal) (name : Str)
      → (authorize principal acl (some name) action ≡ ok) ↔ Holds principal acl name action
  shut_iff anonymous name = (anonymous_refused (some name), λ h. elim h [ ])
  shut_iff (named subject) name = elim (Option-cases (token acl subject)) [
    | inl e ↦ (λ h. cc (authorize_unknown subject (some name) e), λ (t, e', c). cc)
    | inr (t, e) ↦ (
      λ h. (
        t,
        e,
        (authorize_grants_iff t.grants name action).0
            (sym (authorize_named subject (some name) t e) ∙ h),
      ),
      λ (t', e', c).
          authorize_named subject (some name) t' e'
          ∙ (authorize_grants_iff t'.grants name action).1 c,
    )
  ]

pub authorize_open :
    (principal : Principal) (acl : IndexAcl) (project : Option Str) (action : Action)
    → ((action == read) && acl.anonymous_read) ≡ true
    → authorize principal acl project action ≡ ok
unfolding authorize
authorize_open principal acl project action e = rw (e, authorize)

-- `authorize` admits a named project exactly if the index is open for the read, or the token that the
-- principal names holds a grant that covers the project and the action.
pub authorize_iff :
    (principal : Principal) (acl : IndexAcl) (name : Str) (action : Action)
    → (authorize principal acl (some name) action ≡ ok)
      ↔ (IsOpen acl action ⊎ Holds principal acl name action)
authorize_iff principal acl name action =
    elim (Bool-cases ((action == read) && acl.anonymous_read)) [
      | inl e ↦ (
        λ h. inl ((IsOpen-test acl action).0 e),
        λ h. authorize_open principal acl (some name) action e,
      )
      | inr e ↦ (
        λ h. inr ((shut_iff acl action e principal name).0 h),
        λ h. elim h [
          | inl o ↦ cc ((IsOpen-test acl action).1 o)
          | inr c ↦ (shut_iff acl action e principal name).1 c
        ],
      )
    ]

-- Some token of the index has a grant for the action.
abbrev pub IsOffered : IndexAcl → Action → Type 0
IsOffered acl action =
    Any (λ (t : NamedToken). Any (λ (grant : Grant). Any (λ a. a ≡ action) grant.actions) t.grants)
      acl.tokens

grants_to_anyone_iff :
    (acl : IndexAcl) (action : Action) → (grants_to_anyone acl action ≡ true) ↔ IsOffered acl action
unfolding grants_to_anyone
grants_to_anyone_iff acl action = (
  any→Any _ _ acl.tokens (λ t. any→Any _ _ t.grants (λ grant. contains→Any grant.actions action)),
  Any→any _ _ acl.tokens (λ t. Any→any _ _ t.grants (λ grant. Any→contains grant.actions action)),
)

-- The grant covers the project, if the request names one, and has the action in any case.
abbrev pub Entitles : Grant → Option Str → Action → Type 0
Entitles grant none action = Any (λ a. a ≡ action) grant.actions
Entitles grant (some name) action = Covers grant action name

allows-Entitles :
    (grant : Grant) (project : Option Str) (action : Action)
    → Entitles grant project action
    → allows grant project action ≡ true
unfolding allows
allows-Entitles grant none action e = rw (Any→contains grant.actions action e) refl
allows-Entitles grant (some name) action e = (allows_iff grant name action).1 e

-- What each denial says of a request.
abbrev pub Reason : Denial → Principal → IndexAcl → Option Str → Action → Type 0
Reason unavailable principal acl project action = (principal ≡ anonymous) × ¬ IsOffered acl action
Reason unauthenticated principal acl project action = (principal ≡ anonymous) × IsOffered acl action
Reason forbidden principal acl project action =
    (subject : Str) × (principal ≡ named subject)
    × ((t : NamedToken)
        → token acl subject ≡ some t
        → ¬ Any (λ grant. Entitles grant project action) t.grants)

or_forbidden-err : (b : Bool) (d : Denial) → or_forbidden b ≡ err d → forbidden ≡ d
or_forbidden-err true d h = cc
or_forbidden-err false d h = cc

named_forbidden :
    (acl : IndexAcl) (action : Action) (subject : Str) (project : Option Str) (d : Denial)
    → ((action == read) && acl.anonymous_read) ≡ false
    → authorize (named subject) acl project action ≡ err d
    → forbidden ≡ d
unfolding authorize_grants
named_forbidden acl action subject project d shut h = elim (Option-cases (token acl subject)) [
  | inl e ↦ cc (authorize_unknown acl action shut subject project e)
  | inr (t, e) ↦
      or_forbidden-err _ d (sym (authorize_named acl action shut subject project t e) ∙ h)
]

entitled_admitted :
    (acl : IndexAcl) (action : Action) (subject : Str) (project : Option Str) (t : NamedToken)
    → ((action == read) && acl.anonymous_read) ≡ false
    → token acl subject ≡ some t
    → Any (λ grant. Entitles grant project action) t.grants
    → authorize (named subject) acl project action ≡ ok
unfolding authorize_grants
entitled_admitted acl action subject project t shut e held =
    authorize_named acl action shut subject project t e
    ∙ rw
        (Any→any (λ grant. allows grant project action) (λ grant. Entitles grant project action)
          t.grants (λ grant. allows-Entitles grant project action) held)
        refl

shut_denial :
    (principal : Principal) (acl : IndexAcl) (project : Option Str) (action : Action) (d : Denial)
    → ((action == read) && acl.anonymous_read) ≡ false
    → authorize principal acl project action ≡ err d
    → Reason d principal acl project action
shut_denial anonymous acl project action d shut h =
    elim (Bool-cases (grants_to_anyone acl action)) [
      | inl offered ↦
          let e : unauthenticated ≡ d =
            ground (arith, authorize_anonymous acl action shut project) in
          subst (λ x. Reason x anonymous acl project action) e
            (refl, (grants_to_anyone_iff acl action).0 offered)
      | inr closed ↦
          let e : unavailable ≡ d = ground (arith, authorize_anonymous acl action shut project) in
          subst (λ x. Reason x anonymous acl project action) e
            (refl, λ o. cc ((grants_to_anyone_iff acl action).1 o))
    ]
shut_denial (named subject) acl project action d shut h =
    let e : forbidden ≡ d = named_forbidden acl action subject project d shut h in
    subst (λ x. Reason x (named subject) acl project action) e
      (
        subject,
        refl,
        λ t found held. cc (entitled_admitted acl action subject project t shut found held),
      )

-- A refusal is never about an open read. It is `Unavailable` only for an anonymous request to an index
-- where no token has the action, `Unauthenticated` only for an anonymous request where one has it, and
-- `Forbidden` only for a principal with a name whose token, if it has one, has no grant with the action
-- that covers the project, where the request is about one.
pub authorize_denial :
    (principal : Principal) (acl : IndexAcl) (project : Option Str) (action : Action) (d : Denial)
    → authorize principal acl project action ≡ err d
    → ¬ IsOpen acl action × Reason d principal acl project action
authorize_denial principal acl project action d h =
    elim (Bool-cases ((action == read) && acl.anonymous_read)) [
      | inl e ↦ cc (authorize_open principal acl project action e)
      | inr e ↦
          (λ o. cc ((IsOpen-test acl action).1 o), shut_denial principal acl project action d e h)
    ]
