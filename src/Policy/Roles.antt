-- ===== src/Policy/Roles.antt =====
-- crates/peryx-identity/src/roles.rs: the roles that a server administrator grants to users.
use velodex.Prelude.{
  ◌≡◌, ◌↔◌, ◌⊎◌, inl, inr, refl, sym, ap, Bool, true, false, ◌&&◌, List, [], ◌∷◌, Str, arith, any,
  Any, PartialEq, ◌==◌, nat_eq, list_eq, list_beq_iff, contains, any→Any, Any→any,
}

pub data Scope : Type 0 where
  repository_read repository_write repository_delete operator_read : Scope

abbrev scope_beq : Scope → Scope → Bool
scope_beq repository_read repository_read = true
scope_beq repository_write repository_write = true
scope_beq repository_delete repository_delete = true
scope_beq operator_read operator_read = true
scope_beq _ _ = false

pub scope_beq_iff : (a b : Scope) → (scope_beq a b ≡ true) ↔ (a ≡ b)
scope_beq_iff a b = (λ h. ground arith, λ h. ground arith)

instance abbrev pub scope_eq : PartialEq Scope
scope_eq = record { eq = scope_beq; eq_iff = scope_beq_iff }

pub data Role : Type 0 where
  administrator repository_publisher repository_reader operator : Role

unfoldable pub scopes : Role → List Scope
scopes administrator = repository_read ∷ repository_write ∷ repository_delete ∷ operator_read ∷ []
scopes repository_publisher = repository_read ∷ repository_write ∷ repository_delete ∷ []
scopes repository_reader = repository_read ∷ []
scopes operator = operator_read ∷ []

unfoldable pub carries : Role → Scope → Bool
unfolding scopes
carries role scope = contains (scopes role) scope

pub data Resource : Type 0 where
  repository : Str → Resource
  operator_data : Resource

pub data GrantScope : Type 0 where
  server : GrantScope
  one_repository : Str → GrantScope

unfoldable pub covers : GrantScope → Resource → Bool
covers server resource = true
covers (one_repository name) (repository target) = name == target
covers (one_repository name) operator_data = false

pub record RoleGrant : Type 0 where
  pub user : Str
  pub role : Role
  pub scope : GrantScope

unfoldable pub permits : RoleGrant → Scope → Resource → Bool
unfolding carries covers
permits grant scope resource = carries grant.role scope && covers grant.scope resource

unfoldable pub grants_permit : List RoleGrant → Scope → Resource → Bool
unfolding permits
grants_permit grants scope resource = any (λ grant. permits grant scope resource) grants

-- Which role may do what: reading operator data is for administrators and operators, each repository
-- scope for the roles that the source's documentation gives it to.
abbrev pub MayDo : Scope → Role → Type 0
MayDo repository_read role =
    (role ≡ administrator) ⊎ (role ≡ repository_publisher) ⊎ (role ≡ repository_reader)
MayDo repository_write role = (role ≡ administrator) ⊎ (role ≡ repository_publisher)
MayDo repository_delete role = (role ≡ administrator) ⊎ (role ≡ repository_publisher)
MayDo operator_read role = (role ≡ administrator) ⊎ (role ≡ operator)

abbrev pub Reaches : GrantScope → Resource → Type 0
Reaches reach resource =
    (reach ≡ server) ⊎ ((name : Str) × (reach ≡ one_repository name) × (resource ≡ repository name))

carries_iff : (role : Role) (scope : Scope) → (carries role scope ≡ true) ↔ MayDo scope role
unfolding carries
carries_iff role scope = (λ h. ground arith, λ h. ground arith)

covers_iff :
    (reach : GrantScope) (resource : Resource)
    → (covers reach resource ≡ true) ↔ Reaches reach resource
unfolding covers
covers_iff server resource = (λ h. inl refl, λ h. refl)
covers_iff (one_repository name) (repository target) = (
  λ h.
      let e : name ≡ target = (list_beq_iff name target).0 h in
      inr (name, refl, sym (ap repository e)),
  λ h. elim h [
    | inl e ↦ cc
    | inr (n, e, e') ↦ let q : name ≡ target = cc in (list_beq_iff name target).1 q
  ],
)
covers_iff (one_repository name) operator_data =
    (λ h. cc, λ h. elim h [ inl e ↦ cc | inr (n, e, e') ↦ cc ])

-- A user's grants permit a scope on a resource exactly if one of them has a role for the scope and is
-- for the whole server or for this repository. A grant for one repository never reaches operator data.
pub grants_permit_iff :
    (grants : List RoleGrant) (scope : Scope) (resource : Resource)
    → (grants_permit grants scope resource ≡ true)
      ↔ Any (λ (grant : RoleGrant). MayDo scope grant.role × Reaches grant.scope resource) grants
unfolding grants_permit permits
grants_permit_iff grants scope resource = (
  any→Any _ _ grants (λ grant h. (
    (carries_iff grant.role scope).0 (ground arith),
    (covers_iff grant.scope resource).0 (ground arith),
  )),
  Any→any _ _ grants (λ grant h.
      let c = (carries_iff grant.role scope).1 h.0 in
      let r = (covers_iff grant.scope resource).1 h.1 in rw (c, r) refl),
)
