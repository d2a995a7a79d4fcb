-- ===== src/Intake/Authz/Access.antt =====
-- Who passes `Require` of doclens-document-intake-service/internal/authz/authz.go.
use doc_lens.Base.{
  ◌≡◌, ◌≢◌, ◌↔◌, ◌⊎◌, inl, inr, String, true, List, [], ◌∷◌, none, some, arith, eq_iff, string_eq,
  Any, any_iff, ok, err, trim_space, to_lower, split, Bool-cases, Option-cases,
}
use doc_lens.Rpc
use doc_lens.Rpc.{Code, Status, Context, Metadata, unauthenticated, permission_denied}
use doc_lens.Intake.Authz.{
  Permission, permission_read, first, grants, any_grants, check_roles, check_scope, require,
}

-- The roles that a deployment may give a user of the intake service.
abbrev pub known_roles : List String
known_roles = "platform_admin" ∷ "org_admin" ∷ "reviewer" ∷ "analyst" ∷ "user" ∷ "member" ∷ []

pub grants_iff : (r : String) (p : Permission) → (grants r p ≡ true) ↔ Any (λ k. r ≡ k) known_roles
unfolding grants
grants_iff r permission_read = ground (
  arith,
  eq_iff r "platform_admin",
  eq_iff r "org_admin",
  eq_iff r "reviewer",
  eq_iff r "analyst",
  eq_iff r "user",
  eq_iff r "member",
)
grants_iff r _ = ground (
  arith,
  eq_iff r "platform_admin",
  eq_iff r "org_admin",
  eq_iff r "reviewer",
  eq_iff r "analyst",
  eq_iff r "user",
  eq_iff r "member",
)

-- Some comma-separated value of some role entry is a known role, up to case and outer spaces.
abbrev pub HasKnownRole : List String → Type 0
HasKnownRole =
    Any
      λ role. Any (λ value. Any (λ k. to_lower (trim_space value) ≡ k) known_roles) (split role ",")

pub any_grants_iff :
    (roles : List String) (p : Permission) → (any_grants roles p ≡ true) ↔ HasKnownRole roles
unfolding any_grants
any_grants_iff roles p =
    any_iff _ _
      (λ role. any_iff _ _ (λ value. grants_iff (to_lower (trim_space value)) p) (split role ","))
      roles

-- The organization that the caller's metadata claims.
abbrev pub claimed : Metadata → String
claimed md = trim_space (first (Rpc.get md "x-organization-id"))

pub record IsAllowed (md : Metadata) (organization_id : String) : Type 0 where
  pub names_organization : claimed md ≢ ""
  pub same_organization : claimed md ≡ trim_space organization_id
  pub has_role : HasKnownRole (Rpc.get md "x-roles")

check_roles_iff :
    (roles : List String) (p : Permission) → (check_roles roles p ≡ ok tt) ↔ HasKnownRole roles
unfolding check_roles
check_roles_iff [] p = (λ e. cc, λ h. absurd h)
check_roles_iff (r ∷ rs) p = elim (Bool-cases (any_grants (r ∷ rs) p)) [
  | inl e ↦ (λ _. (any_grants_iff (r ∷ rs) p).0 e, λ _. rw e)
  | inr e ↦ (λ h. cc, λ h. cc (e, (any_grants_iff (r ∷ rs) p).1 h))
]

check_scope_iff :
    (md : Metadata) (organization_id : String) (p : Permission)
    → (check_scope md organization_id p ≡ ok tt) ↔ IsAllowed md organization_id
unfolding check_scope
check_scope_iff md organization_id p = ground (
  arith,
  eq_iff (claimed md) "",
  eq_iff (claimed md) (trim_space organization_id),
  check_roles_iff (Rpc.get md "x-roles") p,
)

-- `Require` lets a call pass exactly when it carries metadata that claims the (non-blank)
-- organization of the request and has a known role.
pub require_ok_iff :
    (ctx : Context) (organization_id : String) (p : Permission)
    → (require ctx organization_id p ≡ ok tt)
      ↔ ((md : Metadata) × (ctx.metadata ≡ some md) × IsAllowed md organization_id)
unfolding require
require_ok_iff ctx organization_id p = (passes (Option-cases ctx.metadata), lets_pass)
  where
    passes :
        ((ctx.metadata ≡ none) ⊎ ((md : Metadata) × (ctx.metadata ≡ some md)))
        → require ctx organization_id p ≡ ok tt
        → (md : Metadata) × (ctx.metadata ≡ some md) × IsAllowed md organization_id
    passes (inl e) h = ground arith
    passes (inr (md, e)) h = (md, e, (check_scope_iff md organization_id p).0 (ground arith))

    lets_pass :
        ((md : Metadata) × (ctx.metadata ≡ some md) × IsAllowed md organization_id)
        → require ctx organization_id p ≡ ok tt
    lets_pass (md, e, a) = rw (e, require) ((check_scope_iff md organization_id p).1 a)

-- A refused call is unauthenticated without metadata, and denied with it.
pub require_error_code :
    (ctx : Context) (organization_id : String) (p : Permission) (e : Status)
    → require ctx organization_id p ≡ err e
    → ((ctx.metadata ≡ none) × (e.code ≡ unauthenticated))
      ⊎ ((ctx.metadata ≢ none) × (e.code ≡ permission_denied))
unfolding require check_scope check_roles
require_error_code ctx organization_id p e h = ground arith
