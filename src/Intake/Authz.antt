-- ===== src/Intake/Authz.antt =====
-- doclens-document-intake-service/internal/authz/authz.go and interceptor.go
pub mod Access
use doc_lens.Base.{
  String, Bool, true, false, ◌||◌, ◌&&◌, not, List, [], ◌∷◌, Option, none, some, ◌==◌, string_eq,
  if◌then◌else◌, any, Result, ok, err, trim_space, to_lower, split,
}
use doc_lens.Rpc
use doc_lens.Rpc.{Status, Context, Metadata, error, unauthenticated, permission_denied}

pub data Permission : Type 0 where
  permission_read permission_create permission_upload : Permission

unfoldable pub first : List String → String
first [] = ""
first (v ∷ vs) = v

-- The two cases of the source's switch list the same roles; its `default` is unreachable here.
unfoldable pub grants : String → Permission → Bool
grants role permission_read =
    role == "platform_admin"
    || role == "org_admin"
    || role == "reviewer"
    || role == "analyst"
    || role == "user"
    || role == "member"
grants role permission_create =
    role == "platform_admin"
    || role == "org_admin"
    || role == "reviewer"
    || role == "analyst"
    || role == "user"
    || role == "member"
grants role permission_upload =
    role == "platform_admin"
    || role == "org_admin"
    || role == "reviewer"
    || role == "analyst"
    || role == "user"
    || role == "member"

-- The two nested loops over the roles and their comma-separated values.
unfoldable pub any_grants : List String → Permission → Bool
any_grants roles permission =
    any (λ role. any (λ value. grants (to_lower (trim_space value)) permission) (split role ","))
      roles

unfoldable pub check_roles : List String → Permission → Result Status Unit
check_roles [] permission = err (error permission_denied "authenticated roles are required")
check_roles (role ∷ roles) permission =
    if any_grants (role ∷ roles) permission
    then ok tt
    else err (error permission_denied "role is not allowed for this operation")

unfoldable pub check_scope : Metadata → String → Permission → Result Status Unit
check_scope md organization_id permission =
    let claimed_organization = trim_space (first (Rpc.get md "x-organization-id")) in
    if claimed_organization == "" || not (claimed_organization == trim_space organization_id)
    then err (error permission_denied "organization scope does not match authenticated identity")
    else check_roles (Rpc.get md "x-roles") permission

-- `Require`
unfoldable pub require : Context → String → Permission → Result Status Unit
unfolding check_scope check_roles
require ctx organization_id permission = elim ctx.metadata [
  | none ↦ err (error unauthenticated "authenticated gateway metadata is required")
  | some md ↦ check_scope md organization_id permission
]

-- `UnaryServerInterceptor`: every method but the health check wants metadata.
unfoldable pub intercept :
    {A : Type 0} → Context → String → (Context → Result Status A) → Result Status A
intercept ctx full_method handler =
    if full_method == "/grpc.health.v1.Health/Check" then handler ctx else elim ctx.metadata [
      | none ↦ err (error unauthenticated "authenticated gateway metadata is required")
      | some _ ↦ handler ctx
    ]
