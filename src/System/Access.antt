-- ===== src/System/Access.antt =====
-- The gateway's metadata at the document intake service.
use doc_lens.Base.{
  ◌≡◌, ◌≢◌, ◌↔◌, refl, sym, ap, subst, ◌∙◌, String, inl, inr, List, [], ◌∷◌, Option, some, All, Any,
  lookup, ok, arith, string_eq, trim_space, to_lower, split, split-join, join, Lacks,
}
use doc_lens.Rpc.{Metadata, get}
use doc_lens.Tokens.{Claims}
use doc_lens.Intake.Authz.{Permission, require, first}
use doc_lens.Intake.Authz.Access.{known_roles, HasKnownRole, require_ok_iff}
use doc_lens.Gateway.Http.{Request}
use doc_lens.Gateway.Handlers.{organization_id, identity_metadata}
use doc_lens.Gateway.Handlers.Scope.{claimed_organization}

abbrev token_metadata : Claims → Metadata
token_metadata claims =
    ("x-organization-id", claims.organization_id ∷ [])
    ∷ ("x-user-id", claims.subject ∷ [])
    ∷ ("x-roles", join claims.roles "," ∷ [])
    ∷ []

metadata_of_token :
    (r : Request) (claims : Claims) (org : String)
    → r.claims ≡ some claims
    → (identity_metadata r org).metadata ≡ some (token_metadata claims)
unfolding identity_metadata
metadata_of_token r claims org has = rw has refl

some_inj : (a b : Metadata) → Path (Option Metadata) (some a) (some b) → a ≡ b
some_inj a b e = ground arith

-- The roles that the gateway joins, the service splits again.
split_roles :
    (claims : Claims) (role : String) (roles : List String)
    → claims.roles ≡ role ∷ roles
    → All (Lacks ",") (role ∷ roles)
    → split (join claims.roles ",") "," ≡ role ∷ roles
split_roles claims role roles listed (lacks, others) =
    rw listed (split-join "," role roles lacks others)

abbrev IsKnown : String → Type 0
IsKnown value = Any (λ k. to_lower (trim_space value) ≡ k) known_roles

one_entry : (t : String) → HasKnownRole (t ∷ []) → Any IsKnown (split t ",")
one_entry t (inl x) = x
one_entry t (inr x) = absurd x

-- A request with a token that names an organization, by a user whose roles have no commas, gets
-- past the intake service's access check, for any permission and whatever organization the request
-- itself names, exactly when one of the user's roles is a known one, up to case and outer spaces.
pub gateway_metadata_passes_iff :
    (r : Request) (claims : Claims) (role : String) (roles : List String) (fallback : String)
    (p : Permission)
    → r.claims ≡ some claims
    → trim_space claims.organization_id ≢ ""
    → claims.organization_id ≢ ""
    → claims.roles ≡ role ∷ roles
    → All (Lacks ",") (role ∷ roles)
    → (require (identity_metadata r (organization_id r fallback)) (organization_id r fallback) p
        ≡ ok tt)
      ↔ Any (λ value. Any (λ k. to_lower (trim_space value) ≡ k) known_roles) (role ∷ roles)
unfolding get lookup first
gateway_metadata_passes_iff r claims role roles fallback p has named whole listed lacks =
    (passes, lets_pass)
  where
    org : organization_id r fallback ≡ claims.organization_id
    org = claimed_organization r claims fallback has whole

    md : (identity_metadata r (organization_id r fallback)).metadata ≡ some (token_metadata claims)
    md = metadata_of_token r claims (organization_id r fallback) has

    pieces : split (join claims.roles ",") "," ≡ role ∷ roles
    pieces = split_roles claims role roles listed lacks

    passes :
        require (identity_metadata r (organization_id r fallback)) (organization_id r fallback) p
          ≡ ok tt
        → Any IsKnown (role ∷ roles)
    passes h =
        let (m, e, a) = (require_ok_iff _ (organization_id r fallback) p).0 h in
        let same = some_inj m (token_metadata claims) (sym e ∙ md) in
        subst (Any IsKnown) pieces (
          one_entry (join claims.roles ",")
            (subst (λ n. HasKnownRole (get n "x-roles")) same a.has_role))

    lets_pass :
        Any IsKnown (role ∷ roles)
        → require (identity_metadata r (organization_id r fallback)) (organization_id r fallback) p
          ≡ ok tt
    lets_pass k = (require_ok_iff _ (organization_id r fallback) p).1 (
      token_metadata claims,
      md,
      record {
        names_organization = named;
        same_organization = ap trim_space (sym org);
        has_role = inl (subst (Any IsKnown) (sym pieces) k);
      },
    )
