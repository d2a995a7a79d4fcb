-- ===== src/Intake/Tests/Access.antt =====
-- The access check at concrete inputs.
use doc_lens.Base.{◌≡◌, ◌↔◌, [], ◌∷◌, none, some, ok}
use doc_lens.Rpc.{Context, Metadata}
use doc_lens.Intake.Authz.{require, permission_upload}
use doc_lens.Intake.Authz.Access.{IsAllowed, require_ok_iff}

abbrev as_member : Context
as_member = record {
  metadata = some (("x-organization-id", "org_1" ∷ []) ∷ ("x-roles", "viewer, Member" ∷ []) ∷ []);
}

abbrev nobody : Context
nobody = record { metadata = none }

require_ok_iff_example :
    (require as_member "org_1" permission_upload ≡ ok tt)
    ↔ ((md : Metadata) × (as_member.metadata ≡ some md) × IsAllowed md "org_1")
require_ok_iff_example = require_ok_iff as_member "org_1" permission_upload
