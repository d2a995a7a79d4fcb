-- ===== src/Intake/Service/Access.antt =====
-- What the handlers do for a caller without access.
use doc_lens.Base.{
  String, ◌≡◌, ◌≢◌, ◌⊎◌, refl, ◌∙◌, [], ◌∷◌, All, some, none, Result, ok, err, ◌>>=◌, trim_space,
  trim_space_idem,
}
use doc_lens.Rpc.{Status, Context, Metadata, unauthenticated, permission_denied}
use doc_lens.Intake.Authz.{
  Permission, permission_create, permission_read, permission_upload, require,
}
use doc_lens.Intake.Authz.Access.{IsAllowed, require_ok_iff, require_error_code}
use doc_lens.Intake.Messages.{
  CreateDocumentRequest, GetDocumentRequest, GetDocumentStatusRequest, UploadDocumentRequest,
  CreateUploadIntentRequest, CompleteUploadRequest,
}
use doc_lens.Intake.Service.{External, Inputs, Service, State}
use doc_lens.Intake.Service.Documents.{create_document, get_document, get_document_status}
use doc_lens.Intake.Service.Uploads.{upload_document}
use doc_lens.Intake.Service.Intents.{create_upload_intent, complete_upload}

-- The caller is unknown, or claims another organization or no role that is known.
abbrev pub IsOutsider : Context → String → Type 0
IsOutsider ctx organization_id =
    ¬ ((md : Metadata) × (ctx.metadata ≡ some md) × IsAllowed md organization_id)

-- A call that only answers: unauthenticated without metadata, and denied with it.
abbrev pub IsRefused : {T A : Type 0} → Context → T → Result Status A × T → Type 0
IsRefused ctx s r =
    (e : Status) × (r ≡ (err e, s))
    × (((ctx.metadata ≡ none) × (e.code ≡ unauthenticated))
        ⊎ ((ctx.metadata ≢ none) × (e.code ≡ permission_denied)))

require_refuses :
    (ctx : Context) (org : String) (p : Permission)
    → IsOutsider ctx org
    → (e : Status) × (require ctx (trim_space org) p ≡ err e)
require_refuses ctx org p h = either (require ctx (trim_space org) p) refl
  where
    either :
        (r : Result Status Unit)
        → require ctx (trim_space org) p ≡ r
        → (e : Status) × (require ctx (trim_space org) p ≡ err e)
    either (err e) k = (e, k)
    either (ok done) k =
        let (md, found, a) = (require_ok_iff ctx (trim_space org) p).0 k in
        absurd (
          h (
            md,
            found,
            record {
              names_organization = a.names_organization;
              same_organization = a.same_organization ∙ trim_space_idem org;
              has_role = a.has_role;
            },
          ))

module _ {S W : Type 0} (x : External) (svc : Service S W) (i : Inputs) (ctx : Context)
    (s : State S W) where
  -- A caller without metadata, or whose metadata claims no organization or another than the request
  -- names, or has no known role, is refused by every handler, with the code unauthenticated without
  -- metadata and permission_denied with it, whatever the store and the storage would do: nothing is
  -- stored, put or counted, and no upload slot or token is used.
  pub outsider-IsRefused :
      (c : CreateDocumentRequest) (g : GetDocumentRequest) (h : GetDocumentStatusRequest)
      (u : UploadDocumentRequest) (n : CreateUploadIntentRequest) (f : CompleteUploadRequest)
      → All (IsOutsider ctx) (
          c.organization_id ∷ g.organization_id ∷ h.organization_id ∷ u.organization_id
          ∷ n.organization_id ∷ f.organization_id ∷ [])
      → IsRefused ctx s (create_document x svc i ctx (some c) s)
        × IsRefused ctx s (get_document x svc ctx (some g) s)
        × IsRefused ctx s (get_document_status x svc ctx (some h) s)
        × IsRefused ctx s (upload_document x svc i ctx (some u) s)
        × IsRefused ctx s (create_upload_intent x svc i ctx (some n) s)
        × IsRefused ctx s (complete_upload x svc i ctx (some f) s)
  unfolding create_document get_document get_document_status upload_document create_upload_intent
      complete_upload ◌>>=◌
  outsider-IsRefused c g h u n f (oc, (og, (oh, (ou, (on, (of, _)))))) =
      let (ec, pc) = require_refuses ctx c.organization_id permission_create oc in
      let (eg, pg) = require_refuses ctx g.organization_id permission_read og in
      let (eh, ph) = require_refuses ctx h.organization_id permission_read oh in
      let (eu, pu) = require_refuses ctx u.organization_id permission_upload ou in
      let (en, pn) = require_refuses ctx n.organization_id permission_upload on in
      let (ef, pf) = require_refuses ctx f.organization_id permission_upload of in
      (
        (ec, rw pc refl, require_error_code ctx _ _ ec pc),
        (eg, rw pg refl, require_error_code ctx _ _ eg pg),
        (eh, rw ph refl, require_error_code ctx _ _ eh ph),
        (eu, rw pu refl, require_error_code ctx _ _ eu pu),
        (en, rw pn refl, require_error_code ctx _ _ en pn),
        (ef, rw pf refl, require_error_code ctx _ _ ef pf),
      )
