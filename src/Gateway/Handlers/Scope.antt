-- ===== src/Gateway/Handlers/Scope.antt =====
-- Whose data the handlers ask the services for.
use doc_lens.Base.{
  ◌≡◌, ◌≢◌, refl, String, some, Exec, Result, ok, err, ◌>>=◌, arith, eq_iff, string_eq,
}
use doc_lens.Rpc.{Context}
use doc_lens.Tokens.{Claims}
use doc_lens.Intake.Messages.{
  CreateDocumentRequest, GetDocumentRequest, UploadDocumentRequest, GetDocumentStatusRequest,
}
use doc_lens.Gateway.Http.{Request, Failure}
use doc_lens.Gateway.Handlers.{
  Clients, Decoders, StartVerificationRequest, GetVerificationRequest, organization_id, upstream,
  create_document, get_document, upload_document, get_document_status, start_verification,
  get_verification,
}

-- The two services answer alike, and change the same, on requests about the organization.
pub record AgreeOn {W : Type 0} (org : String) (h k : Clients W) : Type 0 where
  pub create_document :
      (ctx : Context) (q : CreateDocumentRequest) (w : W)
      → q.organization_id ≡ org
      → h.create_document ctx q w ≡ k.create_document ctx q w
  pub get_document :
      (ctx : Context) (q : GetDocumentRequest) (w : W)
      → q.organization_id ≡ org
      → h.get_document ctx q w ≡ k.get_document ctx q w
  pub upload_document :
      (ctx : Context) (q : UploadDocumentRequest) (w : W)
      → q.organization_id ≡ org
      → h.upload_document ctx q w ≡ k.upload_document ctx q w
  pub get_document_status :
      (ctx : Context) (q : GetDocumentStatusRequest) (w : W)
      → q.organization_id ≡ org
      → h.get_document_status ctx q w ≡ k.get_document_status ctx q w
  pub start_verification :
      (q : StartVerificationRequest) (w : W)
      → q.organization_id ≡ org
      → h.start_verification q w ≡ k.start_verification q w
  pub get_verification :
      (q : GetVerificationRequest) (w : W)
      → q.organization_id ≡ org
      → h.get_verification q w ≡ k.get_verification q w

module _ {S E A B : Type 0} where
  bind_same :
      (m : Exec S E A) (f g : A → Exec S E B) (s : S)
      → ((a : A) (t : S) → f a t ≡ g a t)
      → (m >>= f) s ≡ (m >>= g) s
  unfolding ◌>>=◌
  bind_same m f g s h = go (m s).0 (m s).1
    where
      go :
          (r : Result E A) (t : S)
          → unfold ◌>>=◌ in (((λ _. (r, t)) >>= f) s ≡ ((λ _. (r, t)) >>= g) s)
      go (ok a) t = h a t
      go (err e) t = refl

  bind_first :
      (m n : Exec S E A) (f : A → Exec S E B) (s : S) → m s ≡ n s → (m >>= f) s ≡ (n >>= f) s
  unfolding ◌>>=◌
  bind_first m n f s e = rw e refl

upstream_same :
    {W A : Type 0} (m n : Exec W Failure A) (w : W) → m w ≡ n w → upstream m w ≡ upstream n w
unfolding upstream
upstream_same m n w e = rw e refl

pub claimed_organization :
    (r : Request) (claims : Claims) (fallback : String)
    → r.claims ≡ some claims
    → claims.organization_id ≢ ""
    → organization_id r fallback ≡ claims.organization_id
unfolding organization_id
claimed_organization r claims fallback has named = ground (arith, eq_iff claims.organization_id "")

-- With a token that names an organization, the document and verification handlers ask only about
-- that organization, whatever organization the body or the query names: two sets of services that
-- agree on it give the same answers and end in the same state.
pub only_claimed_organization :
    {W : Type 0} (d : Decoders) (h k : Clients W) (r : Request) (claims : Claims) (w : W)
    → r.claims ≡ some claims
    → claims.organization_id ≢ ""
    → AgreeOn claims.organization_id h k
    → (create_document d h r w ≡ create_document d k r w)
      × (get_document d h r w ≡ get_document d k r w)
      × (upload_document d h r w ≡ upload_document d k r w)
      × (get_document_status d h r w ≡ get_document_status d k r w)
      × (start_verification d h r w ≡ start_verification d k r w)
      × (get_verification d h r w ≡ get_verification d k r w)
unfolding create_document get_document upload_document get_document_status start_verification
    get_verification
only_claimed_organization d h k r claims w has named agree = (
  bind_same _ _ _ w λ req w. bind_same _ _ _ w λ _ w. bind_same _ _ _ w λ content w.
      bind_first _ _ _ w
        (upstream_same _ _ w (agree.create_document _ _ w (claimed req.organization_id))),
  bind_same _ _ _ w
      λ _ w. bind_first _ _ _ w (upstream_same _ _ w (agree.get_document _ _ w (claimed _))),
  bind_same _ _ _ w λ req w. bind_same _ _ _ w λ _ w. bind_same _ _ _ w λ content w.
      bind_first _ _ _ w (upstream_same _ _ w (agree.upload_document _ _ w (claimed _))),
  bind_same _ _ _ w
      λ _ w. bind_first _ _ _ w (upstream_same _ _ w (agree.get_document_status _ _ w (claimed _))),
  bind_same _ _ _ w λ req w.
      bind_same _ _ _ w
        λ _ w. bind_first _ _ _ w (upstream_same _ _ w (agree.start_verification _ w (claimed _))),
  bind_same _ _ _ w
      λ _ w. bind_first _ _ _ w (upstream_same _ _ w (agree.get_verification _ w (claimed _))),
)
  where
    claimed : (fallback : String) → organization_id r fallback ≡ claims.organization_id
    claimed fallback = claimed_organization r claims fallback has named
