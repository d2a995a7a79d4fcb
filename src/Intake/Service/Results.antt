-- ===== src/Intake/Service/Results.antt =====
-- What the handlers promise over the in-memory store.
use doc_lens.Base.{
  ℕ, ◌≡◌, refl, sym, subst, ◌∙◌, String, Bool, true, false, inl, inr, Option, none, some, Exec,
  lift, check, require_some, ◌⊎◌, Result, ok, err, ◌>>=◌, ◌>>◌, arith, string_eq, trim_space,
}
use doc_lens.Rpc.{Status, Context}
use doc_lens.Intake.Types.{UploadRecord, Document, ObjectStorage}
use doc_lens.Intake.Memory.{find_key}
use doc_lens.Intake.Messages.{UploadDocumentRequest}
use doc_lens.Intake.Metrics.{IntakeMetrics, worker_started, worker_finished, upload_rejected}
use doc_lens.Intake.Pool
use doc_lens.Intake.Pool.{UploadPool, acquire}
use doc_lens.Intake.Service.{
  External, Inputs, Service, State, on_store, on_pool, on_metrics, finish, after_acquire, with_pool,
  with_slot,
}
use doc_lens.Intake.Service.Uploads.{answer_of, upload_found, upload_in_slot, upload_document}

-- What a call leaves alone when it only reads: the store and the world outside.
pub record OnlyReads {S W : Type 0} (s t : State S W) : Type 0 where
  pub same_store : t.stored ≡ s.stored
  pub same_world : t.world ≡ s.world

retried_in_slot :
    {S W : Type 0} (x : External) (svc : Service S W) (storage : ObjectStorage W) (i : Inputs)
    (req : UploadDocumentRequest) (doc : Document) (existing : UploadRecord) (s : State S W)
    → svc.store.get_document (trim_space req.organization_id) (trim_space req.document_id) s.stored
      ≡ (ok doc, s.stored)
    → find_key req.idempotency_key doc.uploads ≡ some existing
    → upload_in_slot x svc storage i req s ≡ (ok (answer_of existing), s)
unfolding upload_in_slot upload_found on_store ◌>>=◌
retried_in_slot x svc storage i req doc existing s loaded known = rw loaded (rw known refl)

-- A call that only reads, and whose answer can only be `a`.
record Answers {S W A : Type 0} (a : A) (s : State S W) (r : Result Status A × State S W)
    : Type 0 where
  only_reads : OnlyReads s r.1
  answer : (r.0 ≡ ok a) ⊎ ((e : Status) × (r.0 ≡ err e))

module _ {S W : Type 0} where
  on_metrics_reads :
      (f : IntakeMetrics → IntakeMetrics) (s : State S W) → OnlyReads s (on_metrics f s)
  unfolding on_metrics
  on_metrics_reads f s = record { same_store = ground arith; same_world = ground arith }

  on_pool_reads : (f : UploadPool → UploadPool) (s : State S W) → OnlyReads s (on_pool f s)
  unfolding on_pool
  on_pool_reads f s = record { same_store = ground arith; same_world = ground arith }

  reads_then : (s t u : State S W) → OnlyReads s t → OnlyReads t u → OnlyReads s u
  reads_then s t u a b = record {
    same_store = b.same_store ∙ a.same_store;
    same_world = b.same_world ∙ a.same_world;
  }

no_change : {S W : Type 0} (s : State S W) → OnlyReads s s
no_change s = record { same_store = refl; same_world = refl }

module _ {S W A : Type 0} where
  refused : (a : A) (e : Status) (s t : State S W) → OnlyReads s t → Answers a s (err e, t)
  refused a e s t reads = record { only_reads = reads; answer = inr (e, refl) }

  same-Answers : (a : A) (s t : State S W) → OnlyReads s t → Answers a s (ok a, t)
  same-Answers a s t reads = record { only_reads = reads; answer = inl refl }

  slot-Answers :
      (now : ℕ) (org : String) (o : Option UploadPool) (body : Exec (State S W) Status A) (a : A)
      (s : State S W)
      → ((t : State S W) → OnlyReads s t → body t ≡ (ok a, t))
      → Answers a s (with_pool now org o body s)
  slot-Answers now org none body a s h =
      unfold with_pool in
      rw (h s (record { same_store = refl; same_world = refl }))
        (same-Answers a s s (record { same_store = refl; same_world = refl }))
  slot-Answers now org (some p) body a s h =
      unfold with_pool in acquired (acquire now org p).0 (acquire now org p).1
    where
      ran : (t : State S W) → OnlyReads s t → Answers a s ((body t).0, finish (body t).1)
      ran t before =
          let e : body t ≡ (ok a, t) = h t before in
          unfold finish in
          rw e (
            same-Answers a s _ (
              reads_then _ _ _ before (
                reads_then _ _ _ (on_pool_reads Pool.release _)
                  (on_metrics_reads worker_finished _))))

      acquired :
          (r : Result String Unit) (q : UploadPool) → Answers a s (after_acquire (r, q) body s)
      acquired (err e) q =
          unfold after_acquire in
          refused a _ s _ (
            reads_then _ _ _ (record { same_store = refl; same_world = refl })
              (on_metrics_reads upload_rejected _))
      acquired (ok _) q =
          unfold after_acquire in
          ran (on_metrics worker_started (record s { pool = some q })) (
            reads_then _ _ _ (record { same_store = refl; same_world = refl })
              (on_metrics_reads worker_started (record s { pool = some q })))

  after_check :
      (a : A) (s : State S W) (b : Bool) (e : Status) (m : Exec (State S W) Status A)
      → Answers a s (m s)
      → Answers a s ((check b e >> m) s)
  unfolding ◌>>=◌
  after_check a s true e m h = h
  after_check a s false e m h = refused a e s s (no_change s)

module _ {S W A B : Type 0} (a : A) (s : State S W) where
  after_lift :
      (r : Result Status B) (m : B → Exec (State S W) Status A)
      → ((b : B) → Answers a s (m b s))
      → Answers a s ((lift r >>= m) s)
  unfolding ◌>>=◌
  after_lift (ok b) m h = h b
  after_lift (err e) m h = refused a e s s (no_change s)

  after_require :
      (o : Option B) (e : Status) (m : B → Exec (State S W) Status A)
      → ((b : B) → Answers a s (m b s))
      → Answers a s ((require_some o e >>= m) s)
  unfolding ◌>>=◌
  after_require (some b) e m h = h b
  after_require none e m h = refused a e s s (no_change s)

  after_some :
      (b : B) (e : Status) (m : B → Exec (State S W) Status A)
      → Answers a s (m b s)
      → Answers a s ((require_some (some b) e >>= m) s)
  unfolding ◌>>=◌
  after_some b e m h = h

retry-Answers :
    {S W : Type 0} (x : External) (svc : Service S W) (i : Inputs) (ctx : Context)
    (req : UploadDocumentRequest) (doc : Document) (existing : UploadRecord) (s : State S W)
    → ((storage : ObjectStorage W) (t : State S W)
        → OnlyReads s t
        → upload_in_slot x svc storage i req t ≡ (ok (answer_of existing), t))
    → Answers (answer_of existing) s (upload_document x svc i ctx (some req) s)
unfolding upload_document with_slot
retry-Answers x svc i ctx req doc existing s in_slot = after_some _ s _ _ _ (
    after_lift _ s _ _ λ _. after_check _ s _ _ _ (
      after_check _ s _ _ _ (
        after_check _ s _ _ _ (
          after_check _ s _ _ _ (
            after_check _ s _ _ _ (
              after_check _ s _ _ _ (
                after_require _ s _ _ _ λ storage.
                  slot-Answers (i.now 0) (trim_space req.organization_id) s.pool _ _ s
                    (in_slot storage))))))))

-- Uploading again with the idempotency key of an upload that the document has puts no object,
-- stores nothing and sends nothing, whatever the rest of the request is; and where the call is
-- let through, its answer names the stored upload, its document, its object and its checksum.
pub upload_retry :
    {S W : Type 0} (x : External) (svc : Service S W) (i : Inputs) (ctx : Context)
    (req : UploadDocumentRequest) (doc : Document) (existing : UploadRecord) (s : State S W)
    → svc.store.get_document (trim_space req.organization_id) (trim_space req.document_id) s.stored
      ≡ (ok doc, s.stored)
    → find_key req.idempotency_key doc.uploads ≡ some existing
    → ((upload_document x svc i ctx (some req) s).1.stored ≡ s.stored)
      × ((upload_document x svc i ctx (some req) s).1.world ≡ s.world)
      × ((upload_document x svc i ctx (some req) s).0
            ≡ ok (record {
              upload_id = existing.id;
              document_id = existing.document_id;
              storage_ref = existing.storage_ref;
              checksum = existing.checksum;
            })
          ⊎ ((e : Status) × ((upload_document x svc i ctx (some req) s).0 ≡ err e)))
upload_retry x svc i ctx req doc existing s loaded known =
    let answers = retry-Answers x svc i ctx req doc existing s λ storage t reads.
      retried_in_slot x svc storage i req doc existing t
        (subst
          (λ v.
            svc.store.get_document (trim_space req.organization_id) (trim_space req.document_id) v
            ≡ (ok doc, v))
          (sym reads.same_store) loaded)
        known in
    (answers.only_reads.same_store, answers.only_reads.same_world, answers.answer)
