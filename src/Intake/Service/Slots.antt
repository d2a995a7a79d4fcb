-- ===== src/Intake/Service/Slots.antt =====
-- The upload pool over a call of `UploadDocument`.
use doc_lens.Base.{
  ℕ, ◌+◌, ◌-◌, ◌≡◌, refl, sym, ap, ◌∙◌, String, Option, none, some, inl, inr, Result, ok, err, Exec,
  arith, Moves, Preorder, Moves-bind, Moves-pure, Moves-lift, Moves-check, Moves-require_some,
  Option-cases,
}
use doc_lens.Rpc.{Status, Context}
use doc_lens.Intake.Types.{StoreError, UploadRecord, Document, OutboxEvent, ObjectStorage}
use doc_lens.Intake.Messages.{UploadDocumentRequest}
use doc_lens.Intake.Metrics.{IntakeMetrics}
use doc_lens.Intake.Pool
use doc_lens.Intake.Pool.{UploadPool, acquire, take, put_bucket, release, success}
use doc_lens.Intake.Memory.{find_key}
use doc_lens.Intake.Service.{
  External, Inputs, Service, State, on_store, on_world, on_pool, on_metrics, finish, after_acquire,
  with_pool, with_slot,
}
use doc_lens.Intake.Service.Uploads.{
  note_put, put_content, persist_upload, upload_new, upload_found, upload_in_slot, upload_document,
  answer_of,
}

-- The uploads in flight, where there is a pool.
abbrev slots : Option UploadPool → Option ℕ
slots none = none
slots (some p) = some p.in_flight

unfoldable pub in_flight_of : {S W : Type 0} → State S W → Option ℕ
in_flight_of s = slots s.pool

pub record SameSlots {S W : Type 0} (s t : State S W) : Type 0 where
  pub same : in_flight_of t ≡ in_flight_of s

instance pub SameSlots-preorder : {S W : Type 0} → Preorder (SameSlots {S = S} {W = W})
SameSlots-preorder = record {
  reflexive = λ s. record { same = refl };
  transitive = λ s t u a b. record { same = b.same ∙ a.same };
}

module _ {S W : Type 0} where
  Moves-on_store :
      {A : Type 0} (m : Exec S StoreError A) (f : StoreError → Status) (s : State S W)
      → Moves SameSlots (on_store m f) s
  unfolding on_store in_flight_of
  Moves-on_store m f s = record { at = record { same = refl } }

  Moves-on_world :
      {A : Type 0} (m : Exec W String A) (f : String → Status) (s : State S W)
      → Moves SameSlots (on_world m f) s
  unfolding on_world in_flight_of
  Moves-on_world m f s = record { at = record { same = refl } }

  on_pool_same :
      (f : UploadPool → UploadPool) (g : IntakeMetrics → IntakeMetrics) (s : State S W)
      → ((p : UploadPool) → (f p).in_flight ≡ p.in_flight)
      → SameSlots s (on_metrics g (on_pool f s))
  unfolding on_pool on_metrics in_flight_of
  on_pool_same f g s h = elim (Option-cases s.pool) [
    | inl off ↦ record { same = ground (arith, off) }
    | inr (p, at) ↦ record { same = ground (arith, at, h p) }
  ]

  -- The pool alone.
  on_pool_slots :
      (f : UploadPool → UploadPool) (s : State S W)
      → ((p : UploadPool) → (f p).in_flight ≡ p.in_flight)
      → SameSlots s (on_pool f s)
  unfolding on_pool in_flight_of
  on_pool_slots f s h = elim (Option-cases s.pool) [
    | inl off ↦ record { same = ground (arith, off) }
    | inr (p, at) ↦ record { same = ground (arith, at, h p) }
  ]

success_slots : (p : UploadPool) → (success p).in_flight ≡ p.in_flight
unfolding success
success_slots p = refl

failure_slots : (now : ℕ) (p : UploadPool) → (Pool.failure now p).in_flight ≡ p.in_flight
unfolding Pool.failure
failure_slots now p = ground arith

module _ {S W : Type 0} (x : External) (svc : Service S W) where
  note_put_slots :
      (now size : ℕ) (r : Result Status String) (s : State S W)
      → SameSlots s (note_put x svc now size r s)
  unfolding note_put
  note_put_slots now size (err e) s = on_pool_slots (Pool.failure now) s (failure_slots now)
  note_put_slots now size (ok ref) s = on_pool_same success _ s success_slots

  Moves-put_content :
      (storage : ObjectStorage W) (i : Inputs) (req : UploadDocumentRequest) (s : State S W)
      → Moves SameSlots (put_content x svc storage i req) s
  unfolding put_content
  Moves-put_content storage i req s = record {
    at = SameSlots-preorder.transitive _ _ _ (Moves-on_world _ _ s).at (note_put_slots _ _ _ _);
  }

  Moves-persist_upload :
      (i : Inputs) (u : UploadRecord) (event : OutboxEvent) (s : State S W)
      → Moves SameSlots (persist_upload x svc i u event) s
  unfolding persist_upload
  Moves-persist_upload i u event s = elim (Option-cases svc.store.upload_document_and_queue) [
    | inl off ↦ rw off (
        Moves-bind _ _ s (Moves-on_store _ _ s)
          λ updated _. Moves-bind _ _ _ (Moves-on_world _ _ _) λ _ _. Moves-pure _ _)
    | inr (f, at) ↦ rw at (Moves-on_store _ _ s)
  ]

  Moves-upload_new :
      (storage : ObjectStorage W) (i : Inputs) (req : UploadDocumentRequest) (doc : Document)
      (s : State S W)
      → Moves SameSlots (upload_new x svc storage i req doc) s
  unfolding upload_new
  Moves-upload_new storage i req doc s =
      Moves-bind _ _ s (Moves-put_content storage i req s) λ ref _.
        Moves-bind _ _ _ (Moves-lift _ _)
          λ event _. Moves-bind _ _ _ (Moves-persist_upload i _ event _) λ updated _. Moves-pure _ _

  Moves-found :
      (known : Option UploadRecord) (storage : ObjectStorage W) (i : Inputs)
      (req : UploadDocumentRequest) (doc : Document) (s : State S W)
      → Moves SameSlots (upload_found x svc storage i req doc known) s
  unfolding upload_found
  Moves-found none storage i req doc s = Moves-upload_new storage i req doc s
  Moves-found (some e) storage i req doc s = Moves-pure (answer_of e) s

  Moves-upload_in_slot :
      (storage : ObjectStorage W) (i : Inputs) (req : UploadDocumentRequest) (s : State S W)
      → Moves SameSlots (upload_in_slot x svc storage i req) s
  unfolding upload_in_slot
  Moves-upload_in_slot storage i req s =
      Moves-bind _ _ s (Moves-on_store _ _ s)
        λ doc _. Moves-found (find_key req.idempotency_key doc.uploads) storage i req doc _

-- The slots after one more or one less upload.
abbrev one_less : Option ℕ → Option ℕ
one_less none = none
one_less (some n) = some (n - 1)

module _ {S W : Type 0} where
  finish_slots : (s : State S W) → in_flight_of (finish s) ≡ one_less (in_flight_of s)
  unfolding finish on_metrics on_pool in_flight_of release
  finish_slots s = ground arith

  started_slots :
      (m : IntakeMetrics → IntakeMetrics) (p : UploadPool) (s : State S W)
      → in_flight_of (on_metrics m (record s { pool = some p })) ≡ some p.in_flight
  unfolding on_metrics in_flight_of
  started_slots m p s = ground arith

abbrev taken : Result String Unit → ℕ → ℕ
taken (ok _) n = n + 1
taken (err _) n = n

acquire_slots :
    (now : ℕ) (org : String) (p : UploadPool)
    → (acquire now org p).1.in_flight ≡ taken (acquire now org p).0 p.in_flight
unfolding acquire take put_bucket
acquire_slots now org p = ground arith

restored : (n : ℕ) → n + 1 - 1 ≡ n
restored n = omega arith

module _ {S W A : Type 0} where
  after_acquire_slots :
      (r : Result String Unit) (p : UploadPool) (n : ℕ) (body : Exec (State S W) Status A)
      (s : State S W)
      → p.in_flight ≡ taken r n
      → ((t : State S W) → Moves SameSlots body t)
      → in_flight_of (after_acquire (r, p) body s).1 ≡ some n
  unfolding after_acquire
  after_acquire_slots (err e) p n body s h k = unfold in_flight_of on_metrics in ground arith
  after_acquire_slots (ok _) p n body s h k =
      finish_slots _
      ∙ ap one_less ((k _).at.same ∙ started_slots _ p s ∙ ap some h)
      ∙ ap some (restored n)

  with_pool_slots :
      (now : ℕ) (org : String) (o : Option UploadPool) (body : Exec (State S W) Status A)
      (s : State S W)
      → s.pool ≡ o
      → ((t : State S W) → Moves SameSlots body t)
      → in_flight_of (with_pool now org o body s).1 ≡ in_flight_of s
  unfolding with_pool in_flight_of
  with_pool_slots now org none body s e k = (k s).at.same
  with_pool_slots now org (some p) body s e k =
      after_acquire_slots (acquire now org p).0 (acquire now org p).1 p.in_flight body s
        (acquire_slots now org p) k
      ∙ sym (ap slots e)

  Moves-with_slot :
      (now : ℕ) (org : String) (body : Exec (State S W) Status A) (s : State S W)
      → ((t : State S W) → Moves SameSlots body t)
      → Moves SameSlots (with_slot now org body) s
  unfolding with_slot
  Moves-with_slot now org body s k = record {
    at = record { same = with_pool_slots now org s.pool body s refl k };
  }

-- When a call of `upload_document` is over, as many uploads are in flight as before it, whatever it
-- returns and wherever it stops: a slot that the call took is given back on every path.
pub upload_gives_slot_back :
    {S W : Type 0} (x : External) (svc : Service S W) (i : Inputs) (ctx : Context)
    (request : Option UploadDocumentRequest) (s : State S W)
    → in_flight_of (upload_document x svc i ctx request s).1 ≡ in_flight_of s
unfolding upload_document
upload_gives_slot_back x svc i ctx request s =
    (Moves-bind _ _ s (Moves-require_some _ _ s) λ req _. Moves-bind _ _ _ (Moves-lift _ _) λ _ _.
      Moves-check _ _ _ _ λ _. Moves-check _ _ _ _ λ _. Moves-check _ _ _ _ λ _.
        Moves-check _ _ _ _ λ _. Moves-check _ _ _ _ λ _. Moves-check _ _ _ _ λ _.
          Moves-bind _ _ _ (Moves-require_some _ _ _)
            λ storage _. Moves-with_slot _ _ _ _ (Moves-upload_in_slot x svc storage i req)).at.same
