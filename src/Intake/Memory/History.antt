-- ===== src/Intake/Memory/History.antt =====
-- Histories of `MemoryStore`: any calls, in any order.
use doc_lens.Base.{
  ℕ, ℤ, String, ◌≡◌, refl, ap, ◌∙◌, sym, eq_iff, ◌++◌, subst₂, inl, inr, List, [], ◌∷◌, zero, suc,
  get_elem?, subst, some, arith, ◌==◌, string_eq, lookup, Result, ok, err, Moves, Moves-raise,
  Moves-pure, Moves-check, Bool-cases,
}
use doc_lens.Intake.Types.{UploadRecord, Document, OutboxEvent, StoreError, pending, confirmed}
use doc_lens.Intake.Memory.{
  MemoryStore, create_document, get_document, upload_document, create_document_and_queue,
  create_upload_intent, Confirmation, already, newly, confirm_record, confirm_found, keep_front,
  confirm_in, store_confirmation, confirm_upload,
}
use doc_lens.Intake.Memory.Parts.{Moves-find}
use doc_lens.Intake.Memory.Growth.{
  MayBecome, Continues, Grows, Grows-refl, Extends, Extends-refl, Extends-trans, extends_preorder,
  create_document-Extends, save-Extends, get_document-Extends, upload_document-Extends,
  create_document_and_queue-Extends, create_upload_intent-Extends,
}

pub confirm_found-MayBecome :
    (now : ℕ) (size : ℤ) (checksum : String) (u : UploadRecord) (rest : List UploadRecord)
    (v : UploadRecord) (vs : List UploadRecord)
    → confirm_found now size checksum u rest ≡ ok (newly v vs)
    → (u.status ≡ pending) × (v ≡ confirm_record now size checksum u) × (vs ≡ v ∷ rest)
unfolding confirm_found
confirm_found-MayBecome now size checksum u rest v vs h = ground arith

pub keep_front-newly :
    (u : UploadRecord) (r : Result StoreError Confirmation) (v : UploadRecord)
    (vs : List UploadRecord)
    → keep_front u r ≡ ok (newly v vs)
    → (ws : List UploadRecord) × (r ≡ ok (newly v ws)) × (vs ≡ u ∷ ws)
keep_front-newly u (ok (newly w ws)) v vs h = (ws, ground arith, ground arith)
keep_front-newly u (ok (already w)) v vs h = cc
keep_front-newly u (err e) v vs h = cc

-- Exactly one upload, the first with the id, was pending and is confirmed in its place.
pub record Confirms (now : ℕ) (id : String) (size : ℤ) (checksum : String) (us : List UploadRecord)
    (v : UploadRecord) (vs : List UploadRecord) : Type 0 where
  pub front : List UploadRecord
  pub old : UploadRecord
  pub rest : List UploadRecord
  pub before : us ≡ front ++ old ∷ rest
  pub after : vs ≡ front ++ v ∷ rest
  pub was_pending : old.status ≡ pending
  pub same_id : old.id ≡ id
  pub new : v ≡ confirm_record now size checksum old

module _ (now : ℕ) (id : String) (size : ℤ) (checksum : String) where
  pub confirm_in-Confirms :
      (us : List UploadRecord) (v : UploadRecord) (vs : List UploadRecord)
      → confirm_in now id size checksum us ≡ ok (newly v vs)
      → Confirms now id size checksum us v vs
  unfolding confirm_in
  confirm_in-Confirms [] v vs h = cc
  confirm_in-Confirms (u ∷ us) v vs h = elim (Bool-cases (u.id == id)) [
    | inl same ↦
        let (p, e, es) = confirm_found-MayBecome now size checksum u us v vs (ground arith) in
        record {
          front = [];
          old = u;
          rest = us;
          before = refl;
          after = es;
          was_pending = p;
          same_id = (eq_iff u.id id).0 same;
          new = e;
        }
    | inr other ↦
        let (ws, r, es) =
          keep_front-newly u (confirm_in now id size checksum us) v vs (ground arith) in
        let c = confirm_in-Confirms us v ws r in
        record {
          front = u ∷ c.front;
          old = c.old;
          rest = c.rest;
          before = ap (◌∷◌ u) c.before;
          after = es ∙ ap (◌∷◌ u) c.after;
          was_pending = c.was_pending;
          same_id = c.same_id;
          new = c.new;
        }
  ]

  Grows-middle :
      (front : List UploadRecord) (u v : UploadRecord) (rest : List UploadRecord)
      → MayBecome u v
      → Grows (front ++ u ∷ rest) (front ++ v ∷ rest)
  Grows-middle [] u v rest h = (h, Grows-refl rest)
  Grows-middle (x ∷ front) u v rest h = (inl refl, Grows-middle front u v rest h)

  confirm_record-MayBecome :
      (u v : UploadRecord)
      → u.status ≡ pending
      → v ≡ confirm_record now size checksum u
      → MayBecome u v
  unfolding confirm_record
  confirm_record-MayBecome u v p e = subst (MayBecome u) (sym e) (inr (p, refl))

  Confirms-Grows :
      {us vs : List UploadRecord} {v : UploadRecord}
      → Confirms now id size checksum us v vs
      → Grows us vs
  Confirms-Grows {v = v} c =
      subst₂ Grows (sym c.before) (sym c.after)
        (Grows-middle c.front c.old v c.rest (confirm_record-MayBecome c.old v c.was_pending c.new))

  store_confirmation-Extends :
      (document_id : String) (doc : Document) (r : Result StoreError Confirmation) (m : MemoryStore)
      → lookup document_id m.docs ≡ some doc
      → confirm_in now id size checksum doc.uploads ≡ r
      → Moves Extends (store_confirmation now document_id doc r) m
  unfolding store_confirmation
  store_confirmation-Extends document_id doc (err e) m found h = Moves-raise e m
  store_confirmation-Extends document_id doc (ok (already u)) m found h = Moves-pure u m
  store_confirmation-Extends document_id doc (ok (newly u us)) m found h =
      save-Extends u document_id m doc _ found
        (refl, refl, Confirms-Grows (confirm_in-Confirms doc.uploads u us h))

  confirm_upload-Extends :
      (org document_id : String) (event : OutboxEvent) (m : MemoryStore)
      → Moves Extends (confirm_upload now org document_id id size checksum event) m
  unfolding confirm_upload
  confirm_upload-Extends org document_id event m = Moves-find _ document_id m λ doc found.
      Moves-check _ _ _ m λ _. store_confirmation-Extends document_id doc _ m found refl

-- The calls of the store's interfaces, with the time at which they run.
pub data Call : Type 0 where
  creates : Document → Call
  gets : String → String → Call
  uploads : ℕ → String → String → UploadRecord → Call
  queues : ℕ → Document → UploadRecord → OutboxEvent → Call
  intends : ℕ → String → String → UploadRecord → Call
  confirms : ℕ → String → String → String → ℤ → String → OutboxEvent → Call

unfoldable pub step : MemoryStore → Call → MemoryStore
step m (creates doc) = (create_document doc m).1
step m (gets org id) = (get_document org id m).1
step m (uploads now org id u) = (upload_document now org id u m).1
step m (queues now doc u event) = (create_document_and_queue now doc u event m).1
step m (intends now org id u) = (create_upload_intent now org id u m).1
step m (confirms now org id upload_id size checksum event) =
    (confirm_upload now org id upload_id size checksum event m).1

unfoldable pub run : MemoryStore → List Call → MemoryStore
run m [] = m
run m (c ∷ cs) = run (step m c) cs

step-Extends : (m : MemoryStore) (c : Call) → Extends m (step m c)
unfolding step
step-Extends m (creates doc) = (create_document-Extends doc m).at
step-Extends m (gets org id) = (get_document-Extends org id m).at
step-Extends m (uploads now org id u) = (upload_document-Extends now org id u m).at
step-Extends m (queues now doc u event) = (create_document_and_queue-Extends now doc u event m).at
step-Extends m (intends now org id u) = (create_upload_intent-Extends now org id u m).at
step-Extends m (confirms now org id upload_id size checksum event) =
    (confirm_upload-Extends now upload_id size checksum org id event m).at

-- Whatever calls come, in whatever order, every stored document continues.
run-Extends : (m : MemoryStore) (cs : List Call) → Extends m (run m cs)
unfolding run
run-Extends m [] = Extends-refl m
run-Extends m (c ∷ cs) = Extends-trans m (step m c) _ (step-Extends m c) (run-Extends (step m c) cs)

-- Whatever calls come, in whatever order: a stored document stays stored under its id with its
-- owner, its uploads stay in their order and new ones come behind them, and an upload changes only
-- from pending to confirmed (with its confirmed size and checksum, and the time).
pub document-Continues :
    (m : MemoryStore) (cs : List Call) (k : String) (d : Document)
    → lookup k m.docs ≡ some d
    → (d' : Document) × (lookup k (run m cs).docs ≡ some d') × Continues d d'
document-Continues m cs k d found = (run-Extends m cs).later k d found

MayBecome-confirmed : (u v : UploadRecord) → MayBecome u v → u.status ≡ confirmed → v ≡ u
MayBecome-confirmed u v (inl e) h = e
MayBecome-confirmed u v (inr (p, _)) h = cc

Grows-confirmed :
    (us vs : List UploadRecord) (i : ℕ) (u : UploadRecord)
    → Grows us vs
    → get_elem? us i ≡ some u
    → u.status ≡ confirmed
    → get_elem? vs i ≡ some u
Grows-confirmed [] vs i u g at c = cc
Grows-confirmed (x ∷ us) [] i u g at c = absurd g
Grows-confirmed (x ∷ us) (y ∷ vs) zero u g at c =
    let e : x ≡ u = cc at in ap some (MayBecome-confirmed u y (subst (λ z. MayBecome z y) e g.0) c)
Grows-confirmed (x ∷ us) (y ∷ vs) (suc i) u g at c = Grows-confirmed us vs i u g.1 at c

-- A confirmed upload is final: after any calls it stands, unchanged, where it stood.
pub confirmed_is_final :
    (m : MemoryStore) (cs : List Call) (k : String) (d : Document) (i : ℕ) (u : UploadRecord)
    → lookup k m.docs ≡ some d
    → get_elem? d.uploads i ≡ some u
    → u.status ≡ confirmed
    → (d' : Document) × (lookup k (run m cs).docs ≡ some d') × (get_elem? d'.uploads i ≡ some u)
confirmed_is_final m cs k d i u found at c =
    let (d', e, k') = (run-Extends m cs).later k d found in
    (d', e, Grows-confirmed d.uploads d'.uploads i u k'.2 at c)
