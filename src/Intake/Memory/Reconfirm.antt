-- ===== src/Intake/Memory/Reconfirm.antt =====
-- `ConfirmUpload` of `MemoryStore`, repeated.
use doc_lens.Base.{
  ℕ, ℤ, String, ◌≡◌, refl, inl, inr, List, [], ◌∷◌, some, arith, true, ◌==◌, string_eq, lookup,
  lookup-insert_self, Result, ok, err, ◌>>=◌, Bool-cases, Option-cases,
}
use doc_lens.Intake.Types.{
  UploadRecord, Document, OutboxEvent, StoreError, is_confirmed, processing, queued,
}
use doc_lens.Intake.Memory.{
  MemoryStore, find, save, Confirmation, already, newly, confirm_record, confirm_found, keep_front,
  confirm_in, store_confirmation, confirm_upload,
}
use doc_lens.Intake.Memory.History.{confirm_found-MayBecome, keep_front-newly}

-- What a confirmation found or made is found again, whatever size and checksum come with it.
confirm_in_twice :
    (now now' : ℕ) (id : String) (size size' : ℤ) (checksum checksum' : String)
    (us : List UploadRecord) (v : UploadRecord) (vs : List UploadRecord)
    → confirm_in now id size checksum us ≡ ok (newly v vs)
    → confirm_in now' id size' checksum' vs ≡ ok (already v)
unfolding confirm_in
confirm_in_twice now now' id size size' checksum checksum' [] v vs h = cc
confirm_in_twice now now' id size size' checksum checksum' (u ∷ us) v vs h =
    elim (Bool-cases (u.id == id)) [
      | inl same ↦
          let (p, e, es) = confirm_found-MayBecome now size checksum u us v vs (ground arith) in
          rw (es, e) (unfold confirm_record in ground arith)
      | inr other ↦
          let (ws, r, es) =
            keep_front-newly u (confirm_in now id size checksum us) v vs (ground arith) in
          rw es
            (ground (arith, confirm_in_twice now now' id size size' checksum checksum' us v ws r))
    ]

confirm_found_already :
    (now now' : ℕ) (size size' : ℤ) (checksum checksum' : String) (u : UploadRecord)
    (rest rest' : List UploadRecord) (v : UploadRecord)
    → confirm_found now size checksum u rest ≡ ok (already v)
    → confirm_found now' size' checksum' u rest' ≡ ok (already v)
unfolding confirm_found
confirm_found_already now now' size size' checksum checksum' u rest rest' v h =
    elim (Bool-cases (is_confirmed u.status)) [ inl e ↦ rw e (ground arith) | inr e ↦ ground arith ]

keep_front-already :
    (u v : UploadRecord) (r : Result StoreError Confirmation)
    → keep_front u r ≡ ok (already v)
    → r ≡ ok (already v)
keep_front-already u v (ok (newly w ws)) h = cc
keep_front-already u v (ok (already w)) h = h
keep_front-already u v (err e) h = h

confirm_in_already :
    (now now' : ℕ) (id : String) (size size' : ℤ) (checksum checksum' : String)
    (us : List UploadRecord) (v : UploadRecord)
    → confirm_in now id size checksum us ≡ ok (already v)
    → confirm_in now' id size' checksum' us ≡ ok (already v)
unfolding confirm_in
confirm_in_already now now' id size size' checksum checksum' [] v h = cc
confirm_in_already now now' id size size' checksum checksum' (u ∷ us) v h =
    elim (Bool-cases (u.id == id)) [
      | inl same ↦
          rw same
            (confirm_found_already now now' size size' checksum checksum' u us us v (rw same at h))
      | inr other ↦ rw (
        other,
        confirm_in_already now now' id size size' checksum checksum' us v
            (keep_front-already u v _ (rw other at h)),
      )
    ]

-- The document under `id` is the organization's, and holds `v`, confirmed, as the upload asked for.
record HasConfirmed (org id upload_id : String) (v : UploadRecord) (m : MemoryStore) : Type 0 where
  doc : Document
  found : lookup id m.docs ≡ some doc
  own : (doc.organization_id == org) ≡ true
  already_confirmed :
      (now : ℕ) (size : ℤ) (checksum : String)
      → confirm_in now upload_id size checksum doc.uploads ≡ ok (already v)

store_confirmation-HasConfirmed :
    (now : ℕ) (org id upload_id : String) (size : ℤ) (checksum : String) (doc : Document)
    (v : UploadRecord) (m m' : MemoryStore) (r : Result StoreError Confirmation)
    → lookup id m.docs ≡ some doc
    → (doc.organization_id == org) ≡ true
    → confirm_in now upload_id size checksum doc.uploads ≡ r
    → store_confirmation now id doc r m ≡ (ok v, m')
    → HasConfirmed org id upload_id v m'
unfolding store_confirmation save ◌>>=◌
store_confirmation-HasConfirmed now org id upload_id size checksum doc v m m' (err e) found own c
      h =
    cc
store_confirmation-HasConfirmed now org id upload_id size checksum doc v m m' (ok (already u)) found
      own c h =
    record {
      doc = doc;
      found = ground arith;
      own = own;
      already_confirmed = λ now' size' checksum'.
          confirm_in_already now now' upload_id size size' checksum checksum' doc.uploads v
            (ground arith);
    }
store_confirmation-HasConfirmed now org id upload_id size checksum doc v m m' (ok (newly u us))
      found own c h =
    record {
      doc = record doc {
        uploads = us;
        status = processing;
        processing_job_status = queued;
        updated_at = now;
      };
      found = ground (
        arith,
        lookup-insert_self id
            (record doc {
              uploads = us;
              status = processing;
              processing_job_status = queued;
              updated_at = now;
            })
            m.docs,
      );
      own = own;
      already_confirmed = λ now' size' checksum'.
          confirm_in_twice now now' upload_id size size' checksum checksum' doc.uploads v us
            (ground arith);
    }

confirm_upload-HasConfirmed :
    (now : ℕ) (org id upload_id : String) (size : ℤ) (checksum : String) (event : OutboxEvent)
    (v : UploadRecord) (m m' : MemoryStore)
    → confirm_upload now org id upload_id size checksum event m ≡ (ok v, m')
    → HasConfirmed org id upload_id v m'
unfolding confirm_upload find ◌>>=◌
confirm_upload-HasConfirmed now org id upload_id size checksum event v m m' h =
    elim (Option-cases (lookup id m.docs)) [
      | inl missing ↦ absurd (ground arith)
      | inr (doc, found) ↦ elim (Bool-cases (doc.organization_id == org)) [
        | inl own ↦
            store_confirmation-HasConfirmed now org id upload_id size checksum doc v m m' _ found
              own refl (ground arith)
        | inr other ↦ absurd (ground arith)
      ]
    ]

confirm_upload_known :
    (now : ℕ) (org id upload_id : String) (size : ℤ) (checksum : String) (event : OutboxEvent)
    (v : UploadRecord) (m : MemoryStore)
    → HasConfirmed org id upload_id v m
    → confirm_upload now org id upload_id size checksum event m ≡ (ok v, m)
unfolding confirm_upload store_confirmation find ◌>>=◌
confirm_upload_known now org id upload_id size checksum event v m c =
    ground (arith, c.found, c.own, c.already_confirmed now size checksum)

-- A confirmation that succeeded, made again with any size, checksum and event, returns the upload
-- as the first one confirmed it and changes nothing.
pub confirm_upload_twice :
    (now now' : ℕ) (org id upload_id : String) (size size' : ℤ) (checksum checksum' : String)
    (event event' : OutboxEvent) (v : UploadRecord) (m m' : MemoryStore)
    → confirm_upload now org id upload_id size checksum event m ≡ (ok v, m')
    → confirm_upload now' org id upload_id size' checksum' event' m' ≡ (ok v, m')
confirm_upload_twice now now' org id upload_id size size' checksum checksum' event event' v m m' h =
    confirm_upload_known now' org id upload_id size' checksum' event' v m'
      (confirm_upload-HasConfirmed now org id upload_id size checksum event v m m' h)
