-- ===== src/Intake/Tests/Stores.antt =====
-- The in-memory store at concrete inputs.
use doc_lens.Base.{
  pos, ◌≡◌, refl, List, [], ◌∷◌, some, get_elem?, lookup, insert, ok, err, ◌>>=◌, differ,
  trim_space, is_space,
}
use doc_lens.Intake.Types.{
  UploadRecord, Document, confirmed, proxied, presigned_direct, pending, processing, queued,
  organization_mismatch, upload_not_found,
}
use doc_lens.Intake.Memory.{
  MemoryStore, new_memory_store, get_document, upload_document, create_upload_intent,
  confirm_upload, find, save, find_key, with_defaults, add_upload, as_intent, confirm_in,
  confirm_found, confirm_record, store_confirmation,
}
use doc_lens.Intake.Memory.Growth.{Continues}
use doc_lens.Intake.Memory.History.{
  Call, creates, uploads, intends, confirms, step, run, document-Continues, confirmed_is_final,
}
use doc_lens.Intake.Memory.Retries.{upload_document_twice, create_upload_intent_twice}
use doc_lens.Intake.Memory.Reconfirm.{confirm_upload_twice}
use doc_lens.Intake.Memory.Tenancy.{other_organization_refused, failed, failed_call_changes_nothing}
use doc_lens.Intake.Memory.Distinct.{IsKeyed, IsKeyed-new_memory_store, run-IsKeyed}
use doc_lens.Intake.Tests.{an_upload, a_document, an_event}

abbrev one_document : MemoryStore
one_document = record { docs = ("doc_1", a_document) ∷ [] }

-- An upload, an intent, its confirmation, and a confirmation that fails.
abbrev some_calls : List Call
some_calls =
    uploads 2 "org_1" "doc_1" (an_upload "upl_1" "k1")
    ∷ intends 3 "org_1" "doc_1" (an_upload "upl_2" "k2")
    ∷ confirms 4 "org_1" "doc_1" "upl_2" (pos 3) "" an_event
    ∷ confirms 5 "org_2" "doc_1" "upl_2" (pos 3) "" an_event
    ∷ []

document-Continues_example :
    (d' : Document) × (lookup "doc_1" (run one_document some_calls).docs ≡ some d')
    × Continues a_document d'
unfolding lookup
document-Continues_example = document-Continues one_document some_calls "doc_1" a_document refl

abbrev stored_upload : UploadRecord
stored_upload = record (an_upload "upl_1" "k1") { status = confirmed; upload_method = proxied }

abbrev uploaded_document : Document
uploaded_document = record a_document {
  uploads = stored_upload ∷ [];
  status = processing;
  processing_job_status = queued;
  updated_at = 2;
  storage_ref = "r2://docs/a.pdf";
  size_bytes = pos 3;
}

abbrev one_upload : MemoryStore
one_upload = record { docs = ("doc_1", uploaded_document) ∷ [] }

confirmed_is_final_example :
    (d' : Document) × (lookup "doc_1" (run one_upload some_calls).docs ≡ some d')
    × (get_elem? d'.uploads 0 ≡ some stored_upload)
unfolding lookup
confirmed_is_final_example =
    confirmed_is_final one_upload some_calls "doc_1" uploaded_document 0 stored_upload refl refl
      refl

upload_document_twice_example :
    (get_document "org_1" "doc_1" one_upload ≡ (ok uploaded_document, one_upload))
    × (upload_document 9 "org_1" "doc_1" (an_upload "upl_9" "k1") one_upload
        ≡ (ok uploaded_document, one_upload))
unfolding upload_document find save find_key with_defaults add_upload lookup insert trim_space
    is_space ◌>>=◌
upload_document_twice_example =
    upload_document_twice 2 9 "org_1" "doc_1" (an_upload "upl_1" "k1") (an_upload "upl_9" "k1")
      one_document one_upload uploaded_document refl (λ e. cc e) refl

abbrev intent : UploadRecord
intent = record (an_upload "upl_2" "k2") { status = pending; upload_method = presigned_direct }

abbrev one_intent : MemoryStore
one_intent = record {
  docs = ("doc_1", record a_document { uploads = intent ∷ []; updated_at = 3 }) ∷ [];
}

create_upload_intent_twice_example :
    create_upload_intent 9 "org_1" "doc_1" (an_upload "upl_9" "k2") one_intent
    ≡ (ok intent, one_intent)
unfolding create_upload_intent find save find_key as_intent lookup insert ◌>>=◌
create_upload_intent_twice_example =
    create_upload_intent_twice 3 9 "org_1" "doc_1" (an_upload "upl_2" "k2") (an_upload "upl_9" "k2")
      intent one_document one_intent refl (λ e. cc e) refl

abbrev confirmed_intent : UploadRecord
confirmed_intent = record intent {
  status = confirmed;
  confirmed_at = some 4;
  size_bytes = pos 3;
  checksum = "abc";
}

abbrev one_confirmed : MemoryStore
one_confirmed = record {
  docs =
      (
        "doc_1",
        record a_document {
          uploads = confirmed_intent ∷ [];
          status = processing;
          processing_job_status = queued;
          updated_at = 4;
        },
      )
      ∷ [];
}

confirm_upload_twice_example :
    confirm_upload 9 "org_1" "doc_1" "upl_2" (pos 7) "xyz" an_event one_confirmed
    ≡ (ok confirmed_intent, one_confirmed)
unfolding confirm_upload find save store_confirmation confirm_in confirm_found confirm_record lookup
    insert ◌>>=◌
confirm_upload_twice_example =
    confirm_upload_twice 4 9 "org_1" "doc_1" "upl_2" (pos 3) (pos 7) "abc" "xyz" an_event an_event
      confirmed_intent one_intent one_confirmed refl

other_organization_refused_example :
    (get_document "org_2" "doc_1" one_document ≡ (err organization_mismatch, one_document))
    × (upload_document 2 "org_2" "doc_1" (an_upload "upl_1" "k1") one_document
        ≡ (err organization_mismatch, one_document))
    × (create_upload_intent 2 "org_2" "doc_1" (an_upload "upl_1" "k1") one_document
        ≡ (err organization_mismatch, one_document))
    × (confirm_upload 2 "org_2" "doc_1" "upl_1" (pos 3) "" an_event one_document
        ≡ (err organization_mismatch, one_document))
unfolding lookup trim_space is_space
other_organization_refused_example =
    other_organization_refused 2 "org_2" "doc_1" "upl_1" (an_upload "upl_1" "k1") (pos 3) ""
      an_event one_document a_document refl (differ "org_1" "org_2" refl)

failed_call_changes_nothing_example :
    step one_document (confirms 4 "org_1" "doc_1" "upl_7" (pos 3) "" an_event) ≡ one_document
unfolding failed confirm_upload find store_confirmation confirm_in lookup ◌>>=◌
failed_call_changes_nothing_example =
    failed_call_changes_nothing one_document
      (confirms 4 "org_1" "doc_1" "upl_7" (pos 3) "" an_event) upload_not_found refl

run-IsKeyed_example : IsKeyed (run new_memory_store (creates a_document ∷ some_calls))
run-IsKeyed_example =
    run-IsKeyed new_memory_store (creates a_document ∷ some_calls) IsKeyed-new_memory_store
      (tt, (tt, (tt, (tt, (tt, tt)))))
