-- ===== src/Intake/Postgres/Atomic.antt =====
-- `PostgresStore` of internal/store/postgres.go: what a call that fails leaves behind.
use doc_lens.Base.{
  ℕ, ℤ, String, ◌≡◌, Bool, true, false, Option, none, some, arith, Result, ok, err, Exec, ◌>>=◌,
}
use doc_lens.Intake.Types.{UploadRecord, Document, OutboxEvent, StoreError}
use doc_lens.Intake.Database.{Database, Sql, kept, statement, query, transaction}
use doc_lens.Intake.Postgres.{
  create_document, create_document_and_queue, get_document, create_and_queue, control, check_owner,
  find_upload,
}
use doc_lens.Intake.Postgres.Uploads.{
  upload_document, upload_document_and_queue, upload_with, upload_in,
}
use doc_lens.Intake.Postgres.Intents.{
  create_upload_intent, intent_unless, confirm_upload, confirm_in,
}

-- The calls of the store, with their arguments.
pub data Call : Type 0 where
  creates : Document → Call
  queues : Document → UploadRecord → OutboxEvent → Call
  gets : String → String → Call
  uploads : ℕ → String → String → UploadRecord → Call
  uploads_and_queues : ℕ → String → String → UploadRecord → OutboxEvent → Call
  intends : String → String → UploadRecord → Call
  confirms : ℕ → String → String → String → ℤ → String → OutboxEvent → Call

abbrev pub without_answer :
    {A : Type 0} → Result StoreError A × Database → Option StoreError × Database
without_answer (ok a, d) = (none, d)
without_answer (err e, d) = (some e, d)

-- The error of a call, if it fails, and the tables after it.
unfoldable pub step : Sql → Call → Database → Option StoreError × Database
step q (creates doc) d = without_answer (create_document q doc d)
step q (queues doc u event) d = without_answer (create_document_and_queue q doc u event d)
step q (gets org id) d = without_answer (get_document q org id d)
step q (uploads now org id u) d = without_answer (upload_document q now org id u d)
step q (uploads_and_queues now org id u event) d =
    without_answer (upload_document_and_queue q now org id u event d)
step q (intends org id u) d = without_answer (create_upload_intent q org id u d)
step q (confirms now org id upload_id size checksum event) d =
    without_answer (confirm_upload q now org id upload_id size checksum event d)

-- Whether a call is one statement that writes, or a transaction: all but `CreateDocument`.
abbrev pub is_atomic : Call → Bool
is_atomic (creates doc) = false
is_atomic _ = true

settled :
    {A : Type 0} (r : Result StoreError A) (d d' end : Database) (e : StoreError)
    → without_answer (r, kept r d d') ≡ (some e, end)
    → end ≡ d
settled (ok a) d d' end e h = cc
settled (err x) d d' end e h = cc

rollback :
    {A : Type 0} (body : Exec Database StoreError A) (d end : Database) (e : StoreError)
    → without_answer (transaction body d) ≡ (some e, end)
    → end ≡ d
unfolding transaction
rollback body d end e h = settled (body d).0 d (body d).1 end e h

pub failed_get :
    (q : Sql) (org id : String) (d : Database) → (without_answer (get_document q org id d)).1 ≡ d
unfolding get_document query control statement ◌>>=◌
failed_get q org id d = ground arith

failed_intend :
    (q : Sql) (org id : String) (u : UploadRecord) (d end : Database) (e : StoreError)
    → without_answer (create_upload_intent q org id u d) ≡ (some e, end)
    → end ≡ d
unfolding create_upload_intent check_owner find_upload intent_unless query statement ◌>>=◌
failed_intend q org id u d end e h = ground arith

-- A call other than `CreateDocument` that returns an error has changed no table.
pub failed_call_rolls_back :
    (q : Sql) (c : Call) (d end : Database) (e : StoreError)
    → is_atomic c ≡ true
    → step q c d ≡ (some e, end)
    → end ≡ d
unfolding step create_document_and_queue upload_document upload_document_and_queue upload_with
    confirm_upload
failed_call_rolls_back q (creates doc) d end e a h = cc
failed_call_rolls_back q (queues doc u event) d end e a h =
    rollback (create_and_queue q doc u event) d end e h
failed_call_rolls_back q (gets org id) d end e a h = ground (arith, failed_get q org id d)
failed_call_rolls_back q (uploads now org id u) d end e a h =
    rollback (upload_in q now org id u none) d end e h
failed_call_rolls_back q (uploads_and_queues now org id u event) d end e a h =
    rollback (upload_in q now org id u (some event)) d end e h
failed_call_rolls_back q (intends org id u) d end e a h = failed_intend q org id u d end e h
failed_call_rolls_back q (confirms now org id upload_id size checksum event) d end e a h =
    rollback (confirm_in q now org id upload_id size checksum event) d end e h
