-- ===== src/Intake/Postgres/Added.antt =====
-- `PostgresStore` of internal/store/postgres.go: the rows that its calls add to the outbox.
use doc_lens.Base.{
  String, Bool, true, false, ◌&&◌, ◌||◌, not, List, [], ◌∷◌, any, none, some, ◌==◌, string_eq,
  if◌then◌else◌,
}
use doc_lens.Intake.Types.{confirmed}
use doc_lens.Intake.Database.{Database, EventRow, Sql, select}
use doc_lens.Intake.Postgres.Atomic.{Call, queues, uploads, uploads_and_queues, confirms}
use doc_lens.Intake.Postgres.Queued.{pending_row}

-- An upload of the organization has the key, which is not empty.
abbrev pub is_repeated : String → String → Database → Bool
is_repeated org key d =
    any (λ row. not (key == "") && row.organization_id == org && row.idempotency_key == key)
      d.uploads

-- The upload that a confirmation names is confirmed already.
abbrev pub is_settled : String → String → String → Database → Bool
is_settled org id upload_id d =
    elim (select (λ row. row.organization_id == org && row.document_id == id && row.id == upload_id)
      d.uploads) [ none ↦ false | some u ↦ elim u.status [ confirmed ↦ true | _ ↦ false ] ]

-- The rows that a call which succeeds adds.
abbrev pub expected : Sql → Call → Database → List EventRow
expected q (queues doc u event) d = pending_row q event event.created_at ∷ []
expected q (uploads_and_queues now org id u event) d =
    if is_repeated org u.idempotency_key d then [] else pending_row q event event.created_at ∷ []
expected q (confirms now org id upload_id size checksum event) d =
    if is_settled org id upload_id d || any (λ row. row.event.id == event.id) d.events
    then []
    else pending_row q event now ∷ []
expected q _ d = []
