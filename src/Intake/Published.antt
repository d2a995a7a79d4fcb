-- ===== src/Intake/Published.antt =====
-- The store of internal/store/postgres.go and the outbox worker of internal/events/rabbitmq.go together,
-- from an upload to the publication of its event.
use doc_lens.Base.{
  micros, micros_le, ℕ, zero, suc, ◌+◌, ◌*◌, ◌≤◌, String, ◌≡◌, ◌⊎◌, refl, subst, Bool, true, List,
  [], ◌∷◌, ◌++◌, All, length, get_elem?, arith, leb, none, some, ok, inl, inr,
}
use doc_lens.Intake.Types.{UploadRecord, Document, OutboxEvent}
use doc_lens.Intake.Database.{
  Database, EventRow, Sql, Statement, published, waiting_row, select, has_key,
}
use doc_lens.Intake.Database.Rows.{All-append}
use doc_lens.Intake.Database.Keys.{Distinct}
use doc_lens.Intake.Database.Counts.{count}
use doc_lens.Intake.Postgres.Uploads.{upload_document_and_queue}
use doc_lens.Intake.Postgres.Atomic.{uploads_and_queues, step}
use doc_lens.Intake.Postgres.Events.{step-Distinct}
use doc_lens.Intake.Postgres.Outcome.{IsUploaded, IsRepeated, upload_and_queue_outcome}
use doc_lens.Intake.Outbox.{RabbitPublisher, Turn, Message, run_outbox_publisher}
use doc_lens.Intake.Outbox.Batch.{event_id}
use doc_lens.Intake.Outbox.Rounds.{run_outbox_publisher-RowRun, same_place, RowRun-event}
use doc_lens.Intake.Outbox.Drain.{waits, IsFit, IsIdle, outbox_drains}

last_place : {A : Type 0} (xs : List A) (x : A) → get_elem? (xs ++ x ∷ []) (length xs) ≡ some x
last_place [] x = refl
last_place (y ∷ xs) x = last_place xs x

All-get_elem? :
    {A : Type 0} (P : A → Type 0) (xs : List A) (i : ℕ) (x : A)
    → All P xs
    → get_elem? xs i ≡ some x
    → P x
All-get_elem? P [] i x h e = cc
All-get_elem? P (y ∷ xs) zero x (h, hs) e = subst P (ground arith) h
All-get_elem? P (y ∷ xs) (suc i) x (h, hs) e = All-get_elem? P xs i x hs e

count-append :
    {A : Type 0} (p : A → Bool) (xs : List A) (x : A) → count p (xs ++ x ∷ []) ≤ count p xs + 1
count-append p [] x = ground arith
count-append p (y ∷ xs) x = ground (arith, count-append p xs x)

-- The row of a new event.
abbrev new_row : Sql → OutboxEvent → EventRow
new_row q event = waiting_row (record event { payload = q.jsonb event.payload })

not_repeated :
    (q : Sql) (org id : String) (u : UploadRecord) (event : OutboxEvent) (now : ℕ) (d d' : Database)
    (doc : Document)
    → select (has_key org u.idempotency_key) d.uploads ≡ none
    → IsUploaded q now org id u event d d' doc ⊎ IsRepeated org id u d d' doc
    → d'.events ≡ d.events ++ new_row q event ∷ []
unfolding has_key
not_repeated q org id u event now d d' doc fresh (inl new) = new.events
not_repeated q org id u event now d d' doc fresh (inr repeated) =
    absurd (ground (arith, fresh, repeated.known))

upload_document_and_queue-Distinct :
    (q : Sql) (now : ℕ) (org id : String) (u : UploadRecord) (event : OutboxEvent) (d d' : Database)
    (doc : Document)
    → upload_document_and_queue q now org id u event d ≡ (ok doc, d')
    → Distinct event_id d.events
    → Distinct event_id d'.events
unfolding step
upload_document_and_queue-Distinct q now org id u event d d' doc h distinct =
    let after : (step q (uploads_and_queues now org id u event) d).1 ≡ d' = rw h refl in
    subst (λ (t : Database). Distinct event_id t.events) after
      (step-Distinct q (uploads_and_queues now org id u event) d distinct)

module _ {W : Type 0} (publisher : RabbitPublisher W) (turns : ℕ → ℕ → Turn) (time rounds : ℕ)
    (takes : (m : Message) (w : W) → (publisher.channel m w).0 ≡ ok tt)
    (works : (i j : ℕ) (s : Statement) → (turns i j).q.fault s ≡ none)
    (after : (i : ℕ) → time ≤ (turns i 0).now) where
  -- When an upload with a key that is new to the organization succeeds on PostgreSQL, its event is
  -- published, in the row that it then takes behind the others, by as many rounds of the worker
  -- after `time` as batches of 50 are needed for it and the rows that wait already. No statement of
  -- these rounds fails, the channel takes every message, the event and the waiting rows may be
  -- claimed at `time`, no row is being published, and the event ids in the outbox differ.
  pub uploaded_is_published :
      (q : Sql) (now : ℕ) (org id : String) (u : UploadRecord) (event : OutboxEvent)
      (d d' : Database) (doc : Document) (w : W)
      → upload_document_and_queue q now org id u event d ≡ (ok doc, d')
      → select (has_key org u.idempotency_key) d.uploads ≡ none
      → leb event.created_at time ≡ true
      → All (IsFit time) d.events
      → All IsIdle d.events
      → Distinct event_id d.events
      → count waits d.events + 1 ≤ 50 * rounds
      → (row : EventRow) × (get_elem?
            (run_outbox_publisher publisher turns rounds (d', w)).0.events
            (length d.events)
          ≡ some row)
        × (row.event ≡ record event {
          payload = q.jsonb event.payload;
          created_at = micros event.created_at;
        })
        × (row.status ≡ published)
  uploaded_is_published q now org id u event d d' doc w h fresh early fit idle distinct few =
      let in_time : leb (micros event.created_at) time ≡ true =
        ground (arith, early, micros_le event.created_at) in
      let rows =
        not_repeated q org id u event now d d' doc fresh
          (upload_and_queue_outcome q now org id u event d d' doc h) in
      let (row, at, run) =
        same_place (length d.events) (new_row q event)
          (run_outbox_publisher-RowRun publisher turns rounds d' w
            (upload_document_and_queue-Distinct q now org id u event d d' doc h distinct))
          (rw rows (last_place d.events (new_row q event))) in
      let drained =
        outbox_drains publisher takes turns time rounds d' w works after
          (rw rows (All-append (IsFit time) d.events (new_row q event ∷ []) fit (in_time, tt)))
          (rw rows (All-append IsIdle d.events (new_row q event ∷ []) idle (refl, tt)))
          (rw rows (omega (arith, few, count-append waits d.events (new_row q event)))) in
      (row, at, RowRun-event run, All-get_elem? _ _ (length d.events) row drained at)
