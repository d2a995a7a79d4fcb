-- ===== src/Intake/Postgres/Queued.antt =====
-- `PostgresStore` of internal/store/postgres.go: the outbox after each call that succeeded.
use doc_lens.Base.{
  ℕ, ℤ, String, ◌≡◌, refl, ap, sym, subst, ◌∙◌, Bool, true, false, ◌||◌, [], ◌∷◌, ◌++◌, any, Option,
  none, some, arith, ◌==◌, string_eq, if◌then◌else◌, ok, micros, bind_ok, pure_ok, check_ok,
  require_some_ok, pure, ◌>>=◌,
}
use doc_lens.Intake.Types.{UploadRecord, Document, OutboxEvent, is_confirmed}
use doc_lens.Intake.Database.{
  Database, EventRow, event_pending, waiting_row, Sql, select, has_event, put_event, add_document,
  add_job, statement,
}
use doc_lens.Intake.Postgres.{create_document, create_and_queue}
use doc_lens.Intake.Postgres.Uploads.{upload_in, upload_unless, upload_new, queue_event}
use doc_lens.Intake.Postgres.Intents.{
  is_upload, set_confirmed, confirm_in, confirm_unless, confirm_pending,
}
use doc_lens.Intake.Postgres.Success.{statement_ok, query_ok, control_ok}
use doc_lens.Intake.Postgres.Parts.{
  insert_upload_ok, insert_event_ok, queue_document_ok, get_tx_ok, check_owner_ok, find_upload_ok,
}
use doc_lens.Intake.Postgres.Events.{set_confirmed_events}

-- The row of an event that nobody has tried to publish.
abbrev pub pending_row : Sql → OutboxEvent → ℕ → EventRow
pending_row q event time = record {
  event = record event { payload = q.jsonb event.payload; created_at = micros time };
  status = event_pending;
  attempt_count = 0;
  next_attempt_at = micros time;
  last_error = "";
  published_at = none;
}

pub create_document_events :
    (q : Sql) (doc : Document) (d : Database) → (create_document q doc d).1.events ≡ d.events
unfolding create_document statement add_document add_job ◌>>=◌
create_document_events q doc d = ground arith

pub queues_events :
    (q : Sql) (doc a : Document) (u : UploadRecord) (event : OutboxEvent) (d d' : Database)
    → create_and_queue q doc u event d ≡ (ok a, d')
    → d'.events ≡ d.events ++ pending_row q event event.created_at ∷ []
unfolding create_and_queue
queues_events q doc a u event d d' h =
    let (x1, d1, begun, h1) = bind_ok _ _ d a d' h in
    let (x2, d2, created, h2) = bind_ok _ _ d1 a d' h1 in
    let (x3, d3, inserted, h3) = bind_ok _ _ d2 a d' h2 in
    let (x4, d4, sent, h4) = bind_ok _ _ d3 a d' h3 in
    let (x5, d5, committed, h5) = bind_ok _ _ d4 a d' h4 in
    ground (
      arith,
      control_ok q _ _ d d1 begun,
      create_document_events q doc d1,
      created,
      insert_upload_ok q u d2 d3 inserted,
      insert_event_ok q event d3 d4 sent,
      control_ok q _ _ d4 d5 committed,
      (pure_ok _ a d5 d' h5).1,
    )

upload_new_events :
    (q : Sql) (now : ℕ) (org id : String) (u : UploadRecord) (d d' : Database) (a : Document)
    → upload_new q now org id u none d ≡ (ok a, d')
    → d'.events ≡ d.events
unfolding upload_new queue_event
upload_new_events q now org id u d d' a h =
    let (x1, d1, inserted, h1) = bind_ok _ _ d a d' h in
    let (x2, d2, updated, h2) = bind_ok _ _ d1 a d' h1 in
    let (x3, d3, sent, h3) = bind_ok _ _ d2 a d' h2 in
    let (x4, d4, read, h4) = bind_ok _ _ d3 a d' h3 in
    let (x5, d5, committed, h5) = bind_ok _ _ d4 a d' h4 in
    ground (
      arith,
      insert_upload_ok q u d d1 inserted,
      (queue_document_ok q _ now org id _ _ d1 d2 updated).0,
      (pure_ok _ x3 d2 d3 sent).1,
      (get_tx_ok q org id d3 d4 x4 read).1,
      control_ok q _ _ d4 d5 committed,
      (pure_ok _ a d5 d' h5).1,
    )

upload_unless_events :
    (q : Sql) (now : ℕ) (org id : String) (u : UploadRecord) (o : Option UploadRecord)
    (d d' : Database) (a : Document)
    → upload_unless q now org id u none o d ≡ (ok a, d')
    → d'.events ≡ d.events
unfolding upload_unless
upload_unless_events q now org id u none d d' a h = upload_new_events q now org id u d d' a h
upload_unless_events q now org id u (some existing) d d' a h =
    let (row, t, read, k) = bind_ok _ _ d a d' h in
    ground (arith, (get_tx_ok q org id d t row read).1, (pure_ok _ a t d' k).1)

pub upload_in_events :
    (q : Sql) (now : ℕ) (org id : String) (u : UploadRecord) (d d' : Database) (a : Document)
    → upload_in q now org id u none d ≡ (ok a, d')
    → d'.events ≡ d.events
unfolding upload_in
upload_in_events q now org id u d d' a h =
    let (x1, d1, begun, h1) = bind_ok _ _ d a d' h in
    let (x2, d2, checked, h2) = bind_ok _ _ d1 a d' h1 in
    let (o, d3, asked, h3) = bind_ok _ _ d2 a d' h2 in
    ground (
      arith,
      control_ok q _ _ d d1 begun,
      check_owner_ok q _ org id d1 d2 checked,
      (find_upload_ok q _ org _ d2 d3 o asked).1,
      upload_unless_events q now org id u o d3 d' a h3,
    )

put_event_ok :
    (event : OutboxEvent) (d d' : Database)
    → put_event event d ≡ ok (tt, d')
    → d'.events ≡ (
        if any (λ row. row.event.id == event.id) d.events
        then d.events
        else d.events ++ waiting_row event ∷ [])
unfolding put_event has_event
put_event_ok event d d' h = ground arith

confirm_pending_events :
    (q : Sql) (now : ℕ) (org id upload_id : String) (size : ℤ) (checksum : String)
    (event : OutboxEvent) (u v : UploadRecord) (d d' : Database)
    → confirm_pending q now org id upload_id size checksum event u d ≡ (ok v, d')
    → d'.events ≡ (
        if any (λ row. row.event.id == event.id) d.events
        then d.events
        else d.events ++ pending_row q event now ∷ [])
unfolding confirm_pending
confirm_pending_events q now org id upload_id size checksum event u v d d' h =
    let (x1, d1, c1, h1) = bind_ok _ _ d v d' h in
    let (x2, d2, c2, h2) = bind_ok _ _ d1 v d' h1 in
    let (x3, d3, c3, h3) = bind_ok _ _ d2 v d' h2 in
    let (x4, d4, set, h4) = bind_ok _ _ d3 v d' h3 in
    let (x5, d5, updated, h5) = bind_ok _ _ d4 v d' h4 in
    let (x6, d6, c6, h6) = bind_ok _ _ d5 v d' h5 in
    let (x7, d7, put, h7) = bind_ok _ _ d6 v d' h6 in
    let (x8, d8, committed, h8) = bind_ok _ _ d7 v d' h7 in
    let same : d3 ≡ d =
      ground
        (arith, (check_ok _ _ d d1 c1).1, (check_ok _ _ d1 d2 c2).1, (check_ok _ _ d2 d3 c3).1) in
    let kept : d6.events ≡ d.events = ground (
      arith,
      same,
      set_confirmed_events now org id upload_id size checksum d3 d4
          (statement_ok q _ _ (set_confirmed now org id upload_id size checksum) d3 d4 x4 set),
      (queue_document_ok q _ now org id _ size d4 d5 updated).0,
      (check_ok _ _ d5 d6 c6).1,
    ) in
    let added = put_event_ok _ d6 d7 (statement_ok q _ _ (put_event _) d6 d7 x7 put) in
    ground (arith, kept, added, control_ok q _ _ d7 d8 committed, (pure_ok _ v d8 d' h8).1)

confirm_unless_events :
    (q : Sql) (now : ℕ) (org id upload_id : String) (size : ℤ) (checksum : String)
    (event : OutboxEvent) (u v : UploadRecord) (d d' : Database)
    → confirm_unless q now org id upload_id size checksum event u d ≡ (ok v, d')
    → d'.events ≡ (
        if is_confirmed u.status || any (λ row. row.event.id == event.id) d.events
        then d.events
        else d.events ++ pending_row q event now ∷ [])
unfolding confirm_unless
confirm_unless_events q now org id upload_id size checksum event u v d d' h =
    either (is_confirmed u.status) refl h
  where
    either :
        (b : Bool)
        → is_confirmed u.status ≡ b
        → (if b then pure u else confirm_pending q now org id upload_id size checksum event u) d
          ≡ (ok v, d')
        → d'.events ≡ (
            if b || any (λ row. row.event.id == event.id) d.events
            then d.events
            else d.events ++ pending_row q event now ∷ [])
    either true e k = ground (arith, (pure_ok u v d d' k).1)
    either false e k = confirm_pending_events q now org id upload_id size checksum event u v d d' k

pub confirm_in_events :
    (q : Sql) (now : ℕ) (org id upload_id : String) (size : ℤ) (checksum : String)
    (event : OutboxEvent) (v : UploadRecord) (d d' : Database)
    → confirm_in q now org id upload_id size checksum event d ≡ (ok v, d')
    → (u : UploadRecord) × (select (is_upload org id upload_id) d.uploads ≡ some u)
      × (d'.events ≡ (
          if is_confirmed u.status || any (λ row. row.event.id == event.id) d.events
          then d.events
          else d.events ++ pending_row q event now ∷ []))
unfolding confirm_in
confirm_in_events q now org id upload_id size checksum event v d d' h =
    let (x1, d1, begun, h1) = bind_ok _ _ d v d' h in
    let (found, d2, read, h2) = bind_ok _ _ d1 v d' h1 in
    let (u, d3, required, h3) = bind_ok _ _ d2 v d' h2 in
    let begun_same = control_ok q _ _ d d1 begun in
    let (at, read_same) = query_ok q _ _ _ d1 d2 found read in
    let (e, required_same) = require_some_ok found _ u d2 d3 required in
    let same : d3 ≡ d = sym (begun_same ∙ read_same ∙ required_same) in
    (
      u,
      ap (λ (t : Database). select (is_upload org id upload_id) t.uploads) begun_same ∙ at ∙ e,
      confirm_unless_events q now org id upload_id size checksum event u v d d' (
          subst
            (λ (t : Database).
              confirm_unless q now org id upload_id size checksum event u t ≡ (ok v, d'))
            same h3),
    )
