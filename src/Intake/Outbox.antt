-- ===== src/Intake/Outbox.antt =====
-- The outbox of doclens-document-intake-service: `ClaimOutbox`, `MarkOutboxPublished` and
-- `MarkOutboxFailed` of internal/store/postgres.go, and the worker of internal/events/rabbitmq.go.
-- The AMQP channel is a parameter. Row locks make a claim one step.
pub mod Lifecycle
pub mod Batch
pub mod Rounds
pub mod Delivery
pub mod Drain
pub mod Abandoned
use Prim.Native.String.{◌++◌}
use doc_lens.Base.{
  ℕ, zero, suc, ◌+◌, ◌*◌, ◌^◌, min, String, Bool, true, false, ◌&&◌, ◌||◌, not, List, [], ◌∷◌, map,
  Option, none, some, any, ltb, leb, ◌==◌, string_eq, nat_eq, if◌then◌else◌, Result, ok, err, Exec,
  pure, left, micros, ◌>>=◌, ◌>>◌,
}
use doc_lens.Intake.Types.{OutboxEvent}
use doc_lens.Intake.Database.{
  Database, EventRow, EventStatus, event_pending, publishing, published, event_failed, Statement,
  claim, scan_records, iterate_records, mark_published, mark_failed, Sql, statement, query,
  select_all, update, order_by, limit,
}

pub record OutboxRecord : Type 0 where
  pub id : String
  pub routing_key : String
  pub payload : String
  pub attempt_count : ℕ

-- `status IN ('pending', 'failed')`
abbrev pub is_waiting : EventStatus → Bool
is_waiting event_pending = true
is_waiting event_failed = true
is_waiting _ = false

unfoldable pub is_due : ℕ → EventRow → Bool
is_due now row = is_waiting row.status && leb row.next_attempt_at now

-- `ORDER BY next_attempt_at, created_at`
unfoldable pub is_earlier : EventRow → EventRow → Bool
is_earlier a b =
    ltb a.next_attempt_at b.next_attempt_at
    || (a.next_attempt_at == b.next_attempt_at && ltb a.event.created_at b.event.created_at)

-- The rows that a claim at `now` takes.
unfoldable pub due_rows : ℕ → ℕ → Database → List EventRow
due_rows now n d = limit n (order_by is_earlier (select_all (is_due now) d.events))

abbrev pub has_id : String → EventRow → Bool
has_id id row = row.event.id == id

-- `WHERE e.id = claimed.id`
unfoldable pub is_claimed : List EventRow → EventRow → Bool
is_claimed claimed row = any (λ c. c.event.id == row.event.id) claimed

unfoldable pub claimed_row : EventRow → EventRow
claimed_row row = record row { status = publishing; attempt_count = row.attempt_count + 1 }

-- The row as a claim returns it.
unfoldable pub record_of : EventRow → OutboxRecord
record_of row = record {
  id = row.event.id;
  routing_key = row.event.routing_key;
  payload = row.event.payload;
  attempt_count = row.attempt_count + 1;
}

-- The statement of a claim: the rows come back in the order in which they were claimed, which SQL
-- leaves open.
unfoldable pub claim_rows : ℕ → ℕ → Database → List OutboxRecord × Database
claim_rows now n d =
    let claimed = due_rows now n d in
    (map record_of claimed, record d { events = update (is_claimed claimed) claimed_row d.events })

-- The update stands where reading its rows fails.
unfoldable pub claim_outbox : Sql → ℕ → ℕ → Exec Database String (List OutboxRecord)
claim_outbox q now n = do
  records ←
      statement q claim (λ e. "claim event outbox records: " ++ e) (λ d. ok (claim_rows now n d))
  query q scan_records (λ e. "scan event outbox record: " ++ e) (λ d. tt)
  query q iterate_records (λ e. e) (λ d. tt)
  pure records

unfoldable pub published_row : ℕ → EventRow → EventRow
published_row now row = record row {
  status = published;
  published_at = some (micros now);
  last_error = "";
}

unfoldable pub mark_outbox_published : Sql → String → ℕ → Exec Database String Unit
mark_outbox_published q id now =
    statement q mark_published (λ e. e)
      (λ d. ok (tt, record d { events = update (has_id id) (published_row now) d.events }))

unfoldable pub failed_row : String → ℕ → EventRow → EventRow
failed_row last_error next_attempt_at row = record row {
  status = event_failed;
  last_error = left 1000 last_error;
  next_attempt_at = micros next_attempt_at;
}

unfoldable pub mark_outbox_failed : Sql → String → String → ℕ → Exec Database String Unit
mark_outbox_failed q id last_error next_attempt_at =
    statement q mark_failed (λ e. e)
      (λ d. ok (
        tt,
        record d { events = update (has_id id) (failed_row last_error next_attempt_at) d.events },
      ))

-- `amqp091.Publishing`, with the exchange and the routing key. Every message is persistent.
pub record Message : Type 0 where
  pub exchange : String
  pub routing_key : String
  pub content_type : String
  pub message_id : String
  pub timestamp : ℕ
  pub body : String

-- `RabbitPublisher`: the channel's `PublishWithContext` and the exchange.
pub record RabbitPublisher (W : Type 0) : Type 0 where
  pub channel : Message → Exec W String Unit
  pub exchange : String

unfoldable pub message_of : String → ℕ → OutboxRecord → Message
message_of exchange now r = record {
  exchange = exchange;
  routing_key = r.routing_key;
  content_type = "application/json";
  message_id = r.id;
  timestamp = now;
  body = r.payload;
}

unfoldable pub publish : {W : Type 0} → RabbitPublisher W → ℕ → OutboxRecord → Exec W String Unit
publish publisher now r = publisher.channel (message_of publisher.exchange now r)

-- `time.Duration(1<<min(record.AttemptCount, 6)) * time.Second`
unfoldable pub backoff : ℕ → ℕ
backoff attempt_count = 2 ^ min attempt_count 6 * 1_000_000_000

-- What the server and the clock do while one record is worked on.
pub record Turn : Type 0 where
  pub q : Sql
  pub now : ℕ

-- The tables after the publisher answered; an error of `MarkOutboxFailed` is only logged.
unfoldable pub note_failure : Turn → OutboxRecord → String → Database → Database
note_failure t r text d = (mark_outbox_failed t.q r.id text (t.now + backoff r.attempt_count) d).1

unfoldable pub note_mark : Turn → OutboxRecord → Result String Unit → Database → Database
note_mark t r (ok done) d = d
note_mark t r (err text) d = note_failure t r text d

unfoldable pub note_answer : Turn → OutboxRecord → Result String Unit → Database → Database
note_answer t r (err text) d = note_failure t r text d
note_answer t r (ok done) d =
    let (marked, d') = mark_outbox_published t.q r.id t.now d in note_mark t r marked d'

-- The loop's body.
unfoldable pub publish_record :
    {W : Type 0} → RabbitPublisher W → Turn → OutboxRecord → Database × W → Database × W
publish_record publisher t r (d, w) =
    let (answer, w') = publish publisher t.now r w in (note_answer t r answer d, w')

-- The loop, with the turn that each record gets.
unfoldable pub publish_records :
    {W : Type 0}
    → RabbitPublisher W
    → (ℕ → Turn)
    → ℕ
    → List OutboxRecord
    → Database × W
    → Database × W
publish_records publisher turn i [] s = s
publish_records publisher turn i (r ∷ records) s =
    publish_records publisher turn (suc i) records (publish_record publisher (turn i) r s)

-- A failed claim ends the batch; the first turn is the claim's.
unfoldable pub after_claim :
    {W : Type 0}
    → RabbitPublisher W
    → (ℕ → Turn)
    → Result String (List OutboxRecord)
    → Exec (Database × W) String Unit
after_claim publisher turn (err e) s = (err e, s)
after_claim publisher turn (ok records) s = (ok tt, publish_records publisher turn 1 records s)

unfoldable pub publish_outbox_batch :
    {W : Type 0} → RabbitPublisher W → (ℕ → Turn) → Exec (Database × W) String Unit
publish_outbox_batch publisher turn (d, w) =
    let (claimed, d') = claim_outbox (turn 0).q (turn 0).now 50 d in
    after_claim publisher turn claimed (d', w)

-- `RunOutboxPublisher`, `n` rounds of it: an error of a batch is only logged.
unfoldable pub run_outbox_publisher :
    {W : Type 0} → RabbitPublisher W → (ℕ → ℕ → Turn) → ℕ → Database × W → Database × W
run_outbox_publisher publisher turns zero s = s
run_outbox_publisher publisher turns (suc n) s =
    run_outbox_publisher publisher (λ i. turns (suc i)) n
      (publish_outbox_batch publisher (turns 0) s).1
