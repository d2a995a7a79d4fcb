-- ===== src/Intake/Outbox/Delivery.antt =====
-- The outbox worker of internal/events/rabbitmq.go: the rows that it marks and the messages that it sends.
use doc_lens.Base.{
  ℕ, zero, suc, ◌+◌, String, ◌≡◌, refl, Bool, true, false, ◌||◌, not, List, [], ◌∷◌, All, arith,
  string_eq, eq_iff, Option, none, some, Result, ok, err, inl, inr,
}
use doc_lens.Intake.Database.{
  Database, EventRow, EventStatus, published, update, unless_fault, answer, mark_failed,
  mark_published, statement,
}
use doc_lens.Intake.Database.Rows.{All-imp}
use doc_lens.Intake.Database.Pointwise.{All-updated}
use doc_lens.Intake.Outbox.{
  OutboxRecord, due_rows, is_claimed, claimed_row, claim_rows, has_id, published_row, failed_row,
  RabbitPublisher, Turn, Message, message_of, publish, note_failure, note_mark, note_answer,
  mark_outbox_failed, mark_outbox_published, publish_record, publish_records, after_claim,
  publish_outbox_batch, run_outbox_publisher, backoff,
}
use doc_lens.Intake.Outbox.Batch.{claim_ends}

abbrev pub is_published : EventStatus → Bool
is_published published = true
is_published _ = false

module _ {W : Type 0} (publisher : RabbitPublisher W) (sent : W → String → Bool) where
  -- A row that is published was sent under its id.
  abbrev pub IsSent : W → EventRow → Type 0
  IsSent w row = (not (is_published row.status) || sent w row.event.id) ≡ true

  note_failure-IsSent :
      (t : Turn) (r : OutboxRecord) (text : String) (d : Database) (w : W)
      → All (IsSent w) d.events
      → All (IsSent w) (note_failure t r text d).events
  unfolding note_failure mark_outbox_failed statement failed_row
  note_failure-IsSent t r text d w h = either (t.q.fault mark_failed)
    where
      either :
          (o : Option String)
          → All
              (IsSent w)
              (unless_fault o
                (λ (e : String). e)
                (answer t.q
                  (λ e. e)
                  (ok (
                    tt,
                    record d {
                      events =
                          update
                            (has_id r.id)
                            (failed_row text (t.now + backoff r.attempt_count))
                            d.events;
                    },
                  )))
                d).1.events
      either (some e) = h
      either none =
          All-updated (IsSent w) (IsSent w) (has_id r.id) _ d.events (λ row k e. refl)
            (λ row k e. k) h

  note_answer-IsSent :
      (t : Turn) (r : OutboxRecord) (a : Result String Unit) (d : Database) (w : W)
      → (a ≡ ok tt → sent w r.id ≡ true)
      → All (IsSent w) d.events
      → All (IsSent w) (note_answer t r a d).events
  unfolding note_answer note_mark mark_outbox_published statement published_row
  note_answer-IsSent t r (err text) d w s h = note_failure-IsSent t r text d w h
  note_answer-IsSent t r (ok done) d w s h = either (t.q.fault mark_published)
    where
      marked : Option String → Result String Unit × Database
      marked o =
          unless_fault o (λ (e : String). e)
            (answer t.q (λ e. e)
              (ok (tt, record d { events = update (has_id r.id) (published_row t.now) d.events })))
            d

      either : (o : Option String) → All (IsSent w) (note_mark t r (marked o).0 (marked o).1).events
      either (some e) = note_failure-IsSent t r e d w h
      either none =
          All-updated (IsSent w) (IsSent w) (has_id r.id) _ d.events
            (λ row k e. ground (arith, s refl, (eq_iff row.event.id r.id).0 e)) (λ row k e. k) h

  module _
      (sends : (m : Message) (w : W)
        → (publisher.channel m w).0 ≡ ok tt
        → sent (publisher.channel m w).1 m.message_id ≡ true)
      (keeps : (m : Message) (w : W) (id : String)
        → sent w id ≡ true
        → sent (publisher.channel m w).1 id ≡ true) where
    publish_records-IsSent :
        (turn : ℕ → Turn) (i : ℕ) (records : List OutboxRecord) (d : Database) (w : W)
        → All (IsSent w) d.events
        → All
            (IsSent (publish_records publisher turn i records (d, w)).1)
            (publish_records publisher turn i records (d, w)).0.events
    unfolding publish_records publish_record publish message_of
    publish_records-IsSent turn i [] d w h = h
    publish_records-IsSent turn i (r ∷ records) d w h =
        let m = message_of publisher.exchange (turn i).now r in
        let (a, w') = publisher.channel m w in
        publish_records-IsSent turn (suc i) records (note_answer (turn i) r a d) w' (
          note_answer-IsSent (turn i) r a d w' (sends m w)
            (All-imp _ _ d.events (λ row k. ground (arith, k, keeps m w row.event.id)) h))

    claim_rows-IsSent :
        (now n : ℕ) (d : Database) (w : W)
        → All (IsSent w) d.events
        → All (IsSent w) (claim_rows now n d).1.events
    unfolding claim_rows claimed_row
    claim_rows-IsSent now n d w h =
        All-updated (IsSent w) (IsSent w) (is_claimed (due_rows now n d)) _ d.events
          (λ row k e. refl) (λ row k e. k) h

    publish_outbox_batch-IsSent :
        (turn : ℕ → Turn) (d : Database) (w : W)
        → All (IsSent w) d.events
        → All
            (IsSent (publish_outbox_batch publisher turn (d, w)).1.1)
            (publish_outbox_batch publisher turn (d, w)).1.0.events
    unfolding publish_outbox_batch after_claim
    publish_outbox_batch-IsSent turn d w h = elim (claim_ends (turn 0).q (turn 0).now 50 d) [
      | inl (e, refused) ↦ rw refused h
      | inr (inl (e, unread)) ↦ rw unread (claim_rows-IsSent (turn 0).now 50 d w h)
      | inr (inr taken) ↦
          rw taken (publish_records-IsSent turn 1 _ _ w (claim_rows-IsSent (turn 0).now 50 d w h))
    ]

    -- If each published row's event was sent under its id, that is so after any number of rounds too,
    -- whatever fails: a row is marked only after the channel took its message. The channel forgets
    -- nothing that it sent, and what it accepts is sent.
    pub run_outbox_publisher-IsSent :
        (turns : ℕ → ℕ → Turn) (n : ℕ) (d : Database) (w : W)
        → All (IsSent w) d.events
        → All
            (IsSent (run_outbox_publisher publisher turns n (d, w)).1)
            (run_outbox_publisher publisher turns n (d, w)).0.events
    unfolding run_outbox_publisher
    run_outbox_publisher-IsSent turns zero d w h = h
    run_outbox_publisher-IsSent turns (suc n) d w h =
        let (d', w') = (publish_outbox_batch publisher (turns 0) (d, w)).1 in
        run_outbox_publisher-IsSent (λ i. turns (suc i)) n d' w'
          (publish_outbox_batch-IsSent (turns 0) d w h)
