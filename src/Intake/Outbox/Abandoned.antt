-- ===== src/Intake/Outbox/Abandoned.antt =====
-- The outbox worker of internal/events/rabbitmq.go after a worker that stopped between a claim and
-- its marks.
use doc_lens.Base.{
  ℕ, zero, suc, ◌+◌, String, ◌≡◌, refl, ap, ◌∙◌, true, false, ◌||◌, not, List, [], ◌∷◌, All, arith,
  string_eq, eq_iff, Option, none, some, Result, ok, err, get_elem?, Preorder, inl, inr,
}
use doc_lens.Intake.Database.{
  Database, EventRow, publishing, update, unless_fault, answer, statement, mark_failed,
  mark_published,
}
use doc_lens.Intake.Database.Rows.{All-imp}
use doc_lens.Intake.Database.Keys.{Distinct, selected_only}
use doc_lens.Intake.Database.Pointwise.{
  Pointwise, nil, both, Pointwise-refl, Pointwise-trans, Pointwise-change,
}
use doc_lens.Intake.Outbox.{
  OutboxRecord, is_due, due_rows, is_claimed, claimed_row, claim_rows, has_id, published_row,
  failed_row, RabbitPublisher, Turn, backoff, note_failure, note_mark, note_answer,
  mark_outbox_failed, mark_outbox_published, publish, publish_record, publish_records, after_claim,
  publish_outbox_batch, run_outbox_publisher,
}
use doc_lens.Intake.Outbox.Lifecycle.{in_records, is_publishing}
use doc_lens.Intake.Outbox.Batch.{
  event_id, claim_ends, in_record_of, publish_outbox_batch-RowRun, claimed_due,
}
use doc_lens.Intake.Outbox.Rounds.{Distinct-run}

-- Only rows of the records change.
record Untouched (records : List OutboxRecord) (row row' : EventRow) : Type 0 where
  stays : in_records records row ≡ false → row' ≡ row

instance untouched : {records : List OutboxRecord} → Preorder (Untouched records)
untouched {records = records} = record {
  reflexive = λ r. record { stays = λ h. refl };
  transitive = λ r s t a b. record {
    stays = λ h. let same = a.stays h in b.stays (ap (in_records records) same ∙ h) ∙ same;
  };
}

module _ (r : OutboxRecord) (records : List OutboxRecord) where
  marked_only :
      (change : EventRow → EventRow) (rows : List EventRow)
      → Pointwise (Untouched (r ∷ records)) rows (update (has_id r.id) change rows)
  marked_only change rows = Pointwise-change (has_id r.id) change rows (λ row e. record {
    stays = λ h. absurd (ground (arith, h, e, eq_iff row.event.id r.id, eq_iff r.id row.event.id));
  })

  failure_only :
      (t : Turn) (text : String) (d : Database)
      → Pointwise (Untouched (r ∷ records)) d.events (note_failure t r text d).events
  unfolding note_failure mark_outbox_failed statement
  failure_only t text d = either (t.q.fault mark_failed)
    where
      either :
          (o : Option String)
          → Pointwise
              (Untouched (r ∷ records))
              d.events
              (unless_fault o
                (λ (e : String). e)
                (answer t.q
                  (λ e. e)
                  (ok (
                    tt,
                    record d {
                      events =
                          update
                            (has_id r.id)
                            (failed_row text (t.now + backoff r.attempt_count))
                            d.events;
                    },
                  )))
                d).1.events
      either (some e) = Pointwise-refl d.events
      either none = marked_only _ d.events

  answer_only :
      (t : Turn) (a : Result String Unit) (d : Database)
      → Pointwise (Untouched (r ∷ records)) d.events (note_answer t r a d).events
  unfolding note_answer note_mark mark_outbox_published statement
  answer_only t (err text) d = failure_only t text d
  answer_only t (ok done) d = either (t.q.fault mark_published)
    where
      marked : Option String → Result String Unit × Database
      marked o =
          unless_fault o (λ (e : String). e)
            (answer t.q (λ e. e)
              (ok (tt, record d { events = update (has_id r.id) (published_row t.now) d.events })))
            d

      either :
          (o : Option String)
          → Pointwise
              (Untouched (r ∷ records))
              d.events
              (note_mark t r (marked o).0 (marked o).1).events
      either (some e) = failure_only t e d
      either none = marked_only (published_row t.now) d.events

  more_records :
      {xs ys : List EventRow}
      → Pointwise (Untouched records) xs ys
      → Pointwise (Untouched (r ∷ records)) xs ys
  more_records nil = nil
  more_records (both h hs) =
      both (record { stays = λ k. h.stays (ground (arith, k)) }) (more_records hs)

-- A row that is being published before the batch stays as it is.
record Abandoned (row row' : EventRow) : Type 0 where
  stays : row.status ≡ publishing → row' ≡ row

instance abandoned : Preorder Abandoned
abandoned = record {
  reflexive = λ r. record { stays = λ h. refl };
  transitive = λ r s t a b. record {
    stays = λ h. let same = a.stays h in b.stays (ap (λ (x : EventRow). x.status) same ∙ h) ∙ same;
  };
}

module _ {W : Type 0} (publisher : RabbitPublisher W) where
  records_only :
      (turn : ℕ → Turn) (i : ℕ) (records : List OutboxRecord) (d : Database) (w : W)
      → Pointwise
          (Untouched records)
          d.events
          (publish_records publisher turn i records (d, w)).0.events
  unfolding publish_records publish_record
  records_only turn i [] d w = Pointwise-refl d.events
  records_only turn i (r ∷ records) d w =
      let (a, w') = publish publisher (turn i).now r w in
      Pointwise-trans (answer_only r records (turn i) a d)
        (more_records r records (records_only turn (suc i) records (note_answer (turn i) r a d) w'))

  claim_only :
      (now n : ℕ) (d : Database)
      → Pointwise (Untouched (claim_rows now n d).0) d.events (claim_rows now n d).1.events
  unfolding claim_rows
  claim_only now n d =
      Pointwise-change (is_claimed (due_rows now n d)) claimed_row d.events (λ row e. record {
        stays = λ h. absurd (ground (arith, h, e, in_record_of (due_rows now n d) row));
      })

  -- A row that is being published is not claimed.
  not_claimed :
      (now n : ℕ) (d : Database)
      → Distinct event_id d.events
      → All
          (λ row.
            (not (is_publishing row.status) || not (in_records (claim_rows now n d).0 row)) ≡ true)
          d.events
  unfolding claim_rows is_due
  not_claimed now n d distinct =
      All-imp _ _ d.events
        (λ row h.
          ground (arith, in_record_of (due_rows now n d) row, claimed_due now n d distinct row h))
        (selected_only event_id (is_due now) d.events distinct)

  abandoned_rows :
      (records : List OutboxRecord) {xs ys : List EventRow}
      → Pointwise (Untouched records) xs ys
      → All (λ row. (not (is_publishing row.status) || not (in_records records row)) ≡ true) xs
      → Pointwise Abandoned xs ys
  abandoned_rows records nil k = nil
  abandoned_rows records (both {x = x} h hs) (k, ks) =
      both (record { stays = λ e. h.stays (ground (arith, k, ap is_publishing e)) })
        (abandoned_rows records hs ks)

  batch-Abandoned :
      (turn : ℕ → Turn) (d : Database) (w : W)
      → Distinct event_id d.events
      → Pointwise Abandoned d.events (publish_outbox_batch publisher turn (d, w)).1.0.events
  unfolding publish_outbox_batch after_claim
  batch-Abandoned turn d w distinct = elim (claim_ends (turn 0).q (turn 0).now 50 d) [
    | inl (e, refused) ↦ rw refused (Pointwise-refl d.events)
    | inr (inl (e, unread)) ↦
        rw unread
          (abandoned_rows _ (claim_only (turn 0).now 50 d) (not_claimed (turn 0).now 50 d distinct))
    | inr (inr taken) ↦ rw taken (
        abandoned_rows _
          (Pointwise-trans (claim_only (turn 0).now 50 d) (records_only turn 1 _ _ w))
          (not_claimed (turn 0).now 50 d distinct))
  ]

  run-Abandoned :
      (turns : ℕ → ℕ → Turn) (n : ℕ) (d : Database) (w : W)
      → Distinct event_id d.events
      → Pointwise Abandoned d.events (run_outbox_publisher publisher turns n (d, w)).0.events
  unfolding run_outbox_publisher
  run-Abandoned turns zero d w distinct = Pointwise-refl d.events
  run-Abandoned turns (suc n) d w distinct =
      let (d', w') = (publish_outbox_batch publisher (turns 0) (d, w)).1 in
      Pointwise-trans (batch-Abandoned (turns 0) d w distinct) (
        run-Abandoned (λ i. turns (suc i)) n d' w'
          (Distinct-run (publish_outbox_batch-RowRun publisher (turns 0) d w distinct) distinct))

  same_place :
      (i : ℕ) (row : EventRow) {xs ys : List EventRow}
      → Pointwise Abandoned xs ys
      → get_elem? xs i ≡ some row
      → row.status ≡ publishing
      → get_elem? ys i ≡ some row
  same_place i row nil h e = cc
  same_place zero row (both {x = x} k ks) h e =
      let same : x ≡ row = ground arith in
      ap some (k.stays (ap (λ (r : EventRow). r.status) same ∙ e) ∙ same)
  same_place (suc i) row (both k ks) h e = same_place i row ks h e

  -- A row that was claimed and then neither published nor failed, by a worker that stopped or could
  -- not mark it, is left by any number of later rounds as it is, if event ids differ: its event is
  -- not tried again.
  pub claimed_is_not_retried :
      (turns : ℕ → ℕ → Turn) (n : ℕ) (d : Database) (w : W) (i : ℕ) (row : EventRow)
      → Distinct event_id d.events
      → get_elem? d.events i ≡ some row
      → row.status ≡ publishing
      → get_elem? (run_outbox_publisher publisher turns n (d, w)).0.events i ≡ some row
  claimed_is_not_retried turns n d w i row distinct at e =
      same_place i row (run-Abandoned turns n d w distinct) at e
