-- ===== src/Intake/Outbox/Lifecycle.antt =====
-- The outbox worker of internal/events/rabbitmq.go against the life of an event: waiting, publishing,
-- published or failed.
use doc_lens.Base.{
  micros, left, min, ◌*◌, ◌^◌, ◌&&◌, nat_eq, ◌⊎◌, inl, inr, ◌≤◌, ℕ, ◌+◌, String, ◌≡◌, refl, ap, sym,
  subst, ◌∙◌, Bool, true, false, ◌||◌, not, List, ◌∷◌, any, All, arith, ◌==◌, string_eq, eq_iff,
  Preorder, Option, none, some, Result, ok, err,
}
use doc_lens.Intake.Database.{
  Database, EventRow, EventStatus, event_pending, event_failed, published, publishing,
  mark_published, mark_failed, update, statement, unless_fault, answer,
}
use doc_lens.Intake.Database.Rows.{All-imp}
use doc_lens.Intake.Database.Keys.{without}
use doc_lens.Intake.Database.Pointwise.{Pointwise, Pointwise-refl, Pointwise-update, All-updated}
use doc_lens.Intake.Outbox.{
  OutboxRecord, is_waiting, is_due, claimed_row, has_id, published_row, failed_row,
  mark_outbox_published, mark_outbox_failed, Turn, note_failure, backoff, note_mark, note_answer,
}

-- What may happen to the row of one event: a claim when it waits and its time has come, and, while it
-- is being published, its end or a failure with the time of the next attempt.
pub data RowStep : EventRow → EventRow → Type 0 where
  claims :
      (now : ℕ) (row : EventRow)
      → (row.status ≡ event_pending) ⊎ (row.status ≡ event_failed)
      → row.next_attempt_at ≤ now
      → RowStep row (record row { status = publishing; attempt_count = row.attempt_count + 1 })
  publishes :
      (now : ℕ) (row : EventRow)
      → row.status ≡ publishing
      → RowStep row
          (record row { status = published; published_at = some (micros now); last_error = "" })
  fails :
      (text : String) (now : ℕ) (row : EventRow)
      → row.status ≡ publishing
      → RowStep row (record row {
        status = event_failed;
        last_error = left 1000 text;
        next_attempt_at = micros (now + 2 ^ min row.attempt_count 6 * 1_000_000_000);
      })

pub data RowRun (row : EventRow) : EventRow → Type 0 where
  here : RowRun row row
  next : {s t : EventRow} → RowRun row s → RowStep s t → RowRun row t

RowRun-trans : {r s t : EventRow} → RowRun r s → RowRun s t → RowRun r t
RowRun-trans h here = h
RowRun-trans h (next k step) = next (RowRun-trans h k) step

instance pub row_run : Preorder RowRun
row_run = record { reflexive = λ r. here; transitive = λ r s t h k. RowRun-trans h k }

waiting_status : (s : EventStatus) → is_waiting s ≡ true → (s ≡ event_pending) ⊎ (s ≡ event_failed)
waiting_status event_pending h = inl refl
waiting_status event_failed h = inr refl
waiting_status publishing h = absurd (ground arith)
waiting_status published h = absurd (ground arith)

-- The claim of a row that is due.
pub due_claims : (now : ℕ) (row : EventRow) → is_due now row ≡ true → RowStep row (claimed_row row)
unfolding is_due claimed_row
due_claims now row h =
    claims now row (waiting_status row.status (ground (arith, h))) (ground (arith, h))

publishes_row :
    (now : ℕ) (row : EventRow) → row.status ≡ publishing → RowStep row (published_row now row)
unfolding published_row
publishes_row now row h = publishes now row h

fails_row :
    (text : String) (now n : ℕ) (row : EventRow)
    → row.status ≡ publishing
    → n ≡ row.attempt_count
    → RowStep row (failed_row text (now + backoff n) row)
unfolding failed_row backoff
fails_row text now n row h e =
    subst
      (λ (k : ℕ). RowStep row (record row {
        status = event_failed;
        last_error = left 1000 text;
        next_attempt_at = micros (now + 2 ^ min k 6 * 1_000_000_000);
      }))
      (sym e) (fails text now row h)

-- The rows that the worker still has to publish are being published, after as many attempts as their
-- records say.
abbrev pub in_records : List OutboxRecord → EventRow → Bool
in_records records row = any (λ r. r.id == row.event.id) records

abbrev pub is_publishing : EventStatus → Bool
is_publishing publishing = true
is_publishing _ = false

abbrev pub Ready : List OutboxRecord → EventRow → Type 0
Ready records row =
    ((not (in_records records row) || is_publishing row.status)
      && not
          (any (λ r. r.id == row.event.id && not (r.attempt_count == row.attempt_count)) records))
    ≡ true

publishing_status : (s : EventStatus) → is_publishing s ≡ true → s ≡ publishing
publishing_status publishing h = refl
publishing_status _ h = cc

-- A row of the record at hand moves on; the others stay ready.
module _ (r : OutboxRecord) (records : List OutboxRecord) where
  Ready-now :
      (row : EventRow) → Ready (r ∷ records) row → has_id r.id row ≡ true → row.status ≡ publishing
  Ready-now row h e =
      publishing_status row.status
        (ground (arith, h, e, eq_iff row.event.id r.id, eq_iff r.id row.event.id))

  Ready-attempts :
      (row : EventRow)
      → Ready (r ∷ records) row
      → has_id r.id row ≡ true
      → r.attempt_count ≡ row.attempt_count
  Ready-attempts row h e = ground (arith, h, e, eq_iff row.event.id r.id, eq_iff r.id row.event.id)

  Ready-rest :
      (change : EventRow → EventRow) (rows : List EventRow)
      → ((row : EventRow) → (change row).event ≡ row.event)
      → any (λ s. s.id == r.id) records ≡ false
      → All (Ready (r ∷ records)) rows
      → All (Ready records) (update (has_id r.id) change rows)
  Ready-rest change rows same fresh h =
      All-updated (Ready (r ∷ records)) (Ready records) (has_id r.id) change rows
        (λ row ready e. gone row e) (λ row ready e. ground (arith, ready)) h
    where
      gone : (row : EventRow) → has_id r.id row ≡ true → Ready records (change row)
      gone row e =
          let other =
            subst (λ (id : String). any (λ (s : OutboxRecord). s.id == id) records ≡ false)
              (sym (ap (λ (x : _). x.id) (same row) ∙ (eq_iff row.event.id r.id).0 e)) fresh in
          ground (
            arith,
            other,
            without (λ (s : OutboxRecord). s.id == (change row).event.id)
                (λ s. not (s.attempt_count == (change row).attempt_count)) records other,
          )

  -- What working on the record does to the rows.
  pub record Progress (rows rows' : List EventRow) : Type 0 where
    pub moved : Pointwise RowRun rows rows'
    pub ready : All (Ready records) rows'

  stays : (rows : List EventRow) → All (Ready (r ∷ records)) rows → Progress rows rows
  stays rows h = record {
    moved = Pointwise-refl rows;
    ready = All-imp _ _ rows (λ row k. ground (arith, k)) h;
  }

  marks :
      (change : EventRow → EventRow) (rows : List EventRow)
      → ((row : EventRow) → (change row).event ≡ row.event)
      → ((row : EventRow)
          → row.status ≡ publishing
          → r.attempt_count ≡ row.attempt_count
          → RowStep row (change row))
      → any (λ s. s.id == r.id) records ≡ false
      → All (Ready (r ∷ records)) rows
      → Progress rows (update (has_id r.id) change rows)
  marks change rows same step fresh h = record {
    moved =
        Pointwise-update (Ready (r ∷ records)) (has_id r.id) change rows
          (λ row ready e. next here (step row (Ready-now row ready e) (Ready-attempts row ready e)))
          h;
    ready = Ready-rest change rows same fresh h;
  }

  note_failure-Progress :
      (t : Turn) (text : String) (d : Database)
      → any (λ s. s.id == r.id) records ≡ false
      → All (Ready (r ∷ records)) d.events
      → Progress d.events (note_failure t r text d).events
  unfolding note_failure mark_outbox_failed statement
  note_failure-Progress t text d fresh h = either (t.q.fault mark_failed)
    where
      either :
          (o : Option String)
          → Progress d.events
              (unless_fault o
                (λ (e : String). e)
                (answer t.q
                  (λ e. e)
                  (ok (
                    tt,
                    record d {
                      events =
                          update
                            (has_id r.id)
                            (failed_row text (t.now + backoff r.attempt_count))
                            d.events;
                    },
                  )))
                d).1.events
      either (some e) = stays d.events h
      either none =
          marks (failed_row text (t.now + backoff r.attempt_count)) d.events
            (unfold failed_row in λ row. refl) (fails_row text t.now r.attempt_count) fresh h

  pub note_answer-Progress :
      (t : Turn) (a : Result String Unit) (d : Database)
      → any (λ s. s.id == r.id) records ≡ false
      → All (Ready (r ∷ records)) d.events
      → Progress d.events (note_answer t r a d).events
  unfolding note_answer note_mark mark_outbox_published statement
  note_answer-Progress t (err text) d fresh h = note_failure-Progress t text d fresh h
  note_answer-Progress t (ok done) d fresh h = either (t.q.fault mark_published)
    where
      marked : Option String → Result String Unit × Database
      marked o =
          unless_fault o (λ (e : String). e)
            (answer t.q (λ e. e)
              (ok (tt, record d { events = update (has_id r.id) (published_row t.now) d.events })))
            d

      either :
          (o : Option String) → Progress d.events (note_mark t r (marked o).0 (marked o).1).events
      either (some e) = note_failure-Progress t e d fresh h
      either none =
          marks (published_row t.now) d.events (unfold published_row in λ row. refl)
            (λ row h e. publishes_row t.now row h) fresh h
