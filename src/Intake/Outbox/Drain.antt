-- ===== src/Intake/Outbox/Drain.antt =====
-- The outbox worker of internal/events/rabbitmq.go when nothing fails.
use doc_lens.Base.{
  ℕ, zero, suc, ◌*◌, ◌-◌, ◌≤◌, String, ◌≡◌, refl, ap, ap₂, sym, subst, ◌∙◌, Bool, true, false, ◌||◌,
  ◌&&◌, not, List, [], ◌∷◌, All, map, arith, string_eq, eq_iff, Result, ok, leb, none, ◌>>=◌,
}
use doc_lens.Intake.Database.{
  Database, EventRow, EventStatus, published, update, Statement, mark_published, statement, query,
  claim, scan_records, iterate_records,
}
use doc_lens.Intake.Database.Pointwise.{All-updated}
use doc_lens.Intake.Database.Rows.{All-imp}
use doc_lens.Intake.Database.Counts.{
  count, count_le, count_le_on, count_zero, count-update, count-update_le, count-left,
}
use doc_lens.Intake.Outbox.{
  OutboxRecord, is_waiting, is_due, is_earlier, due_rows, is_claimed, claimed_row, claim_rows,
  claim_outbox, record_of, has_id, published_row, RabbitPublisher, Turn, Message, message_of,
  publish, note_answer, note_mark, mark_outbox_published, publish_record, publish_records,
  after_claim, publish_outbox_batch, run_outbox_publisher,
}
use doc_lens.Intake.Outbox.Lifecycle.{is_publishing, in_records}
use doc_lens.Intake.Outbox.Batch.{in_record_of}

abbrev pub waits : EventRow → Bool
waits row = is_waiting row.status

-- The row may be claimed at `time`, if it waits.
abbrev pub IsFit : ℕ → EventRow → Type 0
IsFit time row = (not (waits row) || leb row.next_attempt_at time) ≡ true

abbrev pub IsIdle : EventRow → Type 0
IsIdle row = is_publishing row.status ≡ false

-- Only rows of the records are being published.
abbrev IsLeft : List OutboxRecord → EventRow → Type 0
IsLeft records row = (not (is_publishing row.status) || in_records records row) ≡ true

-- The rows of a batch, at each point of it, from rows `before` it.
record IsBetween (time : ℕ) (records : List OutboxRecord) (bound : ℕ) (rows : List EventRow)
    : Type 0 where
  fit : All (IsFit time) rows
  left : All (IsLeft records) rows
  fewer : count waits rows ≤ bound

mark_published_total :
    (t : Turn) (r : OutboxRecord) (d : Database)
    → t.q.fault mark_published ≡ none
    → note_answer t r (ok tt) d
      ≡ record d { events = update (has_id r.id) (published_row t.now) d.events }
unfolding note_answer note_mark mark_outbox_published statement
mark_published_total t r d f = ground (arith, f)

one_published :
    (time now bound : ℕ) (r : OutboxRecord) (records : List OutboxRecord) (rows : List EventRow)
    → IsBetween time (r ∷ records) bound rows
    → IsBetween time records bound (update (has_id r.id) (published_row now) rows)
unfolding published_row
one_published time now bound r records rows h = record {
  fit =
      All-updated (IsFit time) (IsFit time) (has_id r.id) _ rows (λ row k e. refl) (λ row k e. k)
        h.fit;
  left =
      All-updated (IsLeft (r ∷ records)) (IsLeft records) (has_id r.id) _ rows (λ row k e. refl)
        (λ row k e. ground (arith, k, e, eq_iff r.id row.event.id, eq_iff row.event.id r.id))
        h.left;
  fewer =
      omega (
        arith,
        h.fewer,
        count-update_le waits (has_id r.id) (published_row now) rows (λ row. refl),
      );
}

claimed_fewer :
    (time now : ℕ) (d : Database)
    → time ≤ now
    → All (IsFit time) d.events
    → count waits (update (is_claimed (due_rows now 50 d)) claimed_row d.events)
      ≤ count waits d.events - 50
unfolding claimed_row is_claimed due_rows is_due
claimed_fewer time now d after fit = omega (
  arith,
  count-update waits (is_claimed (due_rows now 50 d)) claimed_row d.events (λ row. refl),
  count_le_on (λ row. waits row && not (is_claimed (due_rows now 50 d) row))
      (λ row. is_due now row && not (is_claimed (due_rows now 50 d) row)) d.events
      (All-imp _ _ d.events (λ row k. ground (arith, k, after)) fit),
  count-left (λ row. row.event.id) (is_due now) is_earlier 50 d.events,
  count_le (is_due now) waits d.events (λ row k. ground arith),
)

claim_rows-IsBetween :
    (time now : ℕ) (d : Database)
    → time ≤ now
    → All (IsFit time) d.events
    → All IsIdle d.events
    → IsBetween time
        (claim_rows now 50 d).0
        (count waits d.events - 50)
        (claim_rows now 50 d).1.events
unfolding claim_rows claimed_row
claim_rows-IsBetween time now d after fit idle =
    let claimed = due_rows now 50 d in
    record {
      fit =
          All-updated (IsFit time) (IsFit time) (is_claimed claimed) _ d.events (λ row k e. refl)
            (λ row k e. k) fit;
      left =
          All-updated IsIdle (IsLeft (map record_of claimed)) (is_claimed claimed) _ d.events
            (λ row k e. ground (arith, in_record_of claimed row)) (λ row k e. ground (arith, k))
            idle;
      fewer = claimed_fewer time now d after fit;
    }

module _ {W : Type 0} (publisher : RabbitPublisher W)
    (takes : (m : Message) (w : W) → (publisher.channel m w).0 ≡ ok tt) where
  publish_record_total :
      (t : Turn) (r : OutboxRecord) (d : Database) (w : W)
      → t.q.fault mark_published ≡ none
      → publish_record publisher t r (d, w) ≡ (
        record d { events = update (has_id r.id) (published_row t.now) d.events },
        (publisher.channel (message_of publisher.exchange t.now r) w).1,
      )
  unfolding publish_record publish
  publish_record_total t r d w works =
      ap₂ (λ (a : Result String Unit) (w' : W). (note_answer t r a d, w')) (takes _ w) refl
      ∙ ap (λ (x : Database). (x, (publisher.channel (message_of publisher.exchange t.now r) w).1))
          (mark_published_total t r d works)

  publish_records-IsBetween :
      (turn : ℕ → Turn) (time bound i : ℕ) (records : List OutboxRecord) (d : Database) (w : W)
      → ((j : ℕ) → (turn j).q.fault mark_published ≡ none)
      → IsBetween time records bound d.events
      → IsBetween time [] bound (publish_records publisher turn i records (d, w)).0.events
  unfolding publish_records
  publish_records-IsBetween turn time bound i [] d w works h = h
  publish_records-IsBetween turn time bound i (r ∷ records) d w works h =
      subst
        (λ (s : Database × W).
          IsBetween time [] bound (publish_records publisher turn (suc i) records s).0.events)
        (sym (publish_record_total (turn i) r d w (works i)))
        (publish_records-IsBetween turn time bound (suc i) records
          (record d { events = update (has_id r.id) (published_row (turn i).now) d.events }) _ works
          (one_published time (turn i).now bound r records d.events h))

  claim_total :
      (t : Turn) (n : ℕ) (d : Database)
      → ((s : Statement) → t.q.fault s ≡ none)
      → claim_outbox t.q t.now n d ≡ (ok (claim_rows t.now n d).0, (claim_rows t.now n d).1)
  unfolding claim_outbox query statement ◌>>=◌
  claim_total t n d works = ground (arith, works claim, works scan_records, works iterate_records)

  publish_outbox_batch-IsBetween :
      (turn : ℕ → Turn) (time : ℕ) (d : Database) (w : W)
      → ((j : ℕ) (s : Statement) → (turn j).q.fault s ≡ none)
      → time ≤ (turn 0).now
      → All (IsFit time) d.events
      → All IsIdle d.events
      → IsBetween time []
          (count waits d.events - 50)
          (publish_outbox_batch publisher turn (d, w)).1.0.events
  unfolding publish_outbox_batch after_claim
  publish_outbox_batch-IsBetween turn time d w works after fit idle =
      rw (claim_total (turn 0) 50 d (works 0)) (
        publish_records-IsBetween turn time _ 1 _ _ w (λ j. works j mark_published)
          (claim_rows-IsBetween time (turn 0).now d after fit idle))

  all_published :
      (rows : List EventRow)
      → All (λ row. waits row ≡ false) rows
      → All IsIdle rows
      → All (λ row. row.status ≡ published) rows
  all_published [] h k = tt
  all_published (row ∷ rows) (h, hs) (k, ks) = (known row.status h k, all_published rows hs ks)
    where
      known : (s : EventStatus) → is_waiting s ≡ false → is_publishing s ≡ false → s ≡ published
      known published a b = refl
      known _ a b = cc

  -- With no statement failing and a channel that takes every message, rounds after `time` publish
  -- the whole outbox, if there are at least as many of them as batches of 50 are needed for the
  -- waiting rows, all of which may be claimed at `time`, and no row was being published before.
  pub outbox_drains :
      (turns : ℕ → ℕ → Turn) (time n : ℕ) (d : Database) (w : W)
      → ((i j : ℕ) (s : Statement) → (turns i j).q.fault s ≡ none)
      → ((i : ℕ) → time ≤ (turns i 0).now)
      → All (IsFit time) d.events
      → All IsIdle d.events
      → count waits d.events ≤ 50 * n
      → All (λ row. row.status ≡ published) (run_outbox_publisher publisher turns n (d, w)).0.events
  unfolding run_outbox_publisher
  outbox_drains turns time zero d w works after fit idle few =
      all_published d.events (count_zero waits d.events (omega (arith, few))) idle
  outbox_drains turns time (suc n) d w works after fit idle few =
      let round = publish_outbox_batch-IsBetween (turns 0) time d w (works 0) (after 0) fit idle in
      let (d', w') = (publish_outbox_batch publisher (turns 0) (d, w)).1 in
      outbox_drains (λ i. turns (suc i)) time n d' w' (λ i. works (suc i)) (λ i. after (suc i))
        round.fit (All-imp _ _ d'.events (λ row k. ground (arith, k)) round.left)
        (omega (arith, round.fewer, few))
