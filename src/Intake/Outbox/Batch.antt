-- ===== src/Intake/Outbox/Batch.antt =====
-- A whole batch of the outbox worker of internal/events/rabbitmq.go.
use Prim.Native.String.{◌++◌}
use doc_lens.Base.{
  ◌+◌, ◌&&◌, false, nat_eq, ℕ, suc, String, ◌≡◌, ◌⊎◌, inl, inr, Option-cases, refl, ◌∙◌, true, ◌||◌,
  not, List, [], ◌∷◌, map, any, All, arith, ◌==◌, string_eq, ok, err, ◌>>=◌,
}
use doc_lens.Intake.Database.{
  Database, EventRow, select_all, order_by, Sql, statement, query, claim, scan_records,
  iterate_records,
}
use doc_lens.Intake.Database.Keys.{
  Distinct, any-order_by, any-limit, Distinct-order_by, Distinct-limit, Distinct-select_all,
  selected_only, any-select_all, without, same_value,
}
use doc_lens.Intake.Database.Pointwise.{
  Pointwise, Pointwise-refl, Pointwise-trans, Pointwise-update, All-updated,
}
use doc_lens.Intake.Outbox.{
  OutboxRecord, is_due, due_rows, is_earlier, is_claimed, claimed_row, record_of, claim_rows,
  claim_outbox, RabbitPublisher, Turn, note_answer, publish, publish_record, publish_records,
  after_claim, publish_outbox_batch,
}
use doc_lens.Intake.Outbox.Lifecycle.{
  due_claims, RowRun, here, next, row_run, Ready, in_records, note_answer-Progress,
}

module _ {W : Type 0} where
  publish_records-RowRun :
      (publisher : RabbitPublisher W) (turn : ℕ → Turn) (i : ℕ) (records : List OutboxRecord)
      (d : Database) (w : W)
      → Distinct (λ r. r.id) records
      → All (Ready records) d.events
      → Pointwise RowRun d.events (publish_records publisher turn i records (d, w)).0.events
  unfolding publish_records publish_record
  publish_records-RowRun publisher turn i [] d w distinct h = Pointwise-refl d.events
  publish_records-RowRun publisher turn i (r ∷ records) d w (fresh, distinct) h =
      let (a, w') = publish publisher (turn i).now r w in
      let one = note_answer-Progress r records (turn i) a d fresh h in
      Pointwise-trans one.moved (
        publish_records-RowRun publisher turn (suc i) records (note_answer (turn i) r a d) w'
          distinct one.ready)

abbrev pub event_id : EventRow → String
event_id row = row.event.id

-- The records of a claim have the ids of the rows.
pub in_record_of :
    (claimed : List EventRow) (row : EventRow)
    → in_records (map record_of claimed) row ≡ is_claimed claimed row
unfolding record_of is_claimed
in_record_of [] row = refl
in_record_of (c ∷ cs) row = ground (arith, in_record_of cs row)

same_ids :
    (id : String) (claimed : List EventRow)
    → any (λ r. r.id == id) (map record_of claimed) ≡ any (λ c. c.event.id == id) claimed
unfolding record_of
same_ids id [] = refl
same_ids id (c ∷ cs) = ground (arith, same_ids id cs)

same_attempts :
    (id : String) (n : ℕ) (claimed : List EventRow)
    → any (λ r. r.id == id && not (r.attempt_count == n + 1)) (map record_of claimed)
      ≡ any (λ c. c.event.id == id && not (c.attempt_count == n)) claimed
unfolding record_of
same_attempts id n [] = refl
same_attempts id n (c ∷ cs) = ground (arith, same_attempts id n cs)

Distinct-record_of :
    (claimed : List EventRow)
    → Distinct event_id claimed
    → Distinct (λ r. r.id) (map record_of claimed)
unfolding record_of
Distinct-record_of [] h = tt
Distinct-record_of (c ∷ cs) (h, hs) = (same_ids c.event.id cs ∙ h, Distinct-record_of cs hs)

module _ (now n : ℕ) (d : Database) (distinct : Distinct event_id d.events) where
  due_rows-Distinct : Distinct event_id (due_rows now n d)
  unfolding due_rows
  due_rows-Distinct = Distinct-limit event_id n _ (
      Distinct-order_by event_id is_earlier _
        (Distinct-select_all event_id (is_due now) d.events distinct))

  -- A claimed row is due.
  pub claimed_due :
      (row : EventRow)
      → (not (any (λ c. c.event.id == row.event.id) (select_all (is_due now) d.events))
          || is_due now row)
        ≡ true
      → is_claimed (due_rows now n d) row ≡ true
      → is_due now row ≡ true
  unfolding due_rows is_claimed
  claimed_due row h e = ground (
    arith,
    h,
    e,
    any-limit (λ c. c.event.id == row.event.id) n
        (order_by is_earlier (select_all (is_due now) d.events)),
    any-order_by (λ c. c.event.id == row.event.id) is_earlier (select_all (is_due now) d.events),
  )

  claim_moves : Pointwise RowRun d.events (claim_rows now n d).1.events
  unfolding claim_rows
  claim_moves =
      Pointwise-update _ (is_claimed (due_rows now n d)) claimed_row d.events
        (λ row h e. next here (due_claims now row (claimed_due row h e)))
        (selected_only event_id (is_due now) d.events distinct)

  Distinct-claimed : Distinct (λ r. r.id) (claim_rows now n d).0
  unfolding claim_rows
  Distinct-claimed = Distinct-record_of (due_rows now n d) due_rows-Distinct

  -- The records of a claimed row have its attempts, and no others have its id.
  claimed_attempts :
      (row : EventRow)
      → any (λ c. event_id c == event_id row && not (c.attempt_count == row.attempt_count)) d.events
        ≡ false
      → any
          (λ r. r.id == event_id row && not (r.attempt_count == row.attempt_count + 1))
          (map record_of (due_rows now n d))
        ≡ false
  unfolding due_rows
  claimed_attempts row h =
      same_attempts (event_id row) row.attempt_count _
      ∙ any-limit (λ c. event_id c == event_id row && not (c.attempt_count == row.attempt_count)) n
          _
          (any-order_by
              (λ c. event_id c == event_id row && not (c.attempt_count == row.attempt_count))
              is_earlier (select_all (is_due now) d.events)
            ∙ any-select_all
                (λ c. event_id c == event_id row && not (c.attempt_count == row.attempt_count))
                (is_due now) d.events h)

  claim_readies : All (Ready (claim_rows now n d).0) (claim_rows now n d).1.events
  unfolding claim_rows claimed_row
  claim_readies =
      All-updated _ (Ready (map record_of (due_rows now n d))) (is_claimed (due_rows now n d))
        claimed_row d.events (λ row h e. ground (arith, claimed_attempts row h))
        (λ row h e.
          let other : in_records (map record_of (due_rows now n d)) row ≡ false =
            in_record_of (due_rows now n d) row ∙ e in
          ground (
            arith,
            other,
            without (λ (r : OutboxRecord). r.id == event_id row)
                (λ r. not (r.attempt_count == row.attempt_count)) (map record_of (due_rows now n d))
                other,
          ))
        (same_value event_id (λ row. row.attempt_count) d.events distinct)

-- How a claim ends: refused, with its rows taken but not read, or with its rows.
pub claim_ends :
    (q : Sql) (now n : ℕ) (d : Database)
    → ((e : String) × (claim_outbox q now n d ≡ (err e, d)))
      ⊎ ((e : String) × (claim_outbox q now n d ≡ (err e, (claim_rows now n d).1)))
      ⊎ (claim_outbox q now n d ≡ (ok (claim_rows now n d).0, (claim_rows now n d).1))
unfolding claim_outbox query statement ◌>>=◌
claim_ends q now n d = elim (Option-cases (q.fault claim)) [
  | inr (e, f) ↦ inl ("claim event outbox records: " ++ e, ground (arith, f))
  | inl f ↦ elim (Option-cases (q.fault scan_records)) [
    | inr (e, g) ↦ inr (inl ("scan event outbox record: " ++ e, ground (arith, f, g)))
    | inl g ↦ elim (Option-cases (q.fault iterate_records)) [
      | inr (e, h) ↦ inr (inl (e, ground (arith, f, g, h)))
      | inl h ↦ inr (inr (ground (arith, f, g, h)))
    ]
  ]
]

module _ {W : Type 0} (publisher : RabbitPublisher W) where
  pub publish_outbox_batch-RowRun :
      (turn : ℕ → Turn) (d : Database) (w : W)
      → Distinct event_id d.events
      → Pointwise RowRun d.events (publish_outbox_batch publisher turn (d, w)).1.0.events
  unfolding publish_outbox_batch after_claim
  publish_outbox_batch-RowRun turn d w distinct = elim (claim_ends (turn 0).q (turn 0).now 50 d) [
    | inl (e, refused) ↦ rw refused (Pointwise-refl d.events)
    | inr (inl (e, unread)) ↦ rw unread (claim_moves (turn 0).now 50 d distinct)
    | inr (inr taken) ↦ rw taken (
        Pointwise-trans (claim_moves (turn 0).now 50 d distinct) (
          publish_records-RowRun publisher turn 1 _ _ w
            (Distinct-claimed (turn 0).now 50 d distinct)
            (claim_readies (turn 0).now 50 d distinct)))
  ]
