-- ===== src/Intake/Postgres/Events.antt =====
-- `PostgresStore` of internal/store/postgres.go and the rows of the outbox.
use doc_lens.Base.{
  ℤ, ℕ, String, ◌≡◌, inl, inr, refl, sym, subst, false, List, [], ◌∷◌, ◌++◌, any, arith, ok,
  Preorder, Bool-cases, ◌==◌, string_eq, eq_iff,
}
use doc_lens.Intake.Types.{OutboxEvent, Document, UploadRecord}
use doc_lens.Intake.Database.{
  JobRow, Database, EventRow, Sql, waiting_row, add_document, add_job, put_job, add_upload,
  add_event, put_event, has_event,
}
use doc_lens.Intake.Database.Rows.{any-append}
use doc_lens.Intake.Database.Keys.{Distinct}
use doc_lens.Intake.Postgres.Success.{unless_ok}
use doc_lens.Intake.Postgres.Intents.{set_confirmed}
use doc_lens.Intake.Postgres.Atomic.{Call, step}
use doc_lens.Intake.Postgres.Rules.{Respected, Respected-step}

abbrev pub event_id : EventRow → String
event_id row = row.event.id

-- Event ids that differed still differ.
pub record KeepsDistinct (d d' : Database) : Type 0 where
  pub distinct : Distinct event_id d.events → Distinct event_id d'.events

same_events : (d d' : Database) → d'.events ≡ d.events → KeepsDistinct d d'
same_events d d' h = record {
  distinct = λ k. subst (λ (rows : List EventRow). Distinct event_id rows) (sym h) k;
}

instance pub KeepsDistinct-preorder : Preorder KeepsDistinct
KeepsDistinct-preorder = record {
  reflexive = λ d. same_events d d refl;
  transitive = λ d e f a b. record { distinct = λ k. b.distinct (a.distinct k) };
}

Distinct-behind :
    (row : EventRow) (rows : List EventRow)
    → any (λ r. r.event.id == row.event.id) rows ≡ false
    → Distinct event_id rows
    → Distinct event_id (rows ++ row ∷ [])
Distinct-behind row [] h k = (refl, tt)
Distinct-behind row (r ∷ rows) h (k, ks) = (
  ground (
    arith,
    k,
    h,
    any-append (λ y. event_id y == event_id r) rows (row ∷ []),
    eq_iff (event_id r) (event_id row),
    eq_iff (event_id row) (event_id r),
  ),
  Distinct-behind row rows (ground (arith, h)) ks,
)

new_event :
    (event : OutboxEvent) (d d' : Database)
    → has_event event.id d ≡ false
    → d'.events ≡ d.events ++ waiting_row event ∷ []
    → KeepsDistinct d d'
unfolding has_event
new_event event d d' fresh h = record {
  distinct = λ k.
      subst (λ (rows : List EventRow). Distinct event_id rows) (sym h)
        (Distinct-behind (waiting_row event) d.events fresh k);
}

pub add_document_events :
    (doc : Document) (d d' : Database) → add_document doc d ≡ ok (tt, d') → d'.events ≡ d.events
unfolding add_document
add_document_events doc d d' h = ground (arith, unless_ok _ _ _ h)

pub add_job_events :
    (job : JobRow) (d d' : Database) → add_job job d ≡ ok (tt, d') → d'.events ≡ d.events
unfolding add_job
add_job_events job d d' h = ground (arith, unless_ok _ _ _ h)

put_job_events :
    (job : JobRow) (d d' : Database) → put_job job d ≡ ok (tt, d') → d'.events ≡ d.events
unfolding put_job
put_job_events job d d' h = ground (arith, add_job_events job d d')

pub add_upload_events :
    (u : UploadRecord) (d d' : Database) → add_upload u d ≡ ok (tt, d') → d'.events ≡ d.events
unfolding add_upload
add_upload_events u d d' h = ground (arith, unless_ok _ _ _ h)

pub set_confirmed_events :
    (now : ℕ) (org id upload_id : String) (size : ℤ) (checksum : String) (d d' : Database)
    → set_confirmed now org id upload_id size checksum d ≡ ok (tt, d')
    → d'.events ≡ d.events
unfolding set_confirmed
set_confirmed_events now org id upload_id size checksum d d' h = ground (arith, unless_ok _ _ _ h)

add_event-KeepsDistinct :
    (event : OutboxEvent) (d d' : Database) → add_event event d ≡ ok (tt, d') → KeepsDistinct d d'
unfolding add_event
add_event-KeepsDistinct event d d' h =
    let (fine, same) = unless_ok _ _ _ h in
    new_event event d d' (ground (arith, fine)) (ground (arith, same))

put_event-KeepsDistinct :
    (event : OutboxEvent) (d d' : Database) → put_event event d ≡ ok (tt, d') → KeepsDistinct d d'
unfolding put_event
put_event-KeepsDistinct event d d' h = elim (Bool-cases (has_event event.id d)) [
  | inl known ↦ same_events d d' (ground (arith, known))
  | inr fresh ↦ new_event event d d' fresh (ground (arith, fresh))
]

KeepsDistinct-Respected : Respected KeepsDistinct
KeepsDistinct-Respected = record {
  by_add_document = λ doc d d' e. same_events d d' (add_document_events doc d d' e);
  by_add_job = λ job d d' e. same_events d d' (add_job_events job d d' e);
  by_put_job = λ job d d' e. same_events d d' (put_job_events job d d' e);
  by_add_upload = λ u d d' e. same_events d d' (add_upload_events u d d' e);
  by_add_event = add_event-KeepsDistinct;
  by_put_event = put_event-KeepsDistinct;
  by_queued_document = λ ref org id size now d. same_events d _ refl;
  by_set_confirmed = λ now org id upload_id size checksum d d' e.
      same_events d d' (set_confirmed_events now org id upload_id size checksum d d' e);
}

-- Event ids that differ before a call differ after it.
pub step-Distinct :
    (q : Sql) (c : Call) (d : Database)
    → Distinct event_id d.events
    → Distinct event_id (step q c d).1.events
step-Distinct q c d distinct = (Respected-step KeepsDistinct-Respected q c d).distinct distinct
