-- ===== src/Intake/Outbox/Rounds.antt =====
-- Any number of rounds of the outbox worker of internal/events/rabbitmq.go.
use doc_lens.Base.{
  ℕ, zero, suc, String, ◌≡◌, refl, ap, sym, subst, ◌∙◌, false, List, any, arith, ◌==◌, string_eq,
  some, get_elem?, inl, inr,
}
use doc_lens.Intake.Types.{OutboxEvent}
use doc_lens.Intake.Database.{Database, EventRow, published}
use doc_lens.Intake.Database.Keys.{Distinct}
use doc_lens.Intake.Database.Pointwise.{Pointwise, nil, both, Pointwise-refl, Pointwise-trans}
use doc_lens.Intake.Outbox.{RabbitPublisher, Turn, publish_outbox_batch, run_outbox_publisher}
use doc_lens.Intake.Outbox.Lifecycle.{
  RowStep, claims, publishes, fails, RowRun, here, next, row_run,
}
use doc_lens.Intake.Outbox.Batch.{event_id, publish_outbox_batch-RowRun}

RowStep-event : {r s : EventRow} → RowStep r s → s.event ≡ r.event
RowStep-event (claims now row w h) = refl
RowStep-event (publishes now row h) = refl
RowStep-event (fails text at row h) = refl

pub RowRun-event : {r s : EventRow} → RowRun r s → s.event ≡ r.event
RowRun-event here = refl
RowRun-event (next h step) = RowStep-event step ∙ RowRun-event h

RowStep-published : {r s : EventRow} → RowStep r s → r.status ≡ published → s ≡ r
RowStep-published (claims now row (inl w) h) e = absurd (ground arith)
RowStep-published (claims now row (inr w) h) e = absurd (ground arith)
RowStep-published (publishes now row h) e = absurd (ground arith)
RowStep-published (fails text at row h) e = absurd (ground arith)

RowRun-published : {r s : EventRow} → RowRun r s → r.status ≡ published → s ≡ r
RowRun-published here e = refl
RowRun-published (next h step) e =
    let same = RowRun-published h e in
    RowStep-published step (ap (λ (x : EventRow). x.status) same ∙ e) ∙ same

same_test :
    (id : String) {xs ys : List EventRow}
    → Pointwise RowRun xs ys
    → any (λ y. event_id y == id) ys ≡ any (λ x. event_id x == id) xs
same_test id nil = refl
same_test id (both h hs) =
    ground (arith, ap (λ (x : OutboxEvent). x.id) (RowRun-event h), same_test id hs)

pub Distinct-run :
    {xs ys : List EventRow} → Pointwise RowRun xs ys → Distinct event_id xs → Distinct event_id ys
Distinct-run nil d = tt
Distinct-run (both {x = x} {y = y} {xs = xs} {ys = ys} h hs) (d, ds) = (
  same_test (event_id y) hs
      ∙ subst (λ (id : String). any (λ (z : EventRow). event_id z == id) xs ≡ false)
          (sym (ap (λ (e : OutboxEvent). e.id) (RowRun-event h))) d,
  Distinct-run hs ds,
)

pub run_outbox_publisher-RowRun :
    {W : Type 0} (publisher : RabbitPublisher W) (turns : ℕ → ℕ → Turn) (n : ℕ) (d : Database)
    (w : W)
    → Distinct event_id d.events
    → Pointwise RowRun d.events (run_outbox_publisher publisher turns n (d, w)).0.events
unfolding run_outbox_publisher
run_outbox_publisher-RowRun publisher turns zero d w distinct = Pointwise-refl d.events
run_outbox_publisher-RowRun publisher turns (suc n) d w distinct =
    let first = publish_outbox_batch-RowRun publisher (turns 0) d w distinct in
    let (d', w') = (publish_outbox_batch publisher (turns 0) (d, w)).1 in
    Pointwise-trans first (
      run_outbox_publisher-RowRun publisher (λ i. turns (suc i)) n d' w'
        (Distinct-run first distinct))

pub same_place :
    (i : ℕ) (row : EventRow) {xs ys : List EventRow}
    → Pointwise RowRun xs ys
    → get_elem? xs i ≡ some row
    → (s : EventRow) × (get_elem? ys i ≡ some s) × RowRun row s
same_place i row nil h = cc
same_place zero row (both {y = y} k ks) h =
    (y, refl, subst (λ (r : EventRow). RowRun r y) (ground arith) k)
same_place (suc i) row (both k ks) h = same_place i row ks h

-- A row that is published stands unchanged, where it stood, after any number of rounds, whatever
-- fails, if event ids differ.
pub published_is_final :
    {W : Type 0} (publisher : RabbitPublisher W) (turns : ℕ → ℕ → Turn) (n : ℕ) (d : Database)
    (w : W) (i : ℕ) (row : EventRow)
    → Distinct event_id d.events
    → get_elem? d.events i ≡ some row
    → row.status ≡ published
    → get_elem? (run_outbox_publisher publisher turns n (d, w)).0.events i ≡ some row
published_is_final publisher turns n d w i row distinct at e =
    let (s, there, run) =
      same_place i row (run_outbox_publisher-RowRun publisher turns n d w distinct) at in
    there ∙ ap some (RowRun-published run e)
