-- ===== src/Intake/Tests/Rounds.antt =====
-- The outbox worker at concrete inputs.
use doc_lens.Base.{
  micros, ℕ, ◌+◌, String, ◌≡◌, refl, Bool, true, not, ◌||◌, List, [], ◌∷◌, any, All, some, none, ok,
  Exec, arith, get_elem?, ◌==◌, string_eq, eq_refl,
}
use doc_lens.Intake.Types.{OutboxEvent}
use doc_lens.Intake.Database.{Database, EventRow, publishing, published, waiting_row}
use doc_lens.Intake.Database.Pointwise.{Pointwise}
use doc_lens.Intake.Outbox.{Message, RabbitPublisher, Turn, run_outbox_publisher}
use doc_lens.Intake.Outbox.Delivery.{is_published, run_outbox_publisher-IsSent}
use doc_lens.Intake.Outbox.Drain.{outbox_drains}
use doc_lens.Intake.Outbox.Abandoned.{claimed_is_not_retried}
use doc_lens.Intake.Tests.{an_event}

abbrev event_of : String → OutboxEvent
event_of id = record an_event { id = id }

abbrev published_before : EventRow
published_before = record (waiting_row (event_of "evt_1")) {
  status = published;
  published_at = some 1;
}

abbrev claimed_before : EventRow
claimed_before = record (waiting_row (event_of "evt_2")) { status = publishing; attempt_count = 1 }

abbrev three_events : Database
three_events = record {
  documents = [];
  jobs = [];
  uploads = [];
  events = published_before ∷ claimed_before ∷ waiting_row (event_of "evt_3") ∷ [];
}

abbrev two_events : Database
two_events = record three_events {
  events = waiting_row (event_of "evt_3") ∷ waiting_row (event_of "evt_4") ∷ [];
}

-- A broker that keeps the ids of its messages.
abbrev pub keep_id : Message → Exec (List String) String Unit
keep_id m ids = (ok tt, m.message_id ∷ ids)

abbrev pub a_publisher : RabbitPublisher (List String)
a_publisher = record { channel = keep_id; exchange = "doclens.events" }

abbrev has_sent : List String → String → Bool
has_sent ids id = any (λ sent. sent == id) ids

abbrev pub a_turn : ℕ → ℕ → Turn
a_turn i j = record {
  q = record {
    fault = λ s. none;
    violation = λ v. "";
    no_rows = "";
    valid_json = λ payload. true;
    jsonb = λ payload. payload;
  };
  now = 5 + i;
}

claimed_is_not_retried_example :
    get_elem? (run_outbox_publisher a_publisher a_turn 2 (three_events, [])).0.events 1
    ≡ some claimed_before
claimed_is_not_retried_example =
    claimed_is_not_retried a_publisher a_turn 2 three_events [] 1 claimed_before
      (refl, (refl, (refl, tt))) refl refl

run_outbox_publisher-IsSent_example :
    All
      (λ row.
        (not (is_published row.status)
          || has_sent
              (run_outbox_publisher a_publisher a_turn 2 (three_events, "evt_1" ∷ [])).1
              row.event.id)
        ≡ true)
      (run_outbox_publisher a_publisher a_turn 2 (three_events, "evt_1" ∷ [])).0.events
run_outbox_publisher-IsSent_example =
    run_outbox_publisher-IsSent a_publisher has_sent (λ m w e. ground (arith, eq_refl m.message_id))
      (λ m w id h. ground (arith, h)) a_turn 2 three_events ("evt_1" ∷ [])
      (refl, (refl, (refl, tt)))

outbox_drains_example :
    All
      (λ row. row.status ≡ published)
      (run_outbox_publisher a_publisher a_turn 1 (two_events, [])).0.events
unfolding micros
outbox_drains_example =
    outbox_drains a_publisher (λ m w. refl) a_turn 5 1 two_events [] (λ i j s. refl)
      (λ i. omega arith) (refl, (refl, tt)) (refl, (refl, tt)) (omega arith)
