-- ===== src/Intake/Metrics.antt =====
-- doclens-document-intake-service/internal/observability/metrics.go: counters of 64 bits, each a
-- number modulo 2 ^ 64 (`activeWorkers` and `queueDepth` read as two's complement).
use doc_lens.Base.{ℕ, ℤ, pos, negsuc, ◌+◌, ◌-◌, ◌/◌, ◌%◌, ◌^◌, ◌<◌, ◌≡◌, arith, if◌then◌else◌, eqb}

pub record IntakeMetrics : Type 0 where
  pub active_workers : ℕ
  pub queue_depth : ℕ
  pub rejected_total : ℕ
  pub bytes_streamed_total : ℕ
  pub presigned_url_issued : ℕ
  pub confirm_latency_nanos : ℕ
  pub confirmations : ℕ

abbrev pub new_intake_metrics : IntakeMetrics
new_intake_metrics = record {
  active_workers = 0;
  queue_depth = 0;
  rejected_total = 0;
  bytes_streamed_total = 0;
  presigned_url_issued = 0;
  confirm_latency_nanos = 0;
  confirmations = 0;
}

abbrev pub add64 : ℕ → ℕ → ℕ
add64 a b = (a + b) % 2 ^ 64

unfoldable pub worker_started : IntakeMetrics → IntakeMetrics
worker_started m = record m { active_workers = add64 m.active_workers 1 }

-- `Add(-1)`
unfoldable pub worker_finished : IntakeMetrics → IntakeMetrics
worker_finished m = record m { active_workers = add64 m.active_workers (2 ^ 64 - 1) }

unfoldable pub set_queue_depth : ℕ → IntakeMetrics → IntakeMetrics
set_queue_depth depth m = record m { queue_depth = depth }

unfoldable pub upload_rejected : IntakeMetrics → IntakeMetrics
upload_rejected m = record m { rejected_total = add64 m.rejected_total 1 }

unfoldable pub add_streamed_bytes : ℤ → IntakeMetrics → IntakeMetrics
add_streamed_bytes (pos bytes) m = record m {
  bytes_streamed_total = add64 m.bytes_streamed_total bytes;
}
add_streamed_bytes (negsuc _) m = m

unfoldable pub presigned_url_issued_once : IntakeMetrics → IntakeMetrics
presigned_url_issued_once m = record m { presigned_url_issued = add64 m.presigned_url_issued 1 }

unfoldable pub observe_confirmation : ℕ → IntakeMetrics → IntakeMetrics
observe_confirmation duration m = record m {
  confirm_latency_nanos = add64 m.confirm_latency_nanos duration;
  confirmations = add64 m.confirmations 1;
}

-- The latency that the handler prints, in milliseconds.
unfoldable pub latency_ms : IntakeMetrics → ℕ
latency_ms m =
    if eqb m.confirmations 0 then 0 else m.confirm_latency_nanos / m.confirmations / 1_000_000

-- A worker that starts and finishes leaves the gauge where it was.
pub worker_finished-started :
    (m : IntakeMetrics) (n : ℕ) → m.active_workers < 2 ^ 64 → worker_finished (worker_started m) ≡ m
unfolding worker_started worker_finished
worker_finished-started m h = ground arith
