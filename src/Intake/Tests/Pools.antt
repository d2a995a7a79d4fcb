-- ===== src/Intake/Tests/Pools.antt =====
-- The upload pool at concrete inputs.
use doc_lens.Base.{
  differ, min, pos, ◌+◌, ◌-◌, ◌*◌, ◌≤◌, ◌<◌, ◌≡◌, ◌↔◌, refl, arith, List, [], ◌∷◌, lookup, ok, err,
}
use doc_lens.Intake.Pool.{
  token, UploadPoolConfig, UploadPool, new_upload_pool, acquire, failure, Event, acquires, releases,
  succeeds, fails, run,
}
use doc_lens.Intake.Pool.Limits.{IsValid, run-IsValid}
use doc_lens.Intake.Pool.Admission.{
  refilled, Accounts, acquire_ok_iff, acquire-Accounts, circuit_opens,
}
use doc_lens.Intake.Pool.Rate.{grants, end_time, grants-le-rate}

abbrev a_config : UploadPoolConfig
a_config = record {
  workers = pos 2;
  tenant_rate = pos 1;
  tenant_burst = pos 2;
  failure_threshold = pos 2;
  open_duration = pos 30;
}

abbrev a_pool : UploadPool
a_pool = record {
  in_flight = 0;
  workers = 2;
  tenant_rate = 1;
  tenant_burst = 2;
  failure_threshold = 2;
  open_duration = 30;
  tenants = [];
  failures = 0;
  open_until = 0;
}

abbrev some_events : List Event
some_events =
    acquires 5 "org_1"
    ∷ acquires 6 "org_1"
    ∷ acquires 7 "org_1"
    ∷ fails 8
    ∷ releases
    ∷ succeeds
    ∷ []

run-IsValid_example : IsValid (run a_pool some_events)
unfolding new_upload_pool
run-IsValid_example = run-IsValid a_config a_pool some_events refl

-- One upload is in flight, and its tenant has half a token left.
abbrev busy_pool : UploadPool
busy_pool = record a_pool {
  in_flight = 1;
  tenants = ("org_1", record { tokens = 500_000_000; last = 4 }) ∷ [];
}

acquire_ok_iff_example :
    ((acquire 5 "org_1" busy_pool).0 ≡ ok tt)
    ↔ ((0 ≤ 5) × (1 < 2) × (token ≤ min (2 * token) (500_000_000 + (5 - 4) * 1)))
unfolding lookup
acquire_ok_iff_example = acquire_ok_iff 5 "org_1" busy_pool

acquire-Accounts_example :
    Accounts "org_1" "org_2" (refilled 5 "org_1" a_pool) a_pool (acquire 5 "org_1" a_pool)
acquire-Accounts_example = acquire-Accounts 5 "org_1" "org_2" a_pool (differ "org_1" "org_2" refl)

circuit_opens_example :
    acquire 20 "org_1" (failure 9 (run a_pool (fails 8 ∷ releases ∷ [])))
    ≡ (err "object storage circuit is open", failure 9 (run a_pool (fails 8 ∷ releases ∷ [])))
circuit_opens_example =
    circuit_opens a_pool (fails 8 ∷ releases ∷ []) 9 20 "org_1" (tt, (tt, tt)) refl (omega arith)

grants-le-rate_example :
    grants "org_1" a_pool some_events * token ≤ 2 * token + 1 * (end_time 0 some_events - 0)
unfolding lookup
grants-le-rate_example =
    grants-le-rate a_pool some_events 0 "org_1" refl
      (omega arith, (omega arith, (omega arith, (omega arith, (omega arith, (omega arith, tt))))))
