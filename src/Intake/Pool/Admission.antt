-- ===== src/Intake/Pool/Admission.antt =====
-- When the upload pool lets an upload in, what that costs, and when failures shut it.
use doc_lens.Base.{
  none, min, ◌*◌, ℕ, suc, ◌+◌, ◌-◌, ◌≤◌, ◌<◌, String, ◌≡◌, ◌≢◌, ◌↔◌, ◌⊎◌, refl, ◌∙◌, inl, inr, List,
  [], ◌∷◌, some, arith, eq_iff, ◌==◌, string_eq, ltb, false, All, lookup, lookup-insert,
  lookup-insert_self, Result, ok, err, Bool-cases,
}
use doc_lens.Intake.Pool.{
  token, TenantBucket, UploadPool, bucket_of, refill, put_bucket, take, acquire, failure, Event,
  acquires, releases, succeeds, fails, release, step, run,
}

-- The refilled bucket that `acquire` looks at.
abbrev pub refilled : ℕ → String → UploadPool → TenantBucket
refilled now org p = refill p now (bucket_of p now org)

-- An upload is let in exactly when the circuit is closed, a slot is free, and the tenant has a token:
-- at once where it has no bucket yet and the burst is a token at least, else when the tokens that
-- its bucket kept and those of the time since, at the tenants' rate and up to the burst, make one.
pub acquire_ok_iff :
    (now : ℕ) (org : String) (p : UploadPool)
    → ((acquire now org p).0 ≡ ok tt) ↔ (
        (p.open_until ≤ now)
        × (p.in_flight < p.workers)
        × (token ≤ elim (lookup org p.tenants) [
          | none ↦ p.tenant_burst * token
          | some bucket ↦
              min (p.tenant_burst * token) (bucket.tokens + (now - bucket.last) * p.tenant_rate)
        ]))
unfolding acquire take refill bucket_of
acquire_ok_iff now org p = ground arith

-- What a call of `take` leaves, and `acquire` after it: see `acquire-Accounts`.
pub record Accounts (org other : String) (b : TenantBucket) (p : UploadPool)
    (r : Result String Unit × UploadPool) : Type 0 where
  pub outcome :
      ((r.0 ≡ ok tt)
        × (r.1.in_flight ≡ p.in_flight + 1)
        × (lookup org r.1.tenants ≡ some (record b { tokens = b.tokens - token })))
      ⊎ ((r.0 ≢ ok tt) × (r.1.in_flight ≡ p.in_flight))
  pub others : lookup other r.1.tenants ≡ lookup other p.tenants
  pub circuit : (r.1.open_until ≡ p.open_until) × (r.1.failures ≡ p.failures)

take-Accounts :
    (org other : String) (b : TenantBucket) (p : UploadPool)
    → (org == other) ≡ false
    → Accounts org other b p (take org b p)
unfolding take put_bucket
take-Accounts org other b p h = elim (Bool-cases (ltb b.tokens token)) [
  | inl low ↦ rw low (record {
    outcome = inr (λ e. cc, refl);
    others = rw (lookup-insert org other b p.tenants, h);
    circuit = (refl, refl);
  })
  | inr enough ↦ elim (Bool-cases (ltb p.in_flight p.workers)) [
    | inl free ↦
        rw (enough, free)
          (record {
            outcome = inl (refl, refl, lookup-insert_self org _ p.tenants);
            others = rw (lookup-insert org other _ p.tenants, h);
            circuit = (refl, refl);
          })
    | inr full ↦
        rw (enough, full)
          (record {
            outcome = inr (λ e. cc, refl);
            others = rw (lookup-insert org other b p.tenants, h);
            circuit = (refl, refl);
          })
  ]
]

-- Being let in takes one slot and one token of the tenant's refilled bucket; a refusal takes no
-- slot. Either way the buckets of other tenants and the circuit stay as they are.
pub acquire-Accounts :
    (now : ℕ) (org other : String) (p : UploadPool)
    → org ≢ other
    → Accounts org other (refilled now org p) p (acquire now org p)
unfolding acquire
acquire-Accounts now org other p h = elim (Bool-cases (ltb now p.open_until)) [
  | inl shut ↦
      rw shut (record { outcome = inr (λ e. cc, refl); others = refl; circuit = (refl, refl) })
  | inr flowing ↦
      rw flowing (take-Accounts org other (refilled now org p) p (ground (arith, eq_iff org other)))
]

acquire_keeps :
    (now : ℕ) (org : String) (p : UploadPool)
    → ((acquire now org p).1.failures ≡ p.failures)
      × ((acquire now org p).1.failure_threshold ≡ p.failure_threshold)
      × ((acquire now org p).1.open_duration ≡ p.open_duration)
unfolding acquire take put_bucket
acquire_keeps now org p = (ground arith, ground arith, ground arith)

abbrev pub count_fails : List Event → ℕ
count_fails [] = 0
count_fails (fails now ∷ es) = suc (count_fails es)
count_fails (_ ∷ es) = count_fails es

abbrev pub IsNoSuccess : Event → Type 0
IsNoSuccess succeeds = ⊥
IsNoSuccess _ = Unit

-- The pool after some events, of which none is a success and too few are failures.
record Counts (p q : UploadPool) (n : ℕ) : Type 0 where
  count : q.failures ≡ p.failures + n
  threshold : q.failure_threshold ≡ p.failure_threshold
  duration : q.open_duration ≡ p.open_duration

failure_below :
    (now : ℕ) (p : UploadPool) → p.failures + 1 < p.failure_threshold → Counts p (failure now p) 1
unfolding failure
failure_below now p h = ground arith

run-Counts :
    (p : UploadPool) (es : List Event)
    → All IsNoSuccess es
    → p.failures + count_fails es < p.failure_threshold
    → Counts p (run p es) (count_fails es)
unfolding run step release
run-Counts p [] all h = record { count = omega arith; threshold = refl; duration = refl }
run-Counts p (acquires now org ∷ es) (_, all) h =
    let k = acquire_keeps now org p in
    let c = run-Counts (acquire now org p).1 es all (omega (arith, k)) in
    record {
      count = omega (arith, k, c.count);
      threshold = c.threshold ∙ k.1;
      duration = c.duration ∙ k.2;
    }
run-Counts p (releases ∷ es) (_, all) h =
    let c = run-Counts (release p) es all h in
    record { count = c.count; threshold = c.threshold; duration = c.duration }
run-Counts p (succeeds ∷ es) (never, all) h = absurd never
run-Counts p (fails now ∷ es) (_, all) h =
    let k = failure_below now p (omega arith) in
    let c = run-Counts (failure now p) es all (omega (arith, k.count, k.threshold)) in
    record {
      count = omega (arith, k.count, c.count);
      threshold = c.threshold ∙ k.threshold;
      duration = c.duration ∙ k.duration;
    }

open_after :
    (t : ℕ) (p : UploadPool)
    → p.failures + 1 ≡ p.failure_threshold
    → (failure t p).open_until ≡ t + p.open_duration
unfolding failure
open_after t p h = ground arith

-- The failure that makes `failure_threshold` of them with no success in between opens the circuit:
-- until `open_duration` has passed every upload is refused, and the pool stays as it is.
pub circuit_opens :
    (p : UploadPool) (es : List Event) (t now : ℕ) (org : String)
    → All IsNoSuccess es
    → p.failures + count_fails es + 1 ≡ p.failure_threshold
    → now < t + p.open_duration
    → acquire now org (failure t (run p es))
      ≡ (err "object storage circuit is open", failure t (run p es))
unfolding acquire
circuit_opens p es t now org all h early =
    let c = run-Counts p es all (omega arith) in
    let o = open_after t (run p es) (omega (arith, c.count, c.threshold)) in
    let d = c.duration in ground (arith, o, d)
