-- ===== src/Intake/Pool/Limits.antt =====
-- The bounds that the upload pool keeps, and when it lets an upload in.
use doc_lens.Base.{
  ℕ, ℤ, pos, negsuc, leb, ap, false, ◌+◌, ◌*◌, ◌≤◌, ◌<◌, String, ◌≡◌, inl, inr, List, [], ◌∷◌, some,
  arith, string_eq, ltb, lookup, lookup-insert, Bool-cases,
}
use doc_lens.Intake.Pool.{
  token, to_nat, not_positive, UploadPoolConfig, TenantBucket, UploadPool, new_upload_pool,
  bucket_of, refill, put_bucket, take, acquire, release, success, failure, Event, acquires,
  releases, succeeds, fails, step, run,
}

-- At most `workers` uploads run, fewer failures are counted than open the circuit, and no bucket
-- holds more than the burst.
pub record IsValid (p : UploadPool) : Type 0 where
  pub slots : p.in_flight ≤ p.workers
  pub counted : p.failures < p.failure_threshold
  pub buckets :
      (org : String) (b : TenantBucket)
      → lookup org p.tenants ≡ some b
      → b.tokens ≤ p.tenant_burst * token

refill_le :
    (p : UploadPool) (now : ℕ) (b : TenantBucket) → (refill p now b).tokens ≤ p.tenant_burst * token
unfolding refill
refill_le p now b = ground arith

put_bucket-IsValid :
    (org : String) (b : TenantBucket) (p : UploadPool)
    → b.tokens ≤ p.tenant_burst * token
    → IsValid p
    → IsValid (put_bucket org b p)
unfolding put_bucket
put_bucket-IsValid org b p h v = record {
  slots = v.slots;
  counted = v.counted;
  buckets = λ k c e. ground (arith, lookup-insert org k b p.tenants, v.buckets k c);
}

take-IsValid :
    (org : String) (b : TenantBucket) (p : UploadPool)
    → b.tokens ≤ p.tenant_burst * token
    → IsValid p
    → IsValid (take org b p).1
unfolding take
take-IsValid org b p h v = elim (Bool-cases (ltb b.tokens token)) [
  | inl low ↦ rw low (put_bucket-IsValid org b p h v)
  | inr enough ↦ elim (Bool-cases (ltb p.in_flight p.workers)) [
    | inl free ↦
        rw (enough, free)
          (put_bucket-IsValid org _ _ (omega arith)
            (record { slots = ground arith; counted = v.counted; buckets = v.buckets }))
    | inr full ↦ rw (enough, full) (put_bucket-IsValid org b p h v)
  ]
]

acquire-IsValid :
    (now : ℕ) (org : String) (p : UploadPool) → IsValid p → IsValid (acquire now org p).1
unfolding acquire
acquire-IsValid now org p v = elim (Bool-cases (ltb now p.open_until)) [
  | inl shut ↦ rw shut v
  | inr flowing ↦ rw flowing (take-IsValid org _ p (refill_le p now (bucket_of p now org)) v)
]

failure-IsValid : (now : ℕ) (p : UploadPool) → IsValid p → IsValid (failure now p)
unfolding failure
failure-IsValid now p v = elim (Bool-cases (leb p.failure_threshold (p.failures + 1))) [
  | inl trips ↦ rw trips (record { slots = v.slots; counted = ground arith; buckets = v.buckets })
  | inr fewer ↦ rw fewer (record { slots = v.slots; counted = ground arith; buckets = v.buckets })
]

step-IsValid : (p : UploadPool) (e : Event) → IsValid p → IsValid (step p e)
unfolding step release success
step-IsValid p (acquires now org) v = acquire-IsValid now org p v
step-IsValid p releases v = record { slots = omega arith; counted = v.counted; buckets = v.buckets }
step-IsValid p succeeds v = record { slots = v.slots; counted = omega arith; buckets = v.buckets }
step-IsValid p (fails now) v = failure-IsValid now p v

events-IsValid : (p : UploadPool) (es : List Event) → IsValid p → IsValid (run p es)
unfolding run
events-IsValid p [] v = v
events-IsValid p (e ∷ es) v = events-IsValid (step p e) es (step-IsValid p e v)

pub positive_ℤ : (v : ℤ) → not_positive v ≡ false → 0 < to_nat v
positive_ℤ (pos n) h = ground arith
positive_ℤ (negsuc n) h = cc

-- A pool that is made is empty, and every limit of it is positive.
pub new_upload_pool_limits :
    (c : UploadPoolConfig) (p : UploadPool)
    → new_upload_pool c ≡ some p
    → (p.in_flight ≡ 0)
      × (p.failures ≡ 0)
      × (p.tenants ≡ [])
      × (0 < p.workers)
      × (0 < p.tenant_burst)
      × (0 < p.failure_threshold)
unfolding new_upload_pool
new_upload_pool_limits c p h =
    ground (arith, positive_ℤ c.workers, positive_ℤ c.tenant_burst, positive_ℤ c.failure_threshold)

no_tenants :
    (p : UploadPool) (org : String) (b : TenantBucket)
    → p.tenants ≡ []
    → lookup org p.tenants ≡ some b
    → b.tokens ≤ p.tenant_burst * token
unfolding lookup
no_tenants p org b e h = absurd (ground (arith, ap (lookup org) e))

-- A pool that the configuration check lets through keeps its bounds under any events: never more
-- than `workers` uploads at once, the failure count below the threshold, no bucket above the burst.
pub run-IsValid :
    (c : UploadPoolConfig) (p : UploadPool) (es : List Event)
    → new_upload_pool c ≡ some p
    → IsValid (run p es)
run-IsValid c p es h =
    let (empty, none_failed, no_buckets, w, b, f) = new_upload_pool_limits c p h in
    events-IsValid p es (record {
      slots = omega arith;
      counted = omega arith;
      buckets = λ org bucket e. no_tenants p org bucket no_buckets e;
    })
