-- ===== src/Intake/Pool/Spending.antt =====
-- What one call of `acquire` does to the tokens of a tenant.
use doc_lens.Base.{
  ℕ, ◌+◌, ◌-◌, ◌*◌, ◌≤◌, String, ◌≡◌, refl, ◌∙◌, inl, inr, Option, none, some, arith, ◌==◌,
  string_eq, false, ltb, lookup, lookup-insert, lookup-insert_self, Result, ok, err, Bool-cases,
  Option-cases,
}
use doc_lens.Intake.Pool.{
  token, TenantBucket, UploadPool, bucket_of, refill, put_bucket, take, acquire,
}

-- The tokens of a tenant, and the time up to which they are counted.
abbrev pub level : UploadPool → Option TenantBucket → ℕ
level p none = p.tenant_burst * token
level p (some b) = b.tokens

abbrev pub since : ℕ → Option TenantBucket → ℕ
since t none = t
since t (some b) = b.last

-- What one event may spend: tokens and refills that the tenant had.
pub record Spends (org : String) (t t' n : ℕ) (p q : UploadPool) : Type 0 where
  pub spent :
      n * token + level q (lookup org q.tenants) + p.tenant_rate * since t (lookup org p.tenants)
      ≤ level p (lookup org p.tenants) + p.tenant_rate * since t' (lookup org q.tenants)
  pub rate : q.tenant_rate ≡ p.tenant_rate
  pub burst : q.tenant_burst ≡ p.tenant_burst
  pub past : since t' (lookup org q.tenants) ≤ t'

pub mul_mono : (r a b : ℕ) → a ≤ b → r * a ≤ r * b
mul_mono r a b h = grind arith

-- The same buckets, later.
pub same_buckets :
    (org : String) (t t' : ℕ) (p q : UploadPool)
    → lookup org q.tenants ≡ lookup org p.tenants
    → q.tenant_rate ≡ p.tenant_rate
    → q.tenant_burst ≡ p.tenant_burst
    → t ≤ t'
    → since t (lookup org p.tenants) ≤ t
    → Spends org t t' 0 p q
same_buckets org t t' p q e r b h past = elim (Option-cases (lookup org p.tenants)) [
  | inl new ↦ record {
    spent = rw (e, new, b) (omega (arith, mul_mono p.tenant_rate t t' h));
    rate = r;
    burst = b;
    past = rw (e, new) (omega arith);
  }
  | inr (c, old) ↦ record {
    spent = rw (e, old) (omega arith);
    rate = r;
    burst = b;
    past = rw (e, old) (omega (arith, rw old at past));
  }
]

pub elapsed_mul : (a b r : ℕ) → a ≤ b → (b - a) * r + r * a ≡ r * b
elapsed_mul a b r h = grind arith

-- The refill adds at most the rate times the time since the last one.
refill_spends :
    (p : UploadPool) (now : ℕ) (b : TenantBucket)
    → b.last ≤ now
    → (refill p now b).tokens + p.tenant_rate * b.last ≤ b.tokens + p.tenant_rate * now
unfolding refill
refill_spends p now b h = ground (arith, elapsed_mul b.last now p.tenant_rate)

bucket_of_spends :
    (p : UploadPool) (now t : ℕ) (org : String)
    → t ≤ now
    → since t (lookup org p.tenants) ≤ t
    → (refill p now (bucket_of p now org)).tokens + p.tenant_rate * since t (lookup org p.tenants)
      ≤ level p (lookup org p.tenants) + p.tenant_rate * now
unfolding bucket_of
bucket_of_spends p now t org h past = elim (Option-cases (lookup org p.tenants)) [
  | inl new ↦
      let full : TenantBucket = record { tokens = p.tenant_burst * token; last = now } in
      rw (new, bucket_of)
        (omega (arith, refill_spends p now full (omega arith), mul_mono p.tenant_rate t now h))
  | inr (c, old) ↦ rw (old, bucket_of) (refill_spends p now c (omega (arith, rw old at past)))
]

abbrev pub let_in : Result String Unit × UploadPool → ℕ
let_in r = elim r.0 [ ok _ ↦ 1 | err _ ↦ 0 ]

-- The bucket that `take` writes back, and what it lets through.
record Takes (org : String) (b : TenantBucket) (p : UploadPool)
    (r : Result String Unit × UploadPool) : Type 0 where
  new : TenantBucket
  stored : lookup org r.1.tenants ≡ some new
  same_time : new.last ≡ b.last
  paid : let_in r * token + new.tokens ≤ b.tokens
  rate : r.1.tenant_rate ≡ p.tenant_rate
  burst : r.1.tenant_burst ≡ p.tenant_burst

take-Takes : (org : String) (b : TenantBucket) (p : UploadPool) → Takes org b p (take org b p)
unfolding take put_bucket
take-Takes org b p = elim (Bool-cases (ltb b.tokens token)) [
  | inl low ↦ rw low (record {
    new = b;
    stored = lookup-insert_self org b p.tenants;
    same_time = refl;
    paid = omega arith;
    rate = refl;
    burst = refl;
  })
  | inr enough ↦ elim (Bool-cases (ltb p.in_flight p.workers)) [
    | inl free ↦
        rw (enough, free)
          (record {
            new = record b { tokens = b.tokens - token };
            stored = lookup-insert_self org _ p.tenants;
            same_time = refl;
            paid = ground arith;
            rate = refl;
            burst = refl;
          })
    | inr full ↦
        rw (enough, full)
          (record {
            new = b;
            stored = lookup-insert_self org b p.tenants;
            same_time = refl;
            paid = omega arith;
            rate = refl;
            burst = refl;
          })
  ]
]

last-refill : (p : UploadPool) (now : ℕ) (b : TenantBucket) → (refill p now b).last ≡ now
unfolding refill
last-refill p now b = refl

take-Spends :
    (p : UploadPool) (now t : ℕ) (org : String) (r : Result String Unit × UploadPool)
    → t ≤ now
    → since t (lookup org p.tenants) ≤ t
    → Takes org (refill p now (bucket_of p now org)) p r
    → Spends org t now (let_in r) p r.1
take-Spends p now t org r h past k =
    let l : k.new.last ≡ now = k.same_time ∙ last-refill p now (bucket_of p now org) in
    record {
      spent = rw (k.stored, l) (omega (arith, k.paid, bucket_of_spends p now t org h past));
      rate = k.rate;
      burst = k.burst;
      past = rw (k.stored, l) (omega arith);
    }

pub acquire-Spends :
    (p : UploadPool) (now t : ℕ) (org : String)
    → t ≤ now
    → since t (lookup org p.tenants) ≤ t
    → Spends org t now (let_in (acquire now org p)) p (acquire now org p).1
unfolding acquire
acquire-Spends p now t org h past = elim (Bool-cases (ltb now p.open_until)) [
  | inl shut ↦ rw shut (same_buckets org t now p p refl refl refl h past)
  | inr flowing ↦
      rw flowing
        (take-Spends p now t org _ h past (take-Takes org (refill p now (bucket_of p now org)) p))
]

-- An upload of another tenant leaves this tenant's bucket alone.
pub acquire_other :
    (p : UploadPool) (now : ℕ) (org o : String)
    → (o == org) ≡ false
    → (lookup org (acquire now o p).1.tenants ≡ lookup org p.tenants)
      × ((acquire now o p).1.tenant_rate ≡ p.tenant_rate)
      × ((acquire now o p).1.tenant_burst ≡ p.tenant_burst)
unfolding acquire take put_bucket
acquire_other p now org o h = elim (Bool-cases (ltb now p.open_until)) [
  | inl shut ↦ rw shut (refl, refl, refl)
  | inr flowing ↦
      let b = refill p now (bucket_of p now o) in
      let c : TenantBucket = record b { tokens = b.tokens - token } in
      ground (arith, lookup-insert o org b p.tenants, lookup-insert o org c p.tenants)
]
