-- ===== src/Intake/Pool.antt =====
-- doclens-document-intake-service/internal/service/upload_pool.go. Times are nanoseconds of a
-- clock that does not go back (Go's monotonic reading). Tokens are counted exactly, in
-- billionths: the rounding of `float64` is not modelled, and rates are whole tokens per second.
pub mod Limits
pub mod Admission
mod Spending
pub mod Rate
use doc_lens.Base.{
  ℕ, ℤ, pos, negsuc, zero, suc, ◌+◌, ◌-◌, ◌*◌, ◌^◌, String, Bool, ◌||◌, List, [], ◌∷◌, Option, none,
  some, ltb, leb, ltb_ℤ, min, if◌then◌else◌, Assoc, lookup, insert, Result, ok, err, Exec,
}

-- One token.
abbrev pub token : ℕ
token = 1_000_000_000

pub record UploadPoolConfig : Type 0 where
  pub workers : ℤ
  pub tenant_rate : ℤ
  pub tenant_burst : ℤ
  pub failure_threshold : ℤ
  pub open_duration : ℤ

pub record TenantBucket : Type 0 where
  pub tokens : ℕ
  pub last : ℕ

-- `in_flight` is the number of values in the channel `sem`, `workers` its capacity; the other
-- limits are the configuration's.
pub record UploadPool : Type 0 where
  pub in_flight : ℕ
  pub workers : ℕ
  pub tenant_rate : ℕ
  pub tenant_burst : ℕ
  pub failure_threshold : ℕ
  pub open_duration : ℕ
  pub tenants : Assoc TenantBucket
  pub failures : ℕ
  pub open_until : ℕ

abbrev pub to_nat : ℤ → ℕ
to_nat (pos n) = n
to_nat (negsuc n) = 0

-- `v <= 0`
abbrev pub not_positive : ℤ → Bool
not_positive v = ltb_ℤ v (pos 1)

unfoldable pub new_upload_pool : UploadPoolConfig → Option UploadPool
new_upload_pool config =
    if not_positive config.workers
      || not_positive config.tenant_rate
      || not_positive config.tenant_burst
      || not_positive config.failure_threshold
      || not_positive config.open_duration
    then none
    else some (record {
      in_flight = 0;
      workers = to_nat config.workers;
      tenant_rate = to_nat config.tenant_rate;
      tenant_burst = to_nat config.tenant_burst;
      failure_threshold = to_nat config.failure_threshold;
      open_duration = to_nat config.open_duration;
      tenants = [];
      failures = 0;
      open_until = 0;
    })

-- `minFloat`
abbrev pub min_tokens : ℕ → ℕ → ℕ
min_tokens a b = if ltb a b then a else b

-- The tenant's bucket, or a full one that starts now.
unfoldable pub bucket_of : UploadPool → ℕ → String → TenantBucket
bucket_of p now org = elim (lookup org p.tenants) [
  | none ↦ record { tokens = p.tenant_burst * token; last = now }
  | some bucket ↦ bucket
]

unfoldable pub refill : UploadPool → ℕ → TenantBucket → TenantBucket
refill p now bucket = record {
  tokens =
      min_tokens (p.tenant_burst * token) (bucket.tokens + (now - bucket.last) * p.tenant_rate);
  last = now;
}

unfoldable pub put_bucket : String → TenantBucket → UploadPool → UploadPool
put_bucket org bucket p = record p { tenants = insert org bucket p.tenants }

-- What follows the refill: the rate limit, then the channel's capacity.
unfoldable pub take : String → TenantBucket → Exec UploadPool String Unit
take org bucket p =
    if ltb bucket.tokens token
    then (err "organization upload rate limit exceeded", put_bucket org bucket p)
    else if ltb p.in_flight p.workers
    then (
      ok tt,
      put_bucket org (record bucket { tokens = bucket.tokens - token })
          (record p { in_flight = p.in_flight + 1 }),
    )
    else (err "upload pool is saturated", put_bucket org bucket p)

unfoldable pub acquire : ℕ → String → Exec UploadPool String Unit
acquire now org p =
    if ltb now p.open_until
    then (err "object storage circuit is open", p)
    else take org (refill p now (bucket_of p now org)) p

-- Takes one value out of the channel.
unfoldable pub release : UploadPool → UploadPool
release p = record p { in_flight = p.in_flight - 1 }

unfoldable pub success : UploadPool → UploadPool
success p = record p { failures = 0 }

unfoldable pub failure : ℕ → UploadPool → UploadPool
failure now p =
    if leb p.failure_threshold (p.failures + 1)
    then record p { open_until = now + p.open_duration; failures = 0 }
    else record p { failures = p.failures + 1 }

-- What happens to a pool, with the time.
pub data Event : Type 0 where
  acquires : ℕ → String → Event
  releases : Event
  succeeds : Event
  fails : ℕ → Event

unfoldable pub step : UploadPool → Event → UploadPool
step p (acquires now org) = (acquire now org p).1
step p releases = release p
step p succeeds = success p
step p (fails now) = failure now p

unfoldable pub run : UploadPool → List Event → UploadPool
run p [] = p
run p (e ∷ es) = run (step p e) es
