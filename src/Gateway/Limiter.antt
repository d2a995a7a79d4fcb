-- ===== src/Gateway/Limiter.antt =====
-- doclens-api-gateway/internal/ratelimit/limiter.go. Times are nanoseconds of a clock that does not
-- go back, and tokens are counted exactly, in billionths (the rounding of `float64` is not
-- modelled). The rate and the burst are not negative.
pub mod Rate
pub mod Cleanup
use doc_lens.Base.{
  ℕ, ◌+◌, ◌-◌, ◌*◌, String, Bool, true, false, not, List, [], Option, none, some, ltb, min,
  if◌then◌else◌, Assoc, lookup, insert, keep,
}

-- One token.
abbrev pub token : ℕ
token = 1_000_000_000

pub record Bucket : Type 0 where
  pub tokens : ℕ
  pub seen : ℕ

pub record Limiter : Type 0 where
  pub rate : ℕ
  pub burst : ℕ
  pub clients : Assoc Bucket

unfoldable pub new : ℕ → ℕ → Limiter
new rate_per_second burst = record { rate = rate_per_second; burst = burst; clients = [] }

-- With a burst of 0, a first bucket has 0 tokens here and -1 in the source: both refuse from then on.
unfoldable pub first_bucket : Limiter → ℕ → Bucket
first_bucket l now = record { tokens = l.burst * token - token; seen = now }

unfoldable pub refill : Limiter → ℕ → Bucket → ℕ
refill l now b = min (l.burst * token) (b.tokens + (now - b.seen) * l.rate)

unfoldable pub put_bucket : String → Bucket → Limiter → Limiter
put_bucket key b l = record l { clients = insert key b l.clients }

-- The client's second and later calls.
unfoldable pub allow_known : ℕ → String → Bucket → Limiter → Bool × Limiter
allow_known now key b l =
    let tokens = refill l now b in
    if ltb tokens token
    then (false, put_bucket key (record { tokens = tokens; seen = now }) l)
    else (true, put_bucket key (record { tokens = tokens - token; seen = now }) l)

-- What `allow` does with what it finds.
unfoldable pub allow_found : ℕ → String → Option Bucket → Limiter → Bool × Limiter
allow_found now key none l = (true, put_bucket key (first_bucket l now) l)
allow_found now key (some b) l = allow_known now key b l

unfoldable pub allow : ℕ → String → Limiter → Bool × Limiter
allow now key l = allow_found now key (lookup key l.clients) l

unfoldable pub cleanup : ℕ → ℕ → Limiter → Limiter
cleanup now max_age l = record l {
  clients = keep (λ b. not (ltb b.seen (now - max_age))) l.clients;
}
