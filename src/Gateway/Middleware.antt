-- ===== src/Gateway/Middleware.antt =====
-- `middleware` and its parts in doclens-api-gateway/internal/httpapi/server.go, and the metrics'
-- `Observe`. Logging is left out. The route table of `http.ServeMux` is a parameter.
pub mod Refusals
use doc_lens.Base.{
  ℕ, suc, ◌+◌, ◌-◌, ◌%◌, ◌^◌, String, Bool, true, false, ◌||◌, ◌&&◌, not, List, [], ◌∷◌, ◌++◌,
  Option, none, some, ◌==◌, string_eq, ltb, leb, length, if◌then◌else◌, Assoc, lookup, insert,
  split, trim_space, Result, ok, err, Exec,
}
use Prim.Native.String
use doc_lens.Tokens.{Claims, Codec}
use doc_lens.Intake.Authz.{first}
use doc_lens.Gateway.Limiter.{Limiter, allow}
use doc_lens.Gateway.Verifier.{Verifier, verify_bearer}
use doc_lens.Gateway.Http.{Request, Response, http_error}

-- Counters of 64 bits; each route keeps its first thousand durations.
pub record Metrics : Type 0 where
  pub total : ℕ
  pub errors : ℕ
  pub latency : Assoc (List ℕ)

abbrev pub samples : String → Metrics → List ℕ
samples route m = elim (lookup route m.latency) [ none ↦ [] | some durations ↦ durations ]

unfoldable pub observe : String → ℕ → ℕ → Metrics → Metrics
observe route status duration m = record {
  total = (m.total + 1) % 2 ^ 64;
  errors = if leb 500 status then (m.errors + 1) % 2 ^ 64 else m.errors;
  latency =
      if ltb (length (samples route m)) 1000
      then insert route (samples route m ++ duration ∷ []) m.latency
      else m.latency;
}

pub record Server : Type 0 where
  pub verifier : Verifier
  pub auth_disabled : Bool

-- What requests change: the limiter, where there is one, the metrics, and the services behind.
pub record GatewayState (W : Type 0) : Type 0 where
  pub limiter : Option Limiter
  pub metrics : Metrics
  pub world : W

unfoldable pub requires_auth : Request → Bool
requires_auth r =
    if r.path == "/healthz" || r.path == "/readyz" || r.path == "/metrics"
    then false
    else not (r.method == "POST" && r.path == "/identity/login")

-- `requestID`; `stamp` is the time as the source prints it.
unfoldable pub request_id : String → Request → String
request_id stamp r = let id = trim_space (r.header "X-Request-ID") in if id == "" then stamp else id

-- `clientIP`; `split_host` is the host that `net.SplitHostPort` finds.
unfoldable pub client_ip : (String → Option String) → Request → String
client_ip split_host r =
    let forwarded = trim_space (r.header "X-Forwarded-For") in
    if forwarded == ""
    then elim (split_host r.remote_addr) [ none ↦ r.remote_addr | some host ↦ host ]
    else trim_space (first (split forwarded ","))

-- The limiter's answer for a client.
unfoldable pub admit : {W : Type 0} → ℕ → String → GatewayState W → Bool × GatewayState W
admit now ip s = elim s.limiter [
  | none ↦ (true, s)
  | some l ↦ let (allowed, l') = allow now ip l in (allowed, record s { limiter = some l' })
]

-- The request as the handler sees it, with the claims of its token where it needs one.
unfoldable pub authenticate : Codec → Server → ℕ → Request → Result Response Request
authenticate c server now r =
    if not server.auth_disabled && requires_auth r
    then elim (verify_bearer c server.verifier now (r.header "Authorization")) [
      | err _ ↦ err (http_error 401 "unauthorized")
      | ok claims ↦ ok (record r { claims = some claims })
    ]
    else ok r

abbrev pub response_of : Result Response Response → Response
response_of (ok response) = response
response_of (err response) = response

-- The handler on the services' state.
unfoldable pub serve :
    {W : Type 0}
    → (Request → Exec W Response Response)
    → Result Response Request
    → GatewayState W
    → Response × GatewayState W
serve next (err refusal) s = (refusal, s)
serve next (ok r) s =
    let (result, w') = next r s.world in (response_of result, record s { world = w' })

-- `finish`, without the log.
unfoldable pub finish : {W : Type 0} → Request → ℕ → Response → GatewayState W → GatewayState W
finish r duration response s = record s {
  metrics =
      observe (String.◌++◌ r.method (String.◌++◌ " " r.path)) response.status duration s.metrics;
}

abbrev pub finished :
    {W : Type 0} → Request → ℕ → Response × GatewayState W → Response × GatewayState W
finished r duration (response, s) = (response, finish r duration response s)

-- What follows the limiter's answer.
unfoldable pub after_admit :
    {W : Type 0}
    → (Request → Exec W Response Response)
    → Result Response Request
    → Bool
    → GatewayState W
    → Response × GatewayState W
after_admit next authenticated false s = (http_error 429 "rate limit exceeded", s)
after_admit next authenticated true s = serve next authenticated s

-- The clock's readings: for the limiter, for the token, and the whole duration.
pub record Clock : Type 0 where
  pub limited_at : ℕ
  pub verified_at : ℕ
  pub duration : ℕ

unfoldable pub middleware :
    {W : Type 0}
    → Codec
    → (String → Option String)
    → Server
    → (Request → Exec W Response Response)
    → Clock
    → Request
    → GatewayState W
    → Response × GatewayState W
middleware c split_host server next clock r s =
    let (allowed, s') = admit clock.limited_at (client_ip split_host r) s in
    finished r clock.duration
      (after_admit next (authenticate c server clock.verified_at r) allowed s')
