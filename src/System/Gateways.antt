-- ===== src/System/Gateways.antt =====
-- The gateway at concrete inputs.
use doc_lens.Base.{
  ℕ, suc, ◌+◌, ◌-◌, ◌*◌, ◌≤◌, ◌≡◌, ◌⊎◌, ◌↔◌, refl, arith, false, List, [], ◌∷◌, none, some, lookup,
  ok, err, Exec, Any, trim_space, is_space, to_lower, differ, ◌==◌, string_eq, if◌then◌else◌,
}
use doc_lens.Intake.Authz.{require, permission_upload}
use doc_lens.Intake.Authz.Access.{known_roles}
use doc_lens.Gateway.Limiter.{token, Limiter, new, allow, cleanup}
use doc_lens.Gateway.Limiter.Cleanup.{cleanup_is_unseen}
use doc_lens.Gateway.Limiter.Rate.{Call, grants, end_time, allowed-le-rate}
use doc_lens.Gateway.Verifier.{verify_bearer, after_prefix}
use doc_lens.Gateway.Http.{Request, Response, http_error, json, fields, other_error}
use doc_lens.Gateway.Handlers.{
  Clients, Decoders, organization_id, identity_metadata, create_document, get_document,
  upload_document, get_document_status, start_verification, get_verification,
}
use doc_lens.Gateway.Handlers.Scope.{AgreeOn, only_claimed_organization}
use doc_lens.Gateway.Middleware.{Server, GatewayState, Clock, middleware, requires_auth}
use doc_lens.Gateway.Middleware.Refusals.{unverified_refused}
use doc_lens.System.Access.{gateway_metadata_passes_iff}
use doc_lens.System.Tests.{a_codec, the_claims}

abbrev some_calls : List Call
some_calls = (5, "a") ∷ (6, "b") ∷ (7, "a") ∷ (8, "a") ∷ []

allowed-le-rate_example :
    grants "a" (new 10 2) some_calls * token ≤ 2 * token + 10 * (end_time 0 some_calls - 0)
unfolding new lookup
allowed-le-rate_example =
    allowed-le-rate "a" (new 10 2) some_calls 0 (omega arith) refl
      (omega arith, (omega arith, (omega arith, (omega arith, tt))))

abbrev an_old_client : Limiter
an_old_client = record {
  rate = 10;
  burst = 2;
  clients = ("a", record { tokens = 0; seen = 0 }) ∷ [];
}

cleanup_is_unseen_example :
    ((allow 6_000_000_000 "a" (cleanup 5_000_000_000 1_000_000_000 an_old_client)).0
      ≡ (allow 6_000_000_000 "a" an_old_client).0)
    × (lookup "a"
          (allow 6_000_000_000 "a" (cleanup 5_000_000_000 1_000_000_000 an_old_client)).1.clients
        ≡ lookup "a" (allow 6_000_000_000 "a" an_old_client).1.clients)
cleanup_is_unseen_example =
    cleanup_is_unseen "a" 5_000_000_000 1_000_000_000 6_000_000_000 an_old_client (omega arith)
      (omega arith) (omega arith)

abbrev a_request : Request
a_request = record {
  method = "GET";
  path = "/documents/doc_1";
  header = λ name. "";
  query = λ name. "org_2";
  path_value = λ name. "doc_1";
  remote_addr = "10.0.0.1:99";
  body = "";
  claims = none;
}

abbrev a_server : Server
a_server = record { verifier = record { secret = 7 ∷ [] }; auth_disabled = false }

abbrev a_clock : Clock
a_clock = record { limited_at = 5; verified_at = 6; duration = 1 }

abbrev a_state : GatewayState ℕ
a_state = record {
  limiter = none;
  metrics = record { total = 0; errors = 0; latency = [] };
  world = 0;
}

-- A handler that counts its calls.
abbrev a_handler : Request → Exec ℕ Response Response
a_handler r n = (ok (json 200 (fields [])), suc n)

unverified_refused_example :
    ((middleware a_codec (λ s. none) a_server a_handler a_clock a_request a_state).1.world ≡ 0)
    × (((middleware a_codec (λ s. none) a_server a_handler a_clock a_request a_state).0
          ≡ http_error 401 "unauthorized")
        ⊎ ((middleware a_codec (λ s. none) a_server a_handler a_clock a_request a_state).0
            ≡ http_error 429 "rate limit exceeded"))
unfolding requires_auth verify_bearer after_prefix
unverified_refused_example =
    unverified_refused a_codec (λ s. none) a_server a_handler a_clock a_request a_state
      "missing bearer token" refl refl refl

abbrev signed_request : Request
signed_request = record a_request { claims = some the_claims }

abbrev a_decoder : Decoders
a_decoder = record {
  create_user = λ s. none;
  login = λ s. none;
  create_document = λ s. none;
  upload_document = λ s. none;
  start_verification = λ s. none;
  base64 = λ s. none;
}

-- Services that count the calls and answer with an error.
abbrev some_clients : Clients ℕ
some_clients = record {
  create_user = λ q n. (err other_error, suc n);
  login = λ q n. (err other_error, suc n);
  create_document = λ ctx q n. (err other_error, suc n);
  get_document = λ ctx q n. (err other_error, suc n);
  upload_document = λ ctx q n. (err other_error, suc n);
  get_document_status = λ ctx q n. (err other_error, suc n);
  start_verification = λ q n. (err other_error, suc n);
  get_verification = λ q n. (err other_error, suc n);
  is_serving = [];
}

-- Other services, which do not answer for another organization.
abbrev other_clients : Clients ℕ
other_clients = record some_clients {
  get_document = λ ctx q n.
      if q.organization_id == "org_1" then (err other_error, suc n) else (err other_error, n);
}

agree : AgreeOn "org_1" some_clients other_clients
agree = record {
  create_document = λ ctx q w e. refl;
  get_document = λ ctx q w e. rw e refl;
  upload_document = λ ctx q w e. refl;
  get_document_status = λ ctx q w e. refl;
  start_verification = λ q w e. refl;
  get_verification = λ q w e. refl;
}

only_claimed_organization_example :
    (create_document a_decoder some_clients signed_request 0
      ≡ create_document a_decoder other_clients signed_request 0)
    × (get_document a_decoder some_clients signed_request 0
        ≡ get_document a_decoder other_clients signed_request 0)
    × (upload_document a_decoder some_clients signed_request 0
        ≡ upload_document a_decoder other_clients signed_request 0)
    × (get_document_status a_decoder some_clients signed_request 0
        ≡ get_document_status a_decoder other_clients signed_request 0)
    × (start_verification a_decoder some_clients signed_request 0
        ≡ start_verification a_decoder other_clients signed_request 0)
    × (get_verification a_decoder some_clients signed_request 0
        ≡ get_verification a_decoder other_clients signed_request 0)
only_claimed_organization_example =
    only_claimed_organization a_decoder some_clients other_clients signed_request the_claims 0 refl
      (differ "org_1" "" refl) agree

gateway_metadata_passes_iff_example :
    (require
        (identity_metadata signed_request (organization_id signed_request "org_2"))
        (organization_id signed_request "org_2")
        permission_upload
      ≡ ok tt)
    ↔ Any (λ value. Any (λ k. to_lower (trim_space value) ≡ k) known_roles) ("member" ∷ [])
unfolding trim_space is_space
gateway_metadata_passes_iff_example =
    gateway_metadata_passes_iff signed_request the_claims "member" [] "org_2" permission_upload refl
      (differ "org_1" "" refl) (differ "org_1" "" refl) refl
      ((refl, (refl, (refl, (refl, (refl, (refl, tt)))))), tt)
