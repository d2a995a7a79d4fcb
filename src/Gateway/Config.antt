-- ===== src/Gateway/Config.antt =====
-- doclens-api-gateway/internal/config/config.go.
use doc_lens.Base.{
  ℤ, pos, String, Bool, true, false, not, ◌&&◌, ◌||◌, ◌==◌, string_eq, ltb_ℤ, if◌then◌else◌, Result,
  ok, err,
}
use doc_lens.Env.{Env, Parsers, get_env, parsed_env}

pub record Config : Type 0 where
  pub address : String
  pub jwt_secret : String
  pub auth_disabled : Bool
  pub request_timeout : ℤ
  pub rate_limit_rps : ℤ
  pub rate_limit_burst : ℤ
  pub identity_target : String
  pub documents_target : String
  pub verification_target : String
  pub grpc_insecure : Bool

-- The configuration before it is looked at.
unfoldable pub read : Parsers → Env → Config
read p env = record {
  address = get_env env "GATEWAY_ADDR" ":8080";
  jwt_secret = env "JWT_SECRET";
  auth_disabled = parsed_env env p.parse_bool "GATEWAY_AUTH_DISABLED" false;
  request_timeout = parsed_env env p.parse_duration "REQUEST_TIMEOUT" (pos 10_000_000_000);
  rate_limit_rps = parsed_env env p.atoi "RATE_LIMIT_RPS" (pos 20);
  rate_limit_burst = parsed_env env p.atoi "RATE_LIMIT_BURST" (pos 40);
  identity_target = get_env env "IDENTITY_GRPC_ADDR" "localhost:9001";
  documents_target = get_env env "DOCUMENTS_GRPC_ADDR" "localhost:9002";
  verification_target = get_env env "VERIFICATION_GRPC_ADDR" "localhost:9003";
  grpc_insecure = parsed_env env p.parse_bool "GRPC_INSECURE" true;
}

abbrev pub is_positive : ℤ → Bool
is_positive n = ltb_ℤ (pos 0) n

unfoldable pub accept : Config → Result String Config
accept c =
    if not c.auth_disabled && c.jwt_secret == ""
    then err "JWT_SECRET is required unless GATEWAY_AUTH_DISABLED=true"
    else if not (is_positive c.rate_limit_rps) || not (is_positive c.rate_limit_burst)
    then err "RATE_LIMIT_RPS and RATE_LIMIT_BURST must be positive"
    else ok c

unfoldable pub load : Parsers → Env → Result String Config
load p env = accept (read p env)
