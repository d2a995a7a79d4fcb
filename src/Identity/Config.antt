-- ===== src/Identity/Config.antt =====
-- doclens-identity-service/internal/config/config.go, whose readers do not trim the values.
use doc_lens.Base.{
  ℤ, pos, String, Bool, true, not, ◌&&◌, Option, ◌==◌, string_eq, if◌then◌else◌, Result, ok, err,
  trim_space, to_lower,
}
use doc_lens.Env.{Env, Parsers, or_fallback}

pub record Config : Type 0 where
  pub address : String
  pub jwt_secret : String
  pub environment : String
  pub database_url : String
  pub database_timeout : ℤ
  pub access_token_ttl : ℤ
  pub refresh_token_ttl : ℤ
  pub development_seed : Bool
  pub development_org_id : String
  pub development_email : String
  pub development_password : String

unfoldable pub plain_env : Env → String → String → String
plain_env env key fallback = if env key == "" then fallback else env key

-- `durationEnv` and `boolEnv`, with their parsers.
unfoldable pub plain_parsed_env : {A : Type 0} → Env → (String → Option A) → String → A → A
plain_parsed_env env parse key fallback =
    if env key == "" then fallback else or_fallback fallback (parse (env key))

-- The configuration before it is looked at.
unfoldable pub read : Parsers → Env → Config
read p env = record {
  address = plain_env env "IDENTITY_GRPC_ADDR" ":9001";
  jwt_secret = env "JWT_SECRET";
  environment = to_lower (trim_space (plain_env env "IDENTITY_ENV" "development"));
  database_url = env "DATABASE_URL";
  database_timeout = plain_parsed_env env p.parse_duration "DATABASE_TIMEOUT" (pos 5_000_000_000);
  access_token_ttl = plain_parsed_env env p.parse_duration "ACCESS_TOKEN_TTL" (pos 900_000_000_000);
  refresh_token_ttl =
      plain_parsed_env env p.parse_duration "REFRESH_TOKEN_TTL" (pos 2_592_000_000_000_000);
  development_seed = plain_parsed_env env p.parse_bool "IDENTITY_DEV_SEED" true;
  development_org_id = plain_env env "IDENTITY_DEV_ORG_ID" "dev-org";
  development_email = plain_env env "IDENTITY_DEV_EMAIL" "admin@doclens.local";
  development_password = plain_env env "IDENTITY_DEV_PASSWORD" "doclens-dev";
}

unfoldable pub accept : Config → Result String Config
accept c =
    if c.jwt_secret == ""
    then err "JWT_SECRET is required"
    else if c.database_url == "" && not (c.environment == "development")
    then err "DATABASE_URL is required outside development"
    else ok c

unfoldable pub load : Parsers → Env → Result String Config
load p env = accept (read p env)
