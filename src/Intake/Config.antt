-- ===== src/Intake/Config.antt =====
-- doclens-document-intake-service/internal/config/config.go.
use doc_lens.Base.{
  ℤ, pos, String, List, [], ◌∷◌, ◌==◌, string_eq, if◌then◌else◌, trim_space, to_lower, split,
}
use doc_lens.Env.{Env, Parsers, get_env, parsed_env, positive_env}
use doc_lens.Intake.Pool.{UploadPoolConfig}

pub record Config : Type 0 where
  pub address : String
  pub metrics_address : String
  pub database_url : String
  pub storage_dir : String
  pub r2_endpoint : String
  pub r2_access_key_id : String
  pub r2_secret_access_key : String
  pub r2_bucket : String
  pub rabbitmq_url : String
  pub rabbitmq_exchange : String
  pub max_upload_bytes : ℤ
  pub allowed_content_types : List String
  pub upload_workers : ℤ
  pub upload_tenant_rate : ℤ
  pub upload_tenant_burst : ℤ
  pub upload_failure_limit : ℤ
  pub upload_circuit_open : ℤ

-- The loop of `parseCSV`.
unfoldable pub keep_parts : List String → List String
keep_parts [] = []
keep_parts (part ∷ parts) =
    let rest = keep_parts parts in
    if trim_space part == "" then rest else to_lower (trim_space part) ∷ rest

unfoldable pub parse_csv : String → List String
parse_csv value = keep_parts (split value ",")

abbrev pub default_types : List String
default_types = "application/pdf" ∷ "image/jpeg" ∷ "image/png" ∷ "image/webp" ∷ []

abbrev pub or_default_types : List String → List String
or_default_types [] = default_types
or_default_types (kind ∷ kinds) = kind ∷ kinds

unfoldable pub load : Parsers → Env → Config
load p env = record {
  address = get_env env "DOCUMENT_INTAKE_GRPC_ADDR" ":9002";
  metrics_address = get_env env "DOCUMENT_INTAKE_METRICS_ADDR" ":9092";
  database_url = trim_space (env "DATABASE_URL");
  storage_dir = get_env env "DOCUMENT_INTAKE_STORAGE_DIR" "./data/documents";
  r2_endpoint = trim_space (env "R2_ENDPOINT");
  r2_access_key_id = trim_space (env "R2_ACCESS_KEY_ID");
  r2_secret_access_key = trim_space (env "R2_SECRET_ACCESS_KEY");
  r2_bucket = trim_space (env "R2_BUCKET");
  rabbitmq_url = trim_space (env "RABBITMQ_URL");
  rabbitmq_exchange = get_env env "RABBITMQ_EXCHANGE" "doclens.events";
  max_upload_bytes = parsed_env env p.parse_int "DOCUMENT_INTAKE_MAX_UPLOAD_BYTES" (pos 10_485_760);
  allowed_content_types = or_default_types (
      parse_csv (
        get_env env "DOCUMENT_INTAKE_ALLOWED_CONTENT_TYPES"
          "application/pdf,image/jpeg,image/png,image/webp"));
  upload_workers = positive_env env p.atoi "DOCUMENT_INTAKE_UPLOAD_WORKERS" (pos 8);
  upload_tenant_rate = positive_env env p.parse_float "DOCUMENT_INTAKE_TENANT_UPLOAD_RATE" (pos 5);
  upload_tenant_burst = positive_env env p.atoi "DOCUMENT_INTAKE_TENANT_UPLOAD_BURST" (pos 10);
  upload_failure_limit =
      positive_env env p.atoi "DOCUMENT_INTAKE_STORAGE_FAILURE_THRESHOLD" (pos 5);
  upload_circuit_open =
      positive_env env p.parse_duration "DOCUMENT_INTAKE_STORAGE_CIRCUIT_OPEN" (pos 30_000_000_000);
}

-- What `main` hands to `WithUploadPool`.
unfoldable pub pool_config : Config → UploadPoolConfig
pool_config c = record {
  workers = c.upload_workers;
  tenant_rate = c.upload_tenant_rate;
  tenant_burst = c.upload_tenant_burst;
  failure_threshold = c.upload_failure_limit;
  open_duration = c.upload_circuit_open;
}
