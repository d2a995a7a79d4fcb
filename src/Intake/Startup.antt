-- ===== src/Intake/Startup.antt =====
-- The decisions of doclens-document-intake-service/cmd/document-intake/main.go: which storage and
-- store the service runs on, whether it runs the outbox worker, and what stops it. Opening a
-- resource may fail; those opened are kept in order.
pub mod Starts
use doc_lens.Base.{
  ℤ, String, Bool, true, false, not, ◌&&◌, ◌||◌, List, [], ◌∷◌, ◌++◌, Option, none, some, ◌==◌,
  string_eq, if◌then◌else◌, Result, ok, err, Exec, pure, raise, check, require_some, ◌>>=◌, ◌>>◌,
}
use doc_lens.Intake.Pool.{UploadPool, new_upload_pool}
use doc_lens.Intake.Storage.{S3Client, R2ObjectStorage, new_r2_object_storage}
use doc_lens.Intake.Config.{Config, pool_config}

pub data Resource : Type 0 where
  storage_dir r2_config postgres migration_file migration rabbitmq listener : Resource

-- The resources that cannot be opened, and the S3 client.
pub record External (W : Type 0) : Type 0 where
  pub fails : Resource → Bool
  pub client : S3Client W

pub record Setup (W : Type 0) : Type 0 where
  pub r2 : Option (R2ObjectStorage W)
  pub on_postgres : Bool
  pub publishes : Bool
  pub max_upload_bytes : ℤ
  pub allowed_types : List String
  pub pool : UploadPool

-- A start that stops leaves its log message.
module _ {W : Type 0} (x : External W) where
  unfoldable pub open_resource : Resource → String → Exec (List Resource) String Unit
  open_resource r message opened =
      if x.fails r then (err message, opened) else (ok tt, opened ++ r ∷ [])

  abbrev pub new_storage :
      Result String (R2ObjectStorage W) → Exec (List Resource) String (Option (R2ObjectStorage W))
  new_storage (ok storage) opened = (ok (some storage), opened)
  new_storage (err e) opened = (err "initialize r2 storage", opened)

  -- Local files unless the endpoint or the bucket is given.
  unfoldable pub uses_r2 : Config → Bool
  uses_r2 c = not (c.r2_endpoint == "") || not (c.r2_bucket == "")

  unfoldable pub is_complete : Config → Bool
  is_complete c = not (
      c.r2_endpoint == ""
      || c.r2_access_key_id == ""
      || c.r2_secret_access_key == ""
      || c.r2_bucket == "")

  unfoldable pub choose_storage : Config → Exec (List Resource) String (Option (R2ObjectStorage W))
  choose_storage c =
      if uses_r2 c
      then (do
        check (is_complete c) "r2 configuration is incomplete"
        open_resource r2_config "initialize r2 config"
        new_storage (new_r2_object_storage (some x.client) c.r2_bucket))
      else pure none

  unfoldable pub choose_store : Config → Exec (List Resource) String Bool
  choose_store c = if c.database_url == "" then pure false else (do
    open_resource postgres "initialize postgres store"
    open_resource migration_file "read database migration"
    open_resource migration "run database migration"
    pure true)

  unfoldable pub choose_publisher : Config → Bool → Exec (List Resource) String Bool
  choose_publisher c on_postgres = if c.rabbitmq_url == "" then pure false else (do
    check on_postgres "rabbitmq requires postgres"
    open_resource rabbitmq "initialize rabbitmq publisher"
    pure true)

  unfoldable pub start : Config → Exec (List Resource) String (Setup W)
  start c = do
    open_resource storage_dir "initialize object storage"
    r2 ← choose_storage c
    on_postgres ← choose_store c
    publishes ← choose_publisher c on_postgres
    pool ← require_some (new_upload_pool (pool_config c)) "initialize upload pool"
    open_resource listener "listen"
    pure (record {
      r2 = r2;
      on_postgres = on_postgres;
      publishes = publishes;
      max_upload_bytes = c.max_upload_bytes;
      allowed_types = c.allowed_content_types;
      pool = pool;
    })
