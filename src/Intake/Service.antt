-- ===== src/Intake/Service.antt =====
-- `Service` of doclens-document-intake-service/internal/service/document.go: its fields, the state
-- that its calls share, and the pieces of which the calls are made. Times are nanoseconds.
pub mod Documents
pub mod Uploads
pub mod Intents
pub mod Access
pub mod Slots
pub mod Results
use doc_lens.Base.{
  ℕ, ℤ, pos, ◌%◌, ◌/◌, ◌+◌, String, Bool, true, false, ◌&&◌, not, List, [], ◌∷◌, map, Option, none,
  some, ◌==◌, string_eq, ltb_ℤ, length, any, if◌then◌else◌, Result, ok, err, Exec, ◌>>=◌, ◌>>◌,
  pure, raise, trim_space, hex, to_lower,
}
use Prim.Native.String.{◌++◌, char_at}
use Prim.Native.String
use doc_lens.Rpc.{
  Status, Code, Metadata, error, internal, not_found, resource_exhausted, invalid_argument,
}
use doc_lens.Intake.Types.{
  UploadRecord, Document, StoreError, document_not_found, organization_mismatch, upload_not_found,
  upload_not_pending, upload_mismatch, failure, Store, ObjectStorage, OutboxEvent,
}
use doc_lens.Intake.Events.{Envelope, new_document_uploaded}
use doc_lens.Intake.Pool
use doc_lens.Intake.Pool.{UploadPool, acquire}
use doc_lens.Intake.Metrics.{IntakeMetrics, worker_started, worker_finished, upload_rejected}

-- The functions of Go's libraries that the service calls: `http.DetectContentType`,
-- `sha256.Sum256`, `json.Marshal`, `Time.Format`, and `fmt`'s `%d` and `%q`.
pub record External : Type 0 where
  pub detect_content_type : List ℕ → String
  pub sha256 : List ℕ → List ℕ
  pub marshal : Envelope → Result String String
  pub format_time : ℕ → String
  pub format_int : ℤ → String
  pub quote : String → String

-- What one call reads from the clock and from `crypto/rand`, in the order of the readings. Readings
-- of the clock that stand next to each other in the source are one reading here.
pub record Inputs : Type 0 where
  pub now : ℕ → ℕ
  pub random : ℕ → Option (List ℕ)

pub record Service (S W : Type 0) : Type 0 where
  pub store : Store S
  pub object_storage : Option (ObjectStorage W)
  pub publish_document_uploaded : String → String → UploadRecord → Exec W String Unit
  pub max_upload_bytes : ℤ
  pub allowed_types : List String

-- What the calls change: the metadata store, the world outside (object storage, broker), the
-- upload pool and the metrics, where they are configured, and the response headers.
pub record State (S W : Type 0) : Type 0 where
  pub stored : S
  pub world : W
  pub pool : Option UploadPool
  pub metrics : Option IntakeMetrics
  pub headers : List (String × String)

-- The set of allowed types that `NewService` builds.
unfoldable pub allowed_set : List String → List String
allowed_set [] = []
allowed_set (t ∷ ts) =
    let rest = allowed_set ts in
    let trimmed = to_lower (trim_space t) in if trimmed == "" then rest else trimmed ∷ rest

unfoldable pub is_empty : List String → Bool
is_empty [] = true
is_empty (t ∷ ts) = false

unfoldable pub is_allowed_type : List String → String → Bool
unfolding is_empty
is_allowed_type allowed content_type =
    if is_empty allowed then true else any (λ t. t == to_lower (trim_space content_type)) allowed

-- `s.maxUploadBytes > 0 && size > s.maxUploadBytes`
unfoldable pub is_too_large : ℤ → ℤ → Bool
is_too_large max size = ltb_ℤ (pos 0) max && ltb_ℤ max size

-- `newID`; without randomness the time serves.
unfoldable pub new_id : External → String → Option (List ℕ) → ℕ → String
new_id x prefix (some bytes) now = prefix ++ "_" ++ hex bytes
new_id x prefix none now = prefix ++ "_" ++ x.format_int (pos now)

-- An error's text, as `%v` prints it.
unfoldable pub describe : StoreError → String
describe document_not_found = "document not found"
describe organization_mismatch = "document belongs to a different organization"
describe upload_not_found = "upload not found"
describe upload_not_pending = "upload is not pending"
describe upload_mismatch = "upload verification failed"
describe (failure text) = text

-- The status for an error of the store: a missing document and another organization's look alike.
unfoldable pub load_error : String → StoreError → Status
load_error prefix document_not_found = error not_found "document not found"
load_error prefix organization_mismatch = error not_found "document not found"
load_error prefix upload_not_found = error internal (prefix ++ describe upload_not_found)
load_error prefix upload_not_pending = error internal (prefix ++ describe upload_not_pending)
load_error prefix upload_mismatch = error internal (prefix ++ describe upload_mismatch)
load_error prefix (failure text) = error internal (prefix ++ text)

unfoldable pub internal_error : String → StoreError → Status
internal_error prefix e = error internal (prefix ++ describe e)

abbrev pub map_error : {E F A : Type 0} → (E → F) → Result E A → Result F A
map_error f (ok a) = ok a
map_error f (err e) = err (f e)

module _ {S W : Type 0} where
  -- A call of the metadata store, and one of the outside world.
  unfoldable pub on_store :
      {A : Type 0} → Exec S StoreError A → (StoreError → Status) → Exec (State S W) Status A
  on_store m f s = let (r, stored) = m s.stored in (map_error f r, record s { stored = stored })

  unfoldable pub on_world :
      {A : Type 0} → Exec W String A → (String → Status) → Exec (State S W) Status A
  on_world m f s = let (r, world) = m s.world in (map_error f r, record s { world = world })

  -- `if s.uploadPool != nil { … }` and `if s.metrics != nil { … }`
  unfoldable pub on_pool : (UploadPool → UploadPool) → State S W → State S W
  on_pool f s = elim s.pool [ none ↦ s | some p ↦ record s { pool = some (f p) } ]

  unfoldable pub on_metrics : (IntakeMetrics → IntakeMetrics) → State S W → State S W
  on_metrics f s = elim s.metrics [ none ↦ s | some m ↦ record s { metrics = some (f m) } ]

  -- The two deferred calls, in Go's order: the last deferred runs first.
  unfoldable pub finish : State S W → State S W
  finish s = on_metrics worker_finished (on_pool Pool.release s)

  -- What follows the call of `acquire` on the pool: the refusal, or the body and the deferred calls.
  unfoldable pub after_acquire :
      {A : Type 0}
      → Result String Unit × UploadPool
      → Exec (State S W) Status A
      → Exec (State S W) Status A
  after_acquire (err e, p) body s = (
    err (error resource_exhausted e),
    on_metrics upload_rejected
        (record s { pool = some p; headers = ("retry-after", "1") ∷ s.headers }),
  )
  after_acquire (ok _, p) body s =
      let (r, s') = body (on_metrics worker_started (record s { pool = some p })) in (r, finish s')

  -- The call of `acquire`, where there is a pool.
  unfoldable pub with_pool :
      {A : Type 0}
      → ℕ
      → String
      → Option UploadPool
      → Exec (State S W) Status A
      → Exec (State S W) Status A
  with_pool now org none body s = body s
  with_pool now org (some p) body s = after_acquire (acquire now org p) body s

  unfoldable pub with_slot :
      {A : Type 0} → ℕ → String → Exec (State S W) Status A → Exec (State S W) Status A
  with_slot now org body s = with_pool now org s.pool body s

-- `NewService`; the publisher does nothing until another is given.
unfoldable pub new_service :
    {S W : Type 0} → Store S → Option (ObjectStorage W) → ℤ → List String → Service S W
new_service store object_storage max_upload_bytes allowed_types = record {
  store = store;
  object_storage = object_storage;
  publish_document_uploaded = λ organization_id document_id upload. pure tt;
  max_upload_bytes = max_upload_bytes;
  allowed_types = allowed_set allowed_types;
}
