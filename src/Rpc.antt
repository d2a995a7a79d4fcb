-- ===== src/Rpc.antt =====
-- gRPC status codes and errors, and request metadata (google.golang.org/grpc/codes, status and
-- metadata, as far as the services use them).
use doc_lens.Base.{String, List, [], Option, none, some, Assoc, lookup}

pub data Code : Type 0 where
  ok_code canceled unknown invalid_argument deadline_exceeded not_found already_exists : Code
  permission_denied resource_exhausted failed_precondition aborted out_of_range : Code
  unimplemented internal unavailable data_loss unauthenticated : Code

pub Code-discrete : Discrete Code
Code-discrete = hlevel

-- `status.Error(code, message)`
pub record Status : Type 0 where
  pub code : Code
  pub message : String

abbrev pub error : Code → String → Status
error c m = record { code = c; message = m }

-- `metadata.MD`: each key has the list of its values.
abbrev pub Metadata : Type 0
Metadata = Assoc (List String)

-- `md.Get(key)`
unfoldable pub get : Metadata → String → List String
get md key = elim (lookup key md) [ none ↦ [] | some values ↦ values ]

-- A call's context: `FromIncomingContext` finds metadata or not.
pub record Context : Type 0 where
  pub metadata : Option Metadata
