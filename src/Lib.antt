-- ===== src/Lib.antt =====
-- DocLens: the Go services of the document verification platform. The gateway
-- (doclens-api-gateway) takes HTTP requests, limits their rate, verifies their tokens and asks the
-- services behind; the identity service (doclens-identity-service) keeps users and issues tokens;
-- the document intake service (doclens-document-intake-service) checks the caller's access, keeps
-- documents and their uploads, and tells a broker of each upload.
--
-- Files, with the code each models:
--   Intake/Types, Intake/Memory  internal/store/store.go: records, store interfaces, `MemoryStore`
--   Intake/Pool                  internal/service/upload_pool.go
--   Intake/Authz                 internal/authz/authz.go and interceptor.go
--   Intake/Events, Metrics       internal/events/events.go, internal/observability/metrics.go
--   Intake/Database, Postgres    internal/store/postgres.go on the tables of migrations/001_initial.sql
--   Intake/Outbox                the outbox calls of postgres.go and internal/events/rabbitmq.go
--   Intake/Published             the two together
--   Intake/Storage               the object storages of internal/store/store.go and r2.go
--   Intake/Config, Startup       internal/config/config.go, cmd/document-intake/main.go
--   Intake/Service               internal/service/document.go: Documents, Uploads and Intents are
--                                its handlers, Messages (beside it) the messages of documents.proto
--   Gateway/Limiter              internal/ratelimit/limiter.go
--   Gateway/Config               internal/config/config.go
--   Gateway/Verifier             internal/auth/jwt.go
--   Gateway/Handlers, Errors     internal/httpapi/handlers.go and errors.go
--   Gateway/Middleware           internal/httpapi/server.go (and the metrics' `Observe`)
--   Identity/Accounts, Users     internal/service/identity.go, internal/store/memory.go
--   Identity/Postgres, Config    internal/store/postgres.go, internal/config/config.go
--   Identity/Passwords, Issuer   internal/auth/password.go and jwt.go
--   Tokens, Rpc, Env             what the services share: claims, codecs, gRPC codes and metadata,
--                                readers of the environment
--   System                       the services together, and tests of the last two
--   Base                         calls with state and errors, maps, texts, tests and their laws
-- A child module named for what it proves holds the theorems on its parent.
--
-- An operation keeps its Go name in snake_case. A call that may fail is an `Exec`: it takes the
-- state and gives a result or an error, and the state that it leaves. A mutex makes an operation one
-- step, so interleavings are lists of steps. The clock and the random numbers are arguments. The
-- services' parts meet at records of operations: `Store`, `ObjectStorage`, `UserStore`, `Clients`.
-- PostgreSQL is a record of tables: a statement checks the constraints of the migration and changes
-- rows, each statement may fail (`Sql`), and a transaction that fails leaves the tables as they were.
-- Times are nanoseconds; a TIMESTAMPTZ column keeps microseconds of them (`micros`), so what is read
-- back may be less exact than what was returned when it was written. A JSONB column gives back a
-- text of its own for the text it is given, by a parameter (`Sql.jsonb`).
-- Row locks make a transaction one step. The outbox worker runs any number of rounds, each with its
-- own clock and failures (`Turn`).
-- The functions of Go's libraries are parameters too (`External`, `Library`, `Codec`, `Decoders`).
-- Every loop is a structural recursion, so nothing runs on fuel.
--
-- Texts are lists of characters, as the source's strings are valid UTF-8; bytes are numbers. Signed
-- sizes are integers without wrap-around, since they are compared and copied only; the metrics'
-- counters wrap at 2 ^ 64. Tokens of the two rate limits are exact billionths for Go's `float64`,
-- and the upload pool's rate, a `float64` there, is a whole number of tokens a second. Letters are
-- made small within ASCII only.
--
-- Not modelled: the set-up of connections, migrations and the scanning of columns; a commit that
-- fails although the server made it; the metrics and gRPC servers and the shutdown of the entry
-- points, the clients and generated code; logging; and the services in other languages, the web
-- front end and the documentation site.
mod Base
pub mod Rpc
pub mod Tokens
pub mod Env
pub mod Identity
pub mod Gateway
pub mod System
pub mod Intake
