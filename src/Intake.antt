-- ===== src/Intake.antt =====
-- doclens-document-intake-service: authorization, metadata store, upload pool and service.
pub mod Authz
pub mod Types
pub mod Messages
pub mod Memory
pub mod Pool
pub mod Events
pub mod Metrics
pub mod Database
pub mod Postgres
pub mod Outbox
pub mod Storage
pub mod Config
pub mod Startup
pub mod Published
pub mod Service
mod Tests
