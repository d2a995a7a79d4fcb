-- ===== src/Gateway.antt =====
-- doclens-api-gateway: the HTTP front of the services.
pub mod Limiter
pub mod Config
pub mod Verifier
pub mod Http
pub mod Errors
pub mod Handlers
pub mod Middleware
