-- ===== src/Identity.antt =====
-- doclens-identity-service: users, passwords, login and tokens.
pub mod Messages
pub mod Passwords
pub mod Issuer
pub mod Users
pub mod Config
pub mod Postgres
pub mod Accounts
mod Tests
