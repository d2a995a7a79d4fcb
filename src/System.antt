-- ===== src/System.antt =====
-- The identity service, the gateway and the document intake service together.
pub mod Tokens
pub mod Access
mod Tests
mod Gateways
