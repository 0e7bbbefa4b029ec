-- ===== src/Gateway.antt =====
-- internal/gateway: the claims that route a request to a sandbox.
pub mod Claims
