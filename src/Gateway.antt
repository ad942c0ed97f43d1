-- ===== src/Gateway.antt =====
-- The access layer of the gateway: api/gateway/security.py.
pub mod Security
pub mod Requests
pub mod Ids
mod Examples
