-- ===== src/Registry.antt =====
-- The registry client and the routing of blocks to relays: client/transfer/src/router.
pub mod Records
pub mod Endpoints
pub mod Router
pub mod Coalescing
pub mod HttpClient
pub mod Json
pub mod Response
