-- ===== src/Resilience.antt =====
-- client/transfer/src/resilience: what is retried, how often, and where else a block is fetched.
pub mod Failure
pub mod Retry
pub mod Fallbacks
pub mod Ramp
