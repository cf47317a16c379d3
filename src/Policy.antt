-- ===== src/Policy.antt =====
-- The policies that choose sizes: client/transfer/src/segment-policy.ts, wire-block-policy.ts and
-- protocol/receive-prefetch-policy.ts.
pub mod Environment
pub mod Segment
pub mod WireBlock
pub mod Prefetch
