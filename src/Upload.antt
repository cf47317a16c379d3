-- ===== src/Upload.antt =====
-- The upload session: client/transfer/src/session/upload-session.ts, upload-registry.ts and
-- replica-replication.ts.
pub mod Blocks
pub mod Registration
pub mod Hashing
pub mod InWorker
pub mod Prepare
pub mod Reading
pub mod Replication
pub mod Session
pub mod Stripe
