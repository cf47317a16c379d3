-- ===== src/Download.antt =====
-- The download of a file.
pub mod Plan
pub mod Accumulator
pub mod Credential
pub mod Act
pub mod Interfaces
pub mod Session
pub mod Receiver
pub mod Getting
pub mod Status
