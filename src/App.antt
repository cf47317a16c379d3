-- ===== src/App.antt =====
-- The application flows over the transfer library: client/app/src.
pub mod Style
pub mod Sending
pub mod Receiving
