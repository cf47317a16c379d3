-- ===== src/Transport.antt =====
pub mod Put
pub mod Meter
pub mod Throttle
pub mod Body
