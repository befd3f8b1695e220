-- ===== src/Ddcmp.antt =====
-- src/datalink: DDCMP.
pub mod Message
pub mod Protocol
pub mod Outstanding
pub mod Framing
pub mod Kept
pub mod InOrder
mod Tests
pub mod Receive
