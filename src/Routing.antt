-- ===== src/Routing.antt =====
-- src/routing: the routing layer.
pub mod Message
pub mod Matrix
pub mod Router
pub mod Forward
pub mod Areas
pub mod Update
pub mod Ptp
pub mod Lan
pub mod Index
pub mod Choice
pub mod Settled
pub mod Tests
