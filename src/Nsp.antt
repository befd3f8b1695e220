-- ===== src/Nsp.antt =====
-- src/nsp: logical links over the routing datagram service.
pub mod Packets
pub mod Link
pub mod Transmit
pub mod Api
pub mod Receive
pub mod States
pub mod Kept
pub mod InOrder
pub mod Segments
pub mod Window
pub mod Closing
pub mod Reassembly
pub mod Held
mod Tests
pub mod Acks
pub mod Released
pub mod Table
