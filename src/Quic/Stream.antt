-- ===== src/Quic/Stream.antt =====
-- `QuicStream`, src/quic/stream.cpp and include/anyhttp/quic/stream.hpp.
pub mod State
pub mod Output
pub mod Positions
pub mod Lifecycle
pub mod Input
pub mod Integrity
pub mod Delivery
pub mod Trace
pub mod Bytes
pub mod Sends
pub mod Body
pub mod Changes
pub mod Outbound
pub mod Preserves
pub mod Offering
pub mod Exhausting
pub mod Reachable
pub mod Detached
pub mod Handlers
pub mod Ladder
pub mod Progress
