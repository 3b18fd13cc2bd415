-- ===== src/Quic/Streams.antt =====
-- `StreamApplication`, src/quic/streams.cpp and include/anyhttp/quic/streams.hpp: the plain streams
-- of a connection.
pub mod State
pub mod Schedule
pub mod Accept
pub mod Receive
pub mod Turns
pub mod RoundRobin
pub mod Moves
pub mod Order
