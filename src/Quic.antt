-- ===== src/Quic.antt =====
-- QUIC, src/quic: one stream (stream.cpp) and the plain streams of a connection (streams.cpp).
pub mod Stream
pub mod Streams
