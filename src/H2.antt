-- ===== src/H2.antt =====
-- HTTP/2 over nghttp2: src/h2/stream.cpp and src/h2/session.cpp.
pub mod State
pub mod Stream
pub mod Session
