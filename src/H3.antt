-- ===== src/H3.antt =====
-- HTTP/3: src/h3/stream.cpp.
pub mod Body
pub mod Handed
