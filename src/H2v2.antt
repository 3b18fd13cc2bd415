-- ===== src/H2v2.antt =====
-- HTTP/2 over the second version of nghttp2's interface: src/h2v2/stream.cpp.
pub mod Writing
pub mod Lending
pub mod Body
pub mod Offers
pub mod Slices
pub mod Ladder
