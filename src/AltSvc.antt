-- ===== src/AltSvc.antt =====
-- Alternative services, src/alt_svc.cpp and include/anyhttp/alt_svc.hpp, and what the two ends make
-- of them in src/client_impl.cpp and src/server_impl.cpp.
pub mod Chars
pub mod Encoding
pub mod Authority
pub mod Malformed
pub mod Cursor
pub mod Service
pub mod Value
pub mod Field
pub mod Progress
pub mod Render
pub mod ReadBack
pub mod ReadValue
pub mod RoundTrip
pub mod Store
pub mod Advertise
