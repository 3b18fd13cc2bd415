-- ===== src/HttpDate.antt =====
-- The date of HTTP, src/common.cpp.
pub mod Calendar
pub mod Format
pub mod Days
pub mod Reader
pub mod RoundTrip
