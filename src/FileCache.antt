-- ===== src/FileCache.antt =====
-- `FileCache` and `status_for`, src/file_handler.cpp.
pub mod Cache
pub mod Keys
pub mod Coherence
pub mod Eviction
pub mod Recency
pub mod Serving
