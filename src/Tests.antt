-- ===== src/Tests.antt =====
-- The theorems of the library at concrete states and texts, and runs of the definitions.
mod AltSvc
mod Stream
mod Streams
mod H2
mod H2v2
mod H3
mod FileCache
mod HttpDate
