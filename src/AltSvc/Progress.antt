-- ===== src/AltSvc/Progress.antt =====
-- The parser of src/alt_svc.cpp always ends, for any field value.
pub mod Members
pub mod Values
pub mod Rounds
