-- ===== src/H2/Stream.antt =====
-- The operations of `NGHttp2Stream`, src/h2/stream.cpp, and what holds of them.
pub mod Reading
pub mod Integrity
pub mod Delivery
pub mod Waiting
pub mod Counting
pub mod Reports
pub mod Apart
pub mod Writing
pub mod Sending
pub mod SentBody
pub mod SentStep
pub mod Frames
pub mod Resting
pub mod Life
pub mod Endings
pub mod Ladder
pub mod Response
pub mod Responses
