-- ===== src/H2/Session.antt =====
-- `NGHttp2Session`, src/h2/session.cpp: its streams, and what happens to them.
pub mod Streams
pub mod Fates
pub mod Submits
pub mod Others
pub mod Receive
pub mod Header
pub mod HeaderLimit
pub mod Closing
pub mod Resuming
