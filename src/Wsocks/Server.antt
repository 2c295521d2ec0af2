-- ===== src/Wsocks/Server.antt =====
-- The server of src/bin.todo/wsocks.rs: its long-term key and its table of sessions.
pub mod Keys
pub mod Sessions
pub mod Deadline
pub mod Life
pub mod Rounds
