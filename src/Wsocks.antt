-- ===== src/Wsocks.antt =====
-- The program src/bin.todo/wsocks.rs, a proxy that runs over the pipes of the library.
pub mod Info
pub mod Protocol
pub mod Mux
pub mod Frame
pub mod Errors
pub mod Etag
pub mod Forward
pub mod Request
pub mod Server
pub mod Client
pub mod Start
pub mod Handshake
pub mod Main
