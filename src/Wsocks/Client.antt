-- ===== src/Wsocks/Client.antt =====
-- The client of src/bin.todo/wsocks.rs: the manager of its pipes, and its two local proxies.
pub mod Manager
pub mod Proxy
pub mod Requests
pub mod Fronts
pub mod Socks
pub mod Http
