-- ===== src/Examples.antt =====
-- The two measurements under examples: what they count, and when they stop.
pub mod Meter
pub mod First
pub mod Second
mod Tests
