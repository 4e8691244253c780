-- ===== src/EndToEnd.antt =====
-- The server and the client of a tunnel, put together.
pub mod Traffic
pub mod Grant
pub mod Relay
