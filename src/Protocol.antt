-- ===== src/Protocol.antt =====
-- internal/protocol: the byte streams and the frames that travel on them, and the control messages.
pub mod Stream
pub mod Framing
pub mod Packet
pub mod Messages
pub mod Duplex
