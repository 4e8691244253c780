-- ===== src/Server.antt =====
-- internal/server: the rooms and the hub of the VPN, and the connections with their tunnels.
pub mod Peer
pub mod Room
pub mod Hub
pub mod Tunnels
pub mod Control
pub mod Udp
pub mod Dispatch
pub mod Tcp
pub mod Dashboard
pub mod Life
