-- ===== src/Tests.antt =====
-- Inputs at which the theorems of the library apply.
mod Protocol
mod Rooms
mod Hubs
mod Tunnels
mod Udp
mod Client
mod EndToEnd
mod Sessions
mod Dashboards
mod Cli
mod Keys
