-- ===== src/Client.antt =====
-- internal/client and the flags of cmd/tunelc.
pub mod Spec
pub mod Flag
pub mod Run
pub mod P2p
pub mod Peers
pub mod Tunnels
pub mod Vpn
pub mod Tun
pub mod Cli
pub mod Mode
pub mod Gui
pub mod Window
pub mod Links
pub mod Dial
pub mod Pipe
