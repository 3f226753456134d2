-- ===== src/Tests.antt =====
-- The theorems at concrete inputs.
pub mod Toy
mod Clients
mod Configs
mod Daemons
mod Tunnels
mod Packets
mod Handshakes
mod Peers
mod Servers
mod Traffic
mod Exchanges
mod Hostings
mod Starts
