-- ===== src/Config.antt =====
-- src/config/parser.rs: the configuration that the client and the server take.
pub mod Text
pub mod Numbers
pub mod Parser
use secure_guard.Base.{ℕ, List, Option}
use secure_guard.Net.{IpAddr, SocketAddr, IpNet}

-- An entry of `address` is a v4 network, as its address and prefix length.
pub record InterfaceConfig : Type 0 where
  pub private_key : List ℕ
  pub address : List (ℕ × ℕ)
  pub dns : List IpAddr
  pub listen_port : Option ℕ
  pub mtu : Option ℕ
  pub preshared_key : Option (List ℕ)

pub record PeerConfig : Type 0 where
  pub public_key : List ℕ
  pub preshared_key : Option (List ℕ)
  pub endpoint : Option SocketAddr
  pub allowed_ips : List IpNet
  pub persistent_keepalive : Option ℕ

pub record WireGuardConfig : Type 0 where
  pub interface : InterfaceConfig
  pub peers : List PeerConfig
