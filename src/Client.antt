-- ===== src/Client.antt =====
-- src/client.rs: the client, its creation and its routes. The socket, the TUN device and the
-- route manager are outside: what a method asks of them is a list of effects, and what they
-- answer is an argument.
pub mod Handshake
pub mod Traffic
pub mod Loop
pub mod Retry
use secure_guard.Base.{
  ℕ, ◌/◌, Bool, false, not, ◌==◌, if◌then◌else◌, List, [], ◌∷◌, ◌++◌, Option, none, some, replicate,
  String,
}
use secure_guard.Base.Result.{Result, ok, err}
use secure_guard.Error.{MinnowVpnError, config, network, missing_field, bind_failed}
use secure_guard.Net.{IpAddr, v4, v6, SocketAddr, IpNet, v4_net, v6_net}
use secure_guard.Config.{WireGuardConfig, PeerConfig}
use secure_guard.Session.{TrafficStats, from_secs}
use secure_guard.Session.Manager as SessionManager
use secure_guard.Session.Manager.{SessionManager}
use secure_guard.Cookie
use secure_guard.Cookie.{CookieState}
use secure_guard.Handshake.Initiator.{InitiatorHandshake}
use mathlib.Core.Option

pub data Effect : Type 0 where
  create_tun : ℕ → ℕ → ℕ → Effect
  bind_udp : String → Effect
  send_udp : List ℕ → SocketAddr → Effect
  write_tun : List ℕ → Effect
  add_endpoint_bypass : ℕ → Effect
  add_route : ℕ → ℕ → Effect
  sleep : ℕ → Effect
  cleanup_stale_routes : Effect

-- `peer` is `config.peers[0]`, which `new` has found, and which no method changes.
pub record WireGuardClient : Type 0 where
  pub config : WireGuardConfig
  pub peer : PeerConfig
  pub sessions : SessionManager
  pub cookie_state : CookieState
  pub pending_handshake : Option InitiatorHandshake
  pub last_mac1 : List ℕ
  pub peer_endpoint : SocketAddr
  pub keepalive_interval : Option ℕ
  pub traffic_stats : Option TrafficStats

-- `is_loopback`: 127.0.0.0/8, and ::1.
abbrev pub is_loopback : IpAddr → Bool
is_loopback (v4 a) = a / 16777216 == 127
is_loopback (v6 a) = a == 1

abbrev pub mtu_or_default : Option ℕ → ℕ
mtu_or_default none = 1420
mtu_or_default (some n) = n

abbrev pub bind_addr : SocketAddr → String
bind_addr e = if is_loopback e.ip then "127.0.0.1:0" else "0.0.0.0:0"

abbrev missing : String → Result WireGuardClient MinnowVpnError
missing field = err (config (missing_field field))

-- The last step of `new`: the socket is bound.
abbrev bind_socket :
    WireGuardConfig
    → Option TrafficStats
    → PeerConfig
    → SocketAddr
    → Option String
    → Result WireGuardClient MinnowVpnError
bind_socket c stats peer endpoint (some reason) =
    err (network (bind_failed (bind_addr endpoint) reason))
bind_socket c stats peer endpoint none = ok (record {
  config = c;
  peer = peer;
  sessions = SessionManager.new;
  cookie_state = Cookie.new;
  pending_handshake = none;
  last_mac1 = replicate 16 0;
  peer_endpoint = endpoint;
  keepalive_interval = Option.map from_secs peer.persistent_keepalive;
  traffic_stats = stats;
})

-- First the routes that a crashed session left are cleaned up (Tunnel.Stale).
-- `tun` is the answer of `TunDevice::create`, `bind_error` the reason for which binding fails.
unfoldable pub new :
    WireGuardConfig
    → Option TrafficStats
    → Result (Unit {0}) MinnowVpnError
    → Option String
    → List Effect × Result WireGuardClient MinnowVpnError
new c stats tun bind_error = elim c.interface.address [
  | [] ↦ (cleanup_stale_routes ∷ [], missing "Address")
  | (addr, prefix_len) ∷ more ↦
      let created = create_tun addr prefix_len (mtu_or_default c.interface.mtu) in
      elim tun [
        | err e ↦ (cleanup_stale_routes ∷ created ∷ [], err e)
        | ok done ↦ elim c.peers [
          | [] ↦ (cleanup_stale_routes ∷ created ∷ [], missing "Peer")
          | peer ∷ others ↦ elim peer.endpoint [
            | none ↦ (cleanup_stale_routes ∷ created ∷ [], missing "Endpoint")
            | some endpoint ↦ (
              cleanup_stale_routes ∷ created ∷ bind_udp (bind_addr endpoint) ∷ [],
              bind_socket c stats peer endpoint bind_error,
            )
          ]
        ]
      ]
]

-- The route around the tunnel for the VPN endpoint, if it is a v4 address and not local.
abbrev pub bypass : SocketAddr → List Effect
bypass e = elim e.ip [
  | v4 a ↦ if is_loopback (v4 a) then [] else add_endpoint_bypass a ∷ []
  | v6 a ↦ []
]

unfoldable pub routes_of : List IpNet → List Effect
routes_of [] = []
routes_of (v4_net a n ∷ nets) = add_route a n ∷ routes_of nets
routes_of (v6_net a n ∷ nets) = routes_of nets

-- Failures to add a route are only logged.
unfoldable pub setup_routes : WireGuardClient → List Effect
setup_routes s = bypass s.peer_endpoint ++ routes_of s.peer.allowed_ips
