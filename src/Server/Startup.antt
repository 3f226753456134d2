-- ===== src/Server/Startup.antt =====
-- src/server.rs: how a server is made, alone and in daemon mode, and the routes that it sets up.
-- The configuration, which no method changes, is an argument where it is read.
pub mod Known
use Prim.Native.String.{◌++◌ as append}
use secure_guard.Base.{ℕ, List, [], ◌∷◌, ◌++◌, Option, none, some, true, false, String}
use secure_guard.Base.Result.{Result, ok, err}
use secure_guard.Error.{MinnowVpnError, config, network, missing_field, bind_failed}
use secure_guard.Config.{WireGuardConfig, PeerConfig}
use secure_guard.Crypto.{Primitives, public_key}
use secure_guard.Session.{TrafficStats}
use secure_guard.Peer.Manager.{PeerManager}
use secure_guard.Peer.Manager
use secure_guard.Client.{mtu_or_default}
use secure_guard.Server.{WireGuardServer, Effect, add_route, routes}

-- What the making of a server asks of the outside.
pub data Request : Type 0 where
  cleanup_stale_routes : Request
  create_tun : ℕ → ℕ → ℕ → Request
  bind_udp : String → Request

-- How a port is written, what `TunDevice::create` answers, and the reason for which binding fails.
pub record Surroundings : Type 0 where
  pub show_port : ℕ → String
  pub tun : Result (Unit {0}) MinnowVpnError
  pub bind_error : Option String

abbrev missing {ℓ} : {A : Type ℓ} → String → Result A MinnowVpnError
missing field = err (config (missing_field field))

-- `format!("0.0.0.0:{}", listen_port)`.
abbrev pub bind_addr : Surroundings → ℕ → String
bind_addr x port = append "0.0.0.0:" (x.show_port port)

abbrev bound : Surroundings → ℕ → Result (Unit {0}) MinnowVpnError
bound x port = elim x.bind_error [
  | none ↦ ok tt
  | some reason ↦ err (network (bind_failed (bind_addr x port) reason))
]

-- The steps that `new` and `new_with_channels` have in common, up to the bound socket.
unfoldable pub open_server :
    Surroundings → WireGuardConfig → List Request × Result (Unit {0}) MinnowVpnError
open_server x c = elim c.interface.listen_port [
  | none ↦ (cleanup_stale_routes ∷ [], missing "ListenPort")
  | some port ↦ elim c.interface.address [
    | [] ↦ (cleanup_stale_routes ∷ [], missing "Address")
    | (addr, prefix_len) ∷ more ↦
        let created = create_tun addr prefix_len (mtu_or_default c.interface.mtu) in
        elim x.tun [
          | err e ↦ (cleanup_stale_routes ∷ created ∷ [], err e)
          | ok done ↦
              (cleanup_stale_routes ∷ created ∷ bind_udp (bind_addr x port) ∷ [], bound x port)
        ]
  ]
]

unfoldable pub add_peers : List PeerConfig → PeerManager → PeerManager
add_peers [] m = m
add_peers (peer ∷ peers) m =
    add_peers peers (Manager.add_peer m peer.public_key peer.preshared_key peer.allowed_ips)

abbrev made :
    Result (Unit {0}) MinnowVpnError → WireGuardServer → Result WireGuardServer MinnowVpnError
made (err e) s = err e
made (ok done) s = ok s

module _ (p : Primitives) (x : Surroundings) (c : WireGuardConfig) where
  unfoldable pub new : List Request × Result WireGuardServer MinnowVpnError
  new = (
    (open_server x c).0,
    made (open_server x c).1 (record {
      static_private = c.interface.private_key;
      static_public = public_key p c.interface.private_key;
      peers = add_peers c.peers Manager.new;
      shared_peers = none;
      has_event_channel = false;
      traffic_stats = none;
    }),
  )

  -- In daemon mode the peers are those of the manager that is handed in.
  unfoldable pub new_with_channels :
      PeerManager → TrafficStats → List Request × Result WireGuardServer MinnowVpnError
  new_with_channels shared stats = (
    (open_server x c).0,
    made (open_server x c).1 (record {
      static_private = c.interface.private_key;
      static_public = public_key p c.interface.private_key;
      peers = Manager.new;
      shared_peers = some shared;
      has_event_channel = true;
      traffic_stats = some stats;
    }),
  )

-- Failures to add a route are only logged.
unfoldable pub setup_routes : List PeerConfig → List Effect
setup_routes [] = []
setup_routes (peer ∷ peers) = routes add_route peer.allowed_ips ++ setup_routes peers
