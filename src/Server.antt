-- ===== src/Server.antt =====
-- src/server.rs: the server's handlers. The socket, the TUN device, the route manager and the
-- daemon's channel are outside: what a handler asks of them is a list of effects, and what
-- they answer is part of its input. The clock is read once for a handler.
pub mod Inputs
pub mod Handshake
pub mod Traffic
pub mod Loop
pub mod Invariant
pub mod Startup
pub mod Deserted
use secure_guard.Base.{
  ℕ, ◌+◌, ◌*◌, ◌/◌, Bool, true, false, not, ◌==◌, ltb, if◌then◌else◌, List, [], ◌∷◌, ◌++◌, length,
  get_or, Option, none, some, String,
}
use secure_guard.Base.Result.{Result, ok, err, ◌>>◌, fail_if}
use secure_guard.Error.{MinnowVpnError, protocol, invalid_message_length, invalid_message_type}
use secure_guard.Net.{SocketAddr, IpNet, v4_net, v6_net}
use secure_guard.Session.{TrafficStats}
use secure_guard.Peer.Manager.{PeerManager}

pub data PeerEvent : Type 0 where
  connected : List ℕ → SocketAddr → PeerEvent
  disconnected : List ℕ → String → PeerEvent
  added : List ℕ → List IpNet → PeerEvent
  removed : List ℕ → Bool → PeerEvent

pub data Effect : Type 0 where
  send_udp : List ℕ → SocketAddr → Effect
  write_tun : List ℕ → Effect
  notify : PeerEvent → Effect
  add_route remove_route : ℕ → ℕ → Effect

-- `shared_peers` is there in daemon mode, and then takes the place of `peers`.
pub record WireGuardServer : Type 0 where
  pub static_private : List ℕ
  pub static_public : List ℕ
  pub peers : PeerManager
  pub shared_peers : Option PeerManager
  pub has_event_channel : Bool
  pub traffic_stats : Option TrafficStats

-- The new state, what was asked of the outside, and the result.
abbrev pub Outcome : Type 0
Outcome = WireGuardServer × List Effect × Result (Unit {0}) MinnowVpnError

abbrev pub active_peers : WireGuardServer → PeerManager
active_peers s = elim s.shared_peers [ none ↦ s.peers | some m ↦ m ]

abbrev pub with_peers : WireGuardServer → PeerManager → WireGuardServer
with_peers s m = elim s.shared_peers [
  | none ↦ record s { peers = m }
  | some old ↦ record s { shared_peers = some m }
]

abbrev pub is_daemon : WireGuardServer → Bool
is_daemon s = elim s.shared_peers [ none ↦ false | some m ↦ true ]

-- `if let Some(ref stats) = self.traffic_stats`, which the code does in daemon mode only.
abbrev pub with_stats : WireGuardServer → (TrafficStats → TrafficStats) → WireGuardServer
with_stats s f =
    if is_daemon s
    then record s { traffic_stats = elim s.traffic_stats [ none ↦ none | some t ↦ some (f t) ] }
    else s

-- `tx.send`, whose failure is ignored.
abbrev pub event : WireGuardServer → PeerEvent → List Effect
event s e = if s.has_event_channel then notify e ∷ [] else []

-- Only v4 networks get a route.
unfoldable pub routes : (ℕ → ℕ → Effect) → List IpNet → List Effect
routes f [] = []
routes f (v4_net a n ∷ nets) = f a n ∷ routes f nets
routes f (v6_net a n ∷ nets) = routes f nets

-- The destination of an IPv4 packet, as a number.
unfoldable pub parse_ipv4_dest : List ℕ → Result ℕ MinnowVpnError
parse_ipv4_dest packet = do
  fail_if (ltb (length packet) 20) (protocol (invalid_message_length 20 (length packet)))
  let version = get_or packet 0 0 / 16
  fail_if (not (version == 4)) (protocol (invalid_message_type version))
  ok (
      get_or packet 16 0 * 16777216
      + get_or packet 17 0 * 65536
      + get_or packet 18 0 * 256
      + get_or packet 19 0)
