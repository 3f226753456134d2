-- ===== src/Daemon/Hosting.antt =====
-- src/daemon/routes.rs: the server that the daemon runs, and the handlers for its peers. The mode
-- and the server share the peers; the updates go through a channel, which the server's loop
-- empties. (A full channel only makes a handler wait.)
pub mod Peers
pub mod Strangers
pub mod Changes
use Prim.Native.String.{◌++◌ as append}
use secure_guard.Base.{
  ℕ, Bool, true, false, ◌==◌, if◌then◌else◌, List, [], ◌∷◌, ◌++◌, length, map, Option, none, some,
  String,
}
use secure_guard.Base.Result.{Result, ok, err, ◌>>=◌, ◌>>◌, ok_or, fail_if}
use secure_guard.Base.HashMap.{values}
use secure_guard.Error.{MinnowVpnError}
use secure_guard.Net.{SocketAddr, IpNet}
use secure_guard.Config.{WireGuardConfig}
use secure_guard.Config.Parser.{Syntax}
use secure_guard.Crypto.{Primitives}
use secure_guard.Session.{TrafficStats}
use secure_guard.Peer.{PeerState}
use secure_guard.Peer.Manager
use secure_guard.Server.{WireGuardServer, Outcome, active_peers}
use secure_guard.Server.Loop as Loop
use secure_guard.Server.Loop.{is_some}
use secure_guard.Server.Startup.{Request, Surroundings, new_with_channels}
use secure_guard.Daemon.{
  World, VpnMode, client, server, ApiError, Code, server_not_running, invalid_public_key,
  invalid_params, invalid_allowed_ips, internal_error, peer_not_found,
}
use mathlib.Core.Option

-- The server that `handle_start_server` makes: its peers are a new manager.
unfoldable pub start_server :
    Primitives
    → Surroundings
    → WireGuardConfig
    → TrafficStats
    → List Request × Result WireGuardServer MinnowVpnError
start_server p x config stats = new_with_channels p x config Manager.new stats

pub data PeerUpdate : Type 0 where
  add : List ℕ → Option (List ℕ) → List IpNet → PeerUpdate
  remove : List ℕ → PeerUpdate

-- The daemon with its server, the updates on their way, and whether the server still listens.
pub record Hosted : Type 0 where
  pub daemon : World
  pub server : WireGuardServer
  pub updates : List PeerUpdate
  pub listening : Bool

-- What the server's loop does with an update.
unfoldable pub take_update : WireGuardServer → PeerUpdate → Outcome
take_update s (add key psk ips) = Loop.handle_add_peer s key psk ips
take_update s (remove key) = Loop.handle_remove_peer s key

unfoldable pub take_updates : WireGuardServer → List PeerUpdate → WireGuardServer
take_updates s [] = s
take_updates s (update ∷ updates) = take_updates (take_update s update).0 updates

-- The server has taken what was on its way.
unfoldable pub settle : Hosted → Hosted
settle h = record h { server = take_updates h.server h.updates; updates = [] }

-- How values are written, and what the crate ipnet says of a text that is no network.
pub record Writing : Type 0 where
  pub encode_base64 : List ℕ → String
  pub write_net : IpNet → String
  pub write_addr : SocketAddr → String
  pub net_error : String → String

pub record PeerInfo : Type 0 where
  pub public_key : String
  pub endpoint : Option String
  pub allowed_ips : List String
  pub has_session : Bool
  pub last_handshake : Option String
  pub bytes_sent : ℕ
  pub bytes_received : ℕ

pub record AddPeerRequest : Type 0 where
  pub public_key : String
  pub allowed_ips : List String
  pub preshared_key : Option String

pub data Notification : Type 0 where
  peer_added : String → List String → Notification
  peer_removed : String → Bool → Notification

abbrev refusal {ℓ} : {A : Type ℓ} → Code → String → Result A ApiError
refusal code message = err (record { code = code; message = message })

-- Whether a server runs.
unfoldable pub check_server : World → Result (Unit {0}) ApiError
check_server w = elim w.state.mode [
  | none ↦ refusal server_not_running "Server not running"
  | some mode ↦ elim mode [
    | client ip endpoint current previous ↦ refusal server_not_running "Server not running"
    | server port address ↦ ok tt
  ]
]

-- What is told of a peer at the time `now`.
unfoldable pub peer_info : Writing → String → String → PeerState → PeerInfo
peer_info wr now public_key peer = record {
  public_key = public_key;
  endpoint = Option.map wr.write_addr peer.endpoint;
  allowed_ips = map wr.write_net peer.allowed_ips;
  has_session = is_some peer.session;
  last_handshake = Option.map (λ (at : ℕ). now) peer.last_handshake;
  bytes_sent = peer.traffic_stats.bytes_sent;
  bytes_received = peer.traffic_stats.bytes_received;
}

unfoldable pub handle_list_peers : Writing → String → Hosted → Result (List PeerInfo) ApiError
handle_list_peers wr now h = do
  check_server h.daemon
  ok (
      map (λ (peer : PeerState). peer_info wr now (wr.encode_base64 peer.public_key) peer)
        (values (active_peers h.server).peers))

-- 32 bytes in base64.
unfoldable pub decode_key : Syntax → Code → String → String → String → Result (List ℕ) ApiError
decode_key x code bad_format bad_length text = do
  bytes ← ok_or (x.decode_base64 text) (record { code = code; message = bad_format })
  if length bytes == 32 then ok bytes else refusal code bad_length

abbrev pub decode_public_key : Syntax → String → Result (List ℕ) ApiError
decode_public_key x text =
    decode_key x invalid_public_key "Invalid public key format" "Public key must be 32 bytes" text

abbrev pub decode_psk : Syntax → Option String → Result (Option (List ℕ)) ApiError
decode_psk x none = ok none
decode_psk x (some text) = do
  bytes ←
      decode_key x invalid_params "Invalid preshared key format" "Preshared key must be 32 bytes"
        text
  ok (some bytes)

-- The first that is no network is told.
unfoldable pub parse_allowed_ips : Syntax → Writing → List String → Result (List IpNet) ApiError
parse_allowed_ips x wr [] = ok []
parse_allowed_ips x wr (text ∷ texts) =
    let rest = parse_allowed_ips x wr texts in
    elim (x.parse_net text) [
      | none ↦ refusal invalid_allowed_ips (append "Invalid allowed IP: " (wr.net_error text))
      | some net ↦ elim rest [ err e ↦ err e | ok nets ↦ ok (net ∷ nets) ]
    ]

unfoldable pub handle_peer_status :
    Syntax → Writing → String → String → Hosted → Result PeerInfo ApiError
handle_peer_status x wr now public_key h = do
  check_server h.daemon
  key ← decode_public_key x public_key
  peer ←
      ok_or (Manager.get_peer (active_peers h.server) key)
        (record { code = peer_not_found; message = "Peer not found" })
  ok (peer_info wr now public_key peer)

-- `peer_update_tx.send`.
unfoldable pub send_update : PeerUpdate → Hosted → Result Hosted ApiError
send_update update h =
    if h.listening
    then ok (record h { updates = h.updates ++ update ∷ [] })
    else refusal internal_error "Failed to send peer update"

-- The checks of `handle_add_peer`, in their order.
unfoldable pub read_request :
    Syntax → Writing → AddPeerRequest → Hosted → Result PeerUpdate ApiError
read_request x wr request h = do
  check_server h.daemon
  key ← decode_public_key x request.public_key
  ips ← parse_allowed_ips x wr request.allowed_ips
  psk ← decode_psk x request.preshared_key
  ok (add key psk ips)

abbrev Answer : Type 0
Answer = Hosted × List Notification × Result String ApiError

-- Answers with the key of the peer.
unfoldable pub handle_add_peer : Syntax → Writing → AddPeerRequest → Hosted → Answer
handle_add_peer x wr request h =
    elim (do update ← read_request x wr request h; send_update update h) [
      | err e ↦ (h, [], err e)
      | ok h' ↦ (h', peer_added request.public_key request.allowed_ips ∷ [], ok request.public_key)
    ]

unfoldable pub was_connected : Option PeerState → Bool
was_connected none = false
was_connected (some peer) = is_some peer.session

-- Answers with the key of the peer and whether it had a session.
unfoldable pub handle_remove_peer :
    Syntax → String → Hosted → Hosted × List Notification × Result (String × Bool) ApiError
handle_remove_peer x public_key h =
    elim (do check_server h.daemon; decode_public_key x public_key) [
      | err e ↦ (h, [], err e)
      | ok key ↦
          let connected = was_connected (Manager.get_peer (active_peers h.server) key) in
          elim (send_update (remove key) h) [
            | err e ↦ (h, [], err e)
            | ok h' ↦ (h', peer_removed public_key connected ∷ [], ok (public_key, connected))
          ]
    ]
