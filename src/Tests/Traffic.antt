-- ===== src/Tests/Traffic.antt =====
-- A server with one session, and a packet that it has seen.
use secure_guard.Base.{
  ℕ, List, [], ◌∷◌, ◌++◌, ◌==◌, ==_iff, Bool, Bool-cases, inl, inr, subst, arith, true, false,
  replicate, none, some, ◌≡◌, refl, slice, bytes_eq,
}
use secure_guard.Base.Words.{to_le_bytes, from_le_bytes}
use secure_guard.Base.Result.{ok, err}
use secure_guard.Base.HashMap.{key_eq, nat_eq, get}
use secure_guard.Error.{protocol, replay_detected}
use secure_guard.Net.{SocketAddr, IpAddr, IpNet, v4, v4_net}
use secure_guard.Crypto
use secure_guard.Messages.{get_message_type, try_from}
use secure_guard.Messages.Header
use secure_guard.Replay
use secure_guard.Transport
use secure_guard.Session.{Session, no_traffic, is_expired, age}
use secure_guard.Session.Slots.{at_current, find_in}
use secure_guard.Peer.{PeerState, find_session_by_index, allows_ip, current_session}
use secure_guard.Peer.Manager
use secure_guard.Server.{WireGuardServer, Effect, send_udp, active_peers, parse_ipv4_dest}
use secure_guard.Server.Inputs.{Inputs}
use secure_guard.Server.Traffic.{locate, handle_transport_packet, route_packet, handle_tun_packet}
use secure_guard.Server.Traffic.Routed.{Routed, handle_tun_packet-Routed}
use secure_guard.Server.Invariant.Steps.{Steady}
use secure_guard.Peer.Manager.Registered.{IsConsistent}
use secure_guard.Server.Traffic.Refused.{handle_transport_packet_refused}
use secure_guard.Tests.Toy.{toy}

abbrev pub home : SocketAddr
home = record { ip = v4 3232235777; port = 51820 }

abbrev pub running : Session
running = record {
  local_index = 12;
  remote_index = 7;
  transport = record {
    sending_key = replicate 32 2;
    receiving_key = replicate 32 3;
    sending_counter = 4;
    replay_window = record { highest = 5; bitmap = 1 };
  };
  created_at = 0;
  last_sent = 0;
  last_received = 0;
  endpoint = home;
}

abbrev pub client : PeerState
client = record {
  public_key = replicate 32 1;
  psk = none;
  allowed_ips = v4_net 167772160 24 ∷ [];
  session = some running;
  previous_session = none;
  endpoint = some home;
  last_timestamp = none;
  traffic_stats = no_traffic;
  last_handshake = some 0;
}

abbrev pub busy_server : WireGuardServer
busy_server = record {
  static_private = replicate 32 2;
  static_public = replicate 32 2;
  peers = record {
    peers = (replicate 32 1, client) ∷ [];
    index_to_peer = (12, replicate 32 1) ∷ [];
  };
  shared_peers = none;
  has_event_channel = false;
  traffic_stats = none;
}

abbrev pub inputs : Inputs
inputs = record { now = 5; sender_index = 0; secret = []; send_error = none; write_error = none }

abbrev seen_packet : List ℕ
seen_packet = Header.build_message 12 5 (replicate 16 3)

is_located : locate busy_server seen_packet 5 ≡ ok ((replicate 32 1, client), (at_current, running))
unfolding locate Header.build_message Header.from_bytes to_le_bytes from_le_bytes slice
    get_message_type try_from Manager.find_by_index get bytes_eq find_session_by_index find_in
    is_expired age
is_located = refl

is_refused :
    (Transport.decrypt toy running.transport seen_packet).1 ≡ err (protocol (replay_detected 5))
unfolding Transport.decrypt Transport.decrypt_packet Transport.admit Header.build_message
    Header.from_bytes Header.payload to_le_bytes from_le_bytes slice get_message_type try_from
    Crypto.decrypt Crypto.nonce_bytes Replay.check_and_update Replay.look_back
is_refused = refl

handle_transport_packet_refused_example :
    handle_transport_packet toy busy_server seen_packet home inputs
    ≡ (busy_server, [], err (protocol (replay_detected 5)))
handle_transport_packet_refused_example =
    handle_transport_packet_refused toy busy_server seen_packet home inputs (replicate 32 1) client
      at_current running (protocol (replay_detected 5)) is_located is_refused

client_known : get (replicate 32 1) busy_server.peers.peers ≡ some client
unfolding get bytes_eq
client_known = refl

busy-IsConsistent : IsConsistent (active_peers busy_server)
unfolding get
busy-IsConsistent i k h = elim (Bool-cases (12 == i)) [
  | inl e ↦
      let k_is : replicate 32 1 ≡ k = ground arith in
      (
        client,
        running,
        subst (λ x. get x busy_server.peers.peers ≡ some client) k_is client_known,
        refl,
        (==_iff 12 i).0 e,
      )
  | inr e ↦ absurd (ground arith)
]

busy-Steady : Steady busy_server
unfolding get
busy-Steady = record { consistent = busy-IsConsistent; unique = (refl, tt) }

abbrev contains : IpNet → IpAddr → Bool
contains net ip = true

abbrev ipv4_packet : List ℕ
ipv4_packet = 69 ∷ replicate 15 0 ++ 10 ∷ 0 ∷ 0 ∷ 7 ∷ []

is_sent :
    (handle_tun_packet toy contains busy_server ipv4_packet inputs).1
    ≡ send_udp (Header.build_message 7 4 (ipv4_packet ++ replicate 16 2)) home ∷ []
unfolding handle_tun_packet route_packet parse_ipv4_dest Manager.find_by_allowed_ip
    Manager.find_allowed allows_ip current_session is_expired age Transport.encrypt
    Transport.encrypt_packet Crypto.encrypt Crypto.nonce_bytes
is_sent = refl

handle_tun_packet-Routed_example :
    (r : Routed toy contains busy_server ipv4_packet 5) × (sealed : List ℕ) × ((Transport.encrypt
        toy r.session.transport r.session.remote_index ipv4_packet).1
      ≡ ok sealed)
    × (◌≡◌ {A = List Effect}
        (send_udp (Header.build_message 7 4 (ipv4_packet ++ replicate 16 2)) home ∷ [])
        (send_udp sealed r.endpoint ∷ []))
handle_tun_packet-Routed_example =
    handle_tun_packet-Routed toy contains busy_server ipv4_packet inputs
      (send_udp (Header.build_message 7 4 (ipv4_packet ++ replicate 16 2)) home) [] busy-Steady
      is_sent
