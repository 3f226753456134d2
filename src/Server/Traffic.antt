-- ===== src/Server/Traffic.antt =====
-- src/server.rs: `handle_transport_packet` and `handle_tun_packet`.
pub mod Refused
pub mod Routed
pub mod Heard
use secure_guard.Base.{ℕ, Bool, if◌then◌else◌, List, [], ◌∷◌, length, none, some}
use secure_guard.Base.Result.{Result, ok, err, ◌>>=◌, map_err, ok_or}
use secure_guard.Error.{
  MinnowVpnError, protocol, network, invalid_sender_index, no_session, no_endpoint,
}
use secure_guard.Net.{SocketAddr, IpAddr, IpNet, addr_eq}
use secure_guard.Messages.Header
use secure_guard.Crypto.{Primitives}
use secure_guard.Transport
use secure_guard.Session.{Session, add_received, add_sent, mark_received, mark_sent}
use secure_guard.Session.Slots.{Place, at_current}
use secure_guard.Peer.{PeerState, find_session_by_index, current_session, set_session_at}
use secure_guard.Peer.Manager.{PeerManager}
use secure_guard.Peer.Manager
use secure_guard.Server.{
  WireGuardServer, send_udp, write_tun, Outcome, active_peers, with_peers, with_stats,
  parse_ipv4_dest,
}
use secure_guard.Server.Inputs.{Inputs, sent, written}

-- Roaming: the endpoint is written when it changed.
abbrev pub roam : PeerState → SocketAddr → PeerState
roam peer from = elim peer.endpoint [
  | none ↦ record peer { endpoint = some from }
  | some e ↦ if addr_eq e from then peer else record peer { endpoint = some from }
]

-- The session that a transport packet names, with its peer.
unfoldable pub locate :
    WireGuardServer → List ℕ → ℕ → Result ((List ℕ × PeerState) × (Place × Session)) MinnowVpnError
locate s packet now = do
  header ← map_err protocol (Header.from_bytes packet)
  found ←
      ok_or (Manager.find_by_index (active_peers s) header.receiver_index)
        (protocol (invalid_sender_index header.receiver_index))
  place ← ok_or (find_session_by_index found.1 header.receiver_index now) (protocol no_session)
  ok (found, place)

-- After the packet was decrypted to `plaintext`.
unfoldable pub accept_packet :
    WireGuardServer → List ℕ → PeerState → ℕ → SocketAddr → List ℕ → Inputs → Outcome
accept_packet s key peer size from plaintext inp =
    let counted = record peer { traffic_stats = add_received peer.traffic_stats size } in
    let s' =
      with_stats (with_peers s (Manager.set_peer (active_peers s) key (roam counted from)))
        (λ t. add_received t size) in
    elim plaintext [
      | [] ↦ (s', [], ok tt)
      | b ∷ bs ↦ (s', write_tun (b ∷ bs) ∷ [], written inp.write_error)
    ]

unfoldable pub handle_transport_packet :
    Primitives → WireGuardServer → List ℕ → SocketAddr → Inputs → Outcome
handle_transport_packet p s packet from inp = elim (locate s packet inp.now) [
  | err e ↦ (s, [], err e)
  | ok ((key, peer), (place, session)) ↦
      let (transport, opened) = Transport.decrypt p session.transport packet in
      let session' = record session { transport = transport } in
      elim opened [
        | err e ↦ (
          with_peers s (Manager.set_peer (active_peers s) key (set_session_at peer place session')),
          [],
          err e,
        )
        | ok plaintext ↦
            accept_packet s key (set_session_at peer place (mark_received session' inp.now))
              (length packet) from plaintext inp
      ]
]

-- The peer that the packet is routed to, its endpoint and its unexpired session.
unfoldable pub route_packet :
    (IpNet → IpAddr → Bool)
    → WireGuardServer
    → List ℕ
    → ℕ
    → Result (List ℕ × PeerState × SocketAddr × Session) MinnowVpnError
route_packet contains s packet now = do
  dest_ip ← parse_ipv4_dest packet
  found ← ok_or (Manager.find_by_allowed_ip contains (active_peers s) dest_ip) (network no_endpoint)
  endpoint ← ok_or found.1.endpoint (network no_endpoint)
  session ← ok_or (current_session found.1 now) (protocol no_session)
  ok (found.0, found.1, endpoint, session)

unfoldable pub handle_tun_packet :
    Primitives → (IpNet → IpAddr → Bool) → WireGuardServer → List ℕ → Inputs → Outcome
handle_tun_packet p contains s packet inp = elim (route_packet contains s packet inp.now) [
  | err e ↦ (s, [], err e)
  | ok (key, peer, endpoint, session) ↦
      let (transport, sealed) = Transport.encrypt p session.transport session.remote_index packet in
      let session' = record session { transport = transport } in
      elim sealed [
        | err e ↦ (
          with_peers s
              (Manager.set_peer (active_peers s) key (set_session_at peer at_current session')),
          [],
          err e,
        )
        | ok encrypted ↦
            let marked = set_session_at peer at_current (mark_sent session' inp.now) in
            let counted = record marked {
              traffic_stats = add_sent marked.traffic_stats (length encrypted);
            } in
            (
              with_stats (with_peers s (Manager.set_peer (active_peers s) key counted))
                  (λ t. add_sent t (length encrypted)),
              send_udp encrypted endpoint ∷ [],
              sent inp.send_error,
            )
      ]
]
