-- ===== src/Server/Traffic/Heard.antt =====
-- The server after it took a transport packet: the peer that sent it, and the routes to it.
use secure_guard.Base.{
  ℕ, Bool, List, [], ◌∷◌, length, false, some, ◌≡◌, refl, ap, ◌∙◌, inl, inr, Option-cases,
  Bool-cases, arith,
}
use secure_guard.Base.Result.{ok}
use secure_guard.Base.HashMap.{key_eq}
use secure_guard.Net.{SocketAddr, IpAddr, IpNet, addr_eq, addr_eq-eq}
use secure_guard.Crypto.{Primitives}
use secure_guard.Transport.{TransportState}
use secure_guard.Transport
use secure_guard.Session.{Session, is_expired, add_received, mark_received}
use secure_guard.Session.Slots.{at_current}
use secure_guard.Peer.{PeerState, set_session_at, current_session}
use secure_guard.Peer.Manager
use secure_guard.Peer.Manager.{PeerManager}
use secure_guard.Peer.Manager.Routing.{find_by_allowed_ip-insert}
use secure_guard.Server.{
  WireGuardServer, Outcome, active_peers, with_peers, with_stats, parse_ipv4_dest,
}
use secure_guard.Server.Inputs.{Inputs}
use secure_guard.Server.Invariant.{active-with_peers, active-with_stats}
use secure_guard.Server.Traffic.{roam, locate, accept_packet, route_packet, handle_transport_packet}

-- The session that decrypted a packet, and its peer, after the server accepted it.
abbrev pub heard_session : Session → TransportState → ℕ → Session
heard_session session transport now = mark_received (record session { transport = transport }) now

abbrev pub heard : PeerState → Session → TransportState → ℕ → ℕ → SocketAddr → PeerState
heard peer session transport size now from =
    let peer' = set_session_at peer at_current (heard_session session transport now) in
    roam (record peer' { traffic_stats = add_received peer'.traffic_stats size }) from

module _ (peer : PeerState) (session : Session) (transport : TransportState) (size now : ℕ)
    (from : SocketAddr) where
  pub heard-kept :
      ((heard peer session transport size now from).allowed_ips ≡ peer.allowed_ips)
      × ((heard peer session transport size now from).session
          ≡ some (heard_session session transport now))
  unfolding set_session_at
  heard-kept = elim (Option-cases peer.endpoint) [
    | inl e ↦ rw (e, heard) (refl, refl)
    | inr (old, e) ↦ elim (Bool-cases (addr_eq old from)) [
      | inl same ↦ ground arith
      | inr other ↦ ground arith
    ]
  ]

  heard-endpoint : (heard peer session transport size now from).endpoint ≡ some from
  unfolding set_session_at
  heard-endpoint = elim (Option-cases peer.endpoint) [
    | inl e ↦ ground arith
    | inr (old, e) ↦ elim (Bool-cases (addr_eq old from)) [
      | inl same ↦ ground (arith, addr_eq-eq old from)
      | inr other ↦ ground arith
    ]
  ]

counted-peers :
    (s : WireGuardServer) (size : ℕ) (m : PeerManager)
    → active_peers (with_stats (with_peers s m) (λ t. add_received t size)) ≡ m
counted-peers s size m =
    active-with_stats (with_peers s m) (λ t. add_received t size) ∙ active-with_peers s m

accept_packet-peers :
    (s : WireGuardServer) (key : List ℕ) (peer : PeerState) (size : ℕ) (from : SocketAddr)
    (plaintext : List ℕ) (inp : Inputs)
    → active_peers (accept_packet s key peer size from plaintext inp).0
      ≡ Manager.set_peer
          (active_peers s)
          key
          (roam (record peer { traffic_stats = add_received peer.traffic_stats size }) from)
unfolding accept_packet
accept_packet-peers s key peer size from [] inp = counted-peers s size (
    Manager.set_peer (active_peers s) key
      (roam (record peer { traffic_stats = add_received peer.traffic_stats size }) from))
accept_packet-peers s key peer size from (b ∷ bs) inp = counted-peers s size (
    Manager.set_peer (active_peers s) key
      (roam (record peer { traffic_stats = add_received peer.traffic_stats size }) from))

module _ (p : Primitives) (s : WireGuardServer) (packet : List ℕ) (from : SocketAddr) (inp : Inputs)
    (key : List ℕ) (peer : PeerState) (session : Session) (transport : TransportState) (b : ℕ)
    (bs : List ℕ) (located : locate s packet inp.now ≡ ok ((key, peer), (at_current, session)))
    (opened : Transport.decrypt p session.transport packet ≡ (transport, ok (b ∷ bs))) where
  abbrev pub sender : PeerState
  sender = heard peer session transport (length packet) inp.now from

  handle_transport_packet-eq :
      handle_transport_packet p s packet from inp
      ≡ accept_packet s key
          (set_session_at peer at_current (heard_session session transport inp.now))
          (length packet)
          from
          (b ∷ bs)
          inp
  unfolding handle_transport_packet
  handle_transport_packet-eq = rw (located, opened, handle_transport_packet, opened) refl

  -- The peer that sent the packet is written back.
  pub handle_transport_packet-peers :
      active_peers (handle_transport_packet p s packet from inp).0
      ≡ Manager.set_peer (active_peers s) key sender
  handle_transport_packet-peers =
      ap (λ (o : Outcome). active_peers o.0) handle_transport_packet-eq
      ∙ accept_packet-peers s key
          (set_session_at peer at_current (heard_session session transport inp.now)) (length packet)
          from (b ∷ bs) inp

  -- What was routed to the sender still is, and leaves for the address that the packet came from,
  -- in the session that decrypted it, while that lasts.
  pub route_packet-heard :
      (contains : IpNet → IpAddr → Bool) (text : List ℕ) (dest now : ℕ)
      → parse_ipv4_dest text ≡ ok dest
      → Manager.find_by_allowed_ip contains (active_peers s) dest ≡ some (key, peer)
      → is_expired (heard_session session transport inp.now) now ≡ false
      → route_packet contains (handle_transport_packet p s packet from inp).0 text now
        ≡ ok (key, sender, from, heard_session session transport inp.now)
  unfolding route_packet current_session Manager.set_peer
  route_packet-heard contains text dest now parsed routed live =
      let kept = heard-kept peer session transport (length packet) inp.now from in
      let found =
        find_by_allowed_ip-insert contains (active_peers s) dest key peer sender kept.0 routed in
      rw
        (
          parsed,
          handle_transport_packet-peers,
          found,
          heard-endpoint peer session transport (length packet) inp.now from,
          kept.1,
          live,
          route_packet,
        )
        refl
