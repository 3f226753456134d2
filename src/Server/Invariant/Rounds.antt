-- ===== src/Server/Invariant/Rounds.antt =====
-- `IsRegistered` over the rounds of the event loop.
use secure_guard.Base.{
  ℕ, Bool, List, [], ◌∷◌, none, some, ◌≡◌, refl, inl, inr, Option-cases, length, arith,
}
use secure_guard.Base.Result.{ok, Result-cases}
use secure_guard.Base.HashMap.{key_eq, nat_eq, get}
use secure_guard.Net.{IpAddr, IpNet, SocketAddr}
use secure_guard.Crypto.{Primitives}
use secure_guard.Messages.{
  get_message_type, handshake_initiation, handshake_response, cookie_reply, transport_data,
}
use secure_guard.Transport
use secure_guard.Session.{Session, mark_sent, add_sent}
use secure_guard.Session.Slots.{at_current, unexpired}
use secure_guard.Session.Slots.Found.{unexpired-some}
use secure_guard.Peer.{PeerState, current_session, set_session_at}
use secure_guard.Peer.Manager.{PeerManager}
use secure_guard.Peer.Manager
use secure_guard.Peer.Manager.Routing.{find_by_allowed_ip-get}
use secure_guard.Server.{WireGuardServer, active_peers, with_peers, parse_ipv4_dest}
use secure_guard.Server.Inputs.{Inputs}
use secure_guard.Server.Traffic.{route_packet, handle_tun_packet}
use secure_guard.Server.Loop.{
  handle_udp_packet, handle_add_peer, handle_remove_peer, Event, tun_packet, udp_packet,
  add_request, remove_request, read_error, rekey_tick, step,
}
use secure_guard.Server.Invariant.{
  active-with_stats, set_peer-IsRegistered, add_peer-IsRegistered, remove_peer-IsRegistered,
}
use secure_guard.Server.Invariant.Steps.{
  Steady, Steady-with_peers, set_session_at-SameIndex, SameIndex-session,
  handle_handshake_initiation-Steady, handle_transport_packet-Steady,
}

-- What `route_packet` returns is in the maps.
pub route_packet_sound :
    (contains : IpNet → IpAddr → Bool) (s : WireGuardServer) (packet : List ℕ) (now : ℕ)
    (key : List ℕ) (peer : PeerState) (endpoint : SocketAddr) (session : Session)
    → Steady s
    → route_packet contains s packet now ≡ ok (key, peer, endpoint, session)
    → (get key (active_peers s).peers ≡ some peer) × (peer.session ≡ some session)
unfolding route_packet current_session
route_packet_sound contains s packet now key peer endpoint session v h =
    elim (Result-cases (parse_ipv4_dest packet)) [
      | inr (e, bad) ↦ absurd (ground arith)
      | inl (dest, good) ↦
          elim (Option-cases (Manager.find_by_allowed_ip contains (active_peers s) dest)) [
            | inl nobody ↦ absurd (ground arith)
            | inr ((k, found), e) ↦
                let whole : (k ≡ key)
                    × (found ≡ peer)
                    × (unexpired found.session now ≡ some session) =
                  ground arith in
                let at_k =
                  (find_by_allowed_ip-get contains (active_peers s) dest k found v.unique e).0 in
                let held = (unexpired-some found.session now session whole.2).0 in
                (ground arith, ground arith)
          ]
    ]

handle_tun_packet-Steady :
    (p : Primitives) (contains : IpNet → IpAddr → Bool) (s : WireGuardServer) (packet : List ℕ)
    (inp : Inputs)
    → Steady s
    → Steady (handle_tun_packet p contains s packet inp).0
unfolding handle_tun_packet mark_sent
handle_tun_packet-Steady p contains s packet inp v =
    elim (Result-cases (route_packet contains s packet inp.now)) [
      | inr (e, failed) ↦ rw (failed, handle_tun_packet) v
      | inl ((key, peer, endpoint, session), e) ↦
          let (found, held) =
            route_packet_sound contains s packet inp.now key peer endpoint session v e in
          let (transport, sealed) =
            Transport.encrypt p session.transport session.remote_index packet in
          let session' = record session { transport = transport } in
          elim (Result-cases sealed) [
            | inr (refused, d) ↦
                rw (e, d, handle_tun_packet)
                  (Steady-with_peers s _ (
                    set_peer-IsRegistered (active_peers s) key peer
                      (set_session_at peer at_current session') found
                      (set_session_at-SameIndex peer at_current session session' held refl) v))
            | inl (encrypted, d) ↦
                let marked = set_session_at peer at_current (mark_sent session' inp.now) in
                let counted : PeerState = record marked {
                  traffic_stats = add_sent marked.traffic_stats (length encrypted);
                } in
                let s' = with_peers s (Manager.set_peer (active_peers s) key counted) in
                rw
                  (
                    e,
                    d,
                    handle_tun_packet,
                    active-with_stats s' (λ t. add_sent t (length encrypted)),
                  )
                  (Steady-with_peers s _ (
                    set_peer-IsRegistered (active_peers s) key peer counted found
                      (SameIndex-session peer marked counted refl (
                        set_session_at-SameIndex peer at_current session
                          (mark_sent session' inp.now) held refl))
                      v))
          ]
    ]

handle_udp_packet-Steady :
    (p : Primitives) (s : WireGuardServer) (packet : List ℕ) (from : SocketAddr) (inp : Inputs)
    → Steady s
    → Steady (handle_udp_packet p s packet from inp).0
unfolding handle_udp_packet
handle_udp_packet-Steady p s [] from inp v = v
handle_udp_packet-Steady p s (b ∷ bs) from inp v = elim (Result-cases (get_message_type (b ∷ bs))) [
  | inr (e, bad) ↦ rw (bad, handle_udp_packet) v
  | inl (handshake_initiation, t) ↦
      rw (t, handle_udp_packet) (handle_handshake_initiation-Steady p s (b ∷ bs) from inp v)
  | inl (handshake_response, t) ↦ rw (t, handle_udp_packet) v
  | inl (cookie_reply, t) ↦ rw (t, handle_udp_packet) v
  | inl (transport_data, t) ↦
      rw (t, handle_udp_packet) (handle_transport_packet-Steady p s (b ∷ bs) from inp v)
]

handle_remove_peer-Steady :
    (s : WireGuardServer) (key : List ℕ) → Steady s → Steady (handle_remove_peer s key).0
unfolding handle_remove_peer
handle_remove_peer-Steady s key v =
    let gone = Steady-with_peers s _ (remove_peer-IsRegistered (active_peers s) key v) in
    elim (Option-cases (Manager.remove_peer (active_peers s) key).1) [
      | inl e ↦ rw (e, handle_remove_peer) gone
      | inr (peer, e) ↦ rw (e, handle_remove_peer) gone
    ]

-- A request to add a peer gives a key that the server does not have.
abbrev pub IsNew : WireGuardServer → Event → Type 0
IsNew s (tun_packet packet) = Unit
IsNew s (udp_packet packet from) = Unit
IsNew s (add_request key psk ips) = get key (active_peers s).peers ≡ none
IsNew s (remove_request key) = Unit
IsNew s read_error = Unit
IsNew s rekey_tick = Unit

-- Every round of the event loop keeps the peers registered: each peer has one entry, and each
-- index leads to a peer whose current session has that index. Whatever arrives, of whatever
-- content and from whatever address, provided that a peer is added under a new key only.
pub step-Steady :
    (p : Primitives) (contains : IpNet → IpAddr → Bool) (s : WireGuardServer) (e : Event)
    (inp : Inputs)
    → IsNew s e
    → Steady s
    → Steady (step p contains s e inp).0
unfolding step handle_add_peer
step-Steady p contains s (tun_packet packet) inp new v =
    handle_tun_packet-Steady p contains s packet inp v
step-Steady p contains s (udp_packet packet from) inp new v =
    handle_udp_packet-Steady p s packet from inp v
step-Steady p contains s (add_request key psk ips) inp new v =
    Steady-with_peers s _ (add_peer-IsRegistered (active_peers s) key psk ips new v)
step-Steady p contains s (remove_request key) inp new v = handle_remove_peer-Steady s key v
step-Steady p contains s read_error inp new v = v
step-Steady p contains s rekey_tick inp new v = v
