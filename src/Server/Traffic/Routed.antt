-- ===== src/Server/Traffic/Routed.antt =====
-- Where packets from the TUN device go.
use secure_guard.Base.{
  ℕ, Bool, true, false, List, [], ◌∷◌, some, ◌≡◌, refl, inl, inr, Option-cases, arith,
}
use secure_guard.Base.Result.{ok, Result-cases}
use secure_guard.Net.{IpAddr, IpNet, SocketAddr}
use secure_guard.Crypto.{Primitives}
use secure_guard.Transport
use secure_guard.Session.{Session, is_expired}
use secure_guard.Session.Slots.{unexpired}
use secure_guard.Session.Slots.Found.{unexpired-some}
use secure_guard.Peer.{PeerState, allows_ip, current_session}
use secure_guard.Peer.Manager
use secure_guard.Peer.Manager.Routing.{find_by_allowed_ip-get}
use secure_guard.Server.{WireGuardServer, Effect, send_udp, active_peers, parse_ipv4_dest}
use secure_guard.Server.Inputs.{Inputs}
use secure_guard.Server.Invariant.Steps.{Steady}
use secure_guard.Server.Traffic.{route_packet, handle_tun_packet}

-- A packet and where it goes: the peer under `key` may receive for the packet's destination, and
-- `sealed` is the packet encrypted in the peer's current session, which has not expired.
pub record Routed (p : Primitives) (contains : IpNet → IpAddr → Bool) (s : WireGuardServer)
    (packet : List ℕ) (now : ℕ) : Type 0 where
  pub dest : ℕ
  pub key : List ℕ
  pub peer : PeerState
  pub session : Session
  pub endpoint : SocketAddr
  pub destination : parse_ipv4_dest packet ≡ ok dest
  pub registered : Manager.get_peer (active_peers s) key ≡ some peer
  pub allowed : allows_ip contains peer dest ≡ true
  pub is_current : peer.session ≡ some session
  pub live : is_expired session now ≡ false
  pub reached : peer.endpoint ≡ some endpoint

route_packet-Routed :
    (p : Primitives) (contains : IpNet → IpAddr → Bool) (s : WireGuardServer) (packet : List ℕ)
    (now : ℕ) (key : List ℕ) (peer : PeerState) (endpoint : SocketAddr) (session : Session)
    → Steady s
    → route_packet contains s packet now ≡ ok (key, peer, endpoint, session)
    → (r : Routed p contains s packet now) × (r.session ≡ session) × (r.endpoint ≡ endpoint)
unfolding route_packet current_session Manager.get_peer
route_packet-Routed p contains s packet now key peer endpoint session v h =
    elim (Result-cases (parse_ipv4_dest packet)) [
      | inr (e, bad) ↦ absurd (ground arith)
      | inl (dest, good) ↦
          elim (Option-cases (Manager.find_by_allowed_ip contains (active_peers s) dest)) [
            | inl nobody ↦ absurd (ground arith)
            | inr ((k, found), e) ↦
                let entry =
                  find_by_allowed_ip-get contains (active_peers s) dest k found v.unique e in
                let held : unexpired found.session now ≡ some session = ground arith in
                let alive = unexpired-some found.session now session held in
                (
                  record {
                    dest = dest;
                    key = k;
                    peer = found;
                    session = session;
                    endpoint = endpoint;
                    destination = good;
                    registered = entry.0;
                    allowed = entry.1;
                    is_current = alive.0;
                    live = alive.1;
                    reached = ground arith;
                  },
                  refl,
                  refl,
                )
          ]
    ]

-- Cryptokey routing: whatever leaves the server for a packet from the TUN device is one datagram,
-- the packet encrypted in the unexpired current session of a peer that is allowed the packet's
-- destination, sent to that peer's endpoint. The peers are those of a consistent server.
pub handle_tun_packet-Routed :
    (p : Primitives) (contains : IpNet → IpAddr → Bool) (s : WireGuardServer) (packet : List ℕ)
    (inp : Inputs) (e : Effect) (es : List Effect)
    → Steady s
    → (handle_tun_packet p contains s packet inp).1 ≡ e ∷ es
    → (r : Routed p contains s packet inp.now) × (sealed : List ℕ) × ((Transport.encrypt p
          r.session.transport r.session.remote_index packet).1
        ≡ ok sealed)
      × (◌≡◌ {A = List Effect} (e ∷ es) (send_udp sealed r.endpoint ∷ []))
unfolding handle_tun_packet
handle_tun_packet-Routed p contains s packet inp e es v h =
    elim (Result-cases (route_packet contains s packet inp.now)) [
      | inr (f, failed) ↦ absurd (ground arith)
      | inl ((key, peer, endpoint, session), routed) ↦
          let (r, same, there) =
            route_packet-Routed p contains s packet inp.now key peer endpoint session v routed in
          elim (Result-cases
            (Transport.encrypt p session.transport session.remote_index packet).1) [
              | inr (f, refused) ↦ absurd (ground arith)
              | inl (sealed, done) ↦ (r, sealed, rw same done, rw there (ground arith))
            ]
    ]
