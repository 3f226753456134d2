-- ===== src/Server/Traffic/Refused.antt =====
-- Transport packets that a session refuses.
use secure_guard.Base.{ℕ, List, [], some, ◌≡◌, refl, sym, inl, inr, Option-cases}
use secure_guard.Base.Result.{ok, err}
use secure_guard.Base.HashMap.{key_eq, nat_eq, get, insert-get}
use secure_guard.Error.{MinnowVpnError}
use secure_guard.Net.{SocketAddr}
use secure_guard.Crypto.{Primitives}
use secure_guard.Transport
use secure_guard.Transport.{TransportState}
use secure_guard.Transport.Delivery.{decrypt-eq-err}
use secure_guard.Session.{Session}
use secure_guard.Session.Slots.{Place, at_current, at_previous}
use secure_guard.Session.Slots.Found.{slot}
use secure_guard.Peer.{PeerState, set_session_at}
use secure_guard.Peer.Manager.{PeerManager}
use secure_guard.Peer.Manager
use secure_guard.Server.{WireGuardServer, active_peers, with_peers}
use secure_guard.Server.Inputs.{Inputs}
use secure_guard.Server.Invariant.Steps.{locate_sound}
use secure_guard.Server.Traffic.{locate, handle_transport_packet}

set_session_at-slot :
    (peer : PeerState) (place : Place) (session : Session)
    → slot peer.session peer.previous_session place ≡ some session
    → set_session_at peer place session ≡ peer
unfolding set_session_at
set_session_at-slot peer at_current session h = λ i. record peer { session = sym h i }
set_session_at-slot peer at_previous session h = λ i. record peer { previous_session = sym h i }

set_peer-get :
    (m : PeerManager) (key : List ℕ) (peer : PeerState)
    → get key m.peers ≡ some peer
    → Manager.set_peer m key peer ≡ m
unfolding Manager.set_peer
set_peer-get m key peer h = λ i. record m { peers = insert-get key peer m.peers h i }

with_peers-active_peers : (s : WireGuardServer) → with_peers s (active_peers s) ≡ s
with_peers-active_peers s = elim (Option-cases s.shared_peers) [
  | inl e ↦ rw e refl
  | inr (m, e) ↦ rw e refl
]

-- A transport packet that its session refuses, be it forged, cut short or a replay, changes
-- nothing in the server and has no effect: no statistics, no endpoint, nothing on the TUN device.
pub handle_transport_packet_refused :
    (p : Primitives) (s : WireGuardServer) (packet : List ℕ) (from : SocketAddr) (inp : Inputs)
    (key : List ℕ) (peer : PeerState) (place : Place) (session : Session) (e : MinnowVpnError)
    → locate s packet inp.now ≡ ok ((key, peer), (place, session))
    → (Transport.decrypt p session.transport packet).1 ≡ err e
    → handle_transport_packet p s packet from inp ≡ (s, [], err e)
unfolding handle_transport_packet
handle_transport_packet_refused p s packet from inp key peer place session e located refused =
    let (found, stood) = locate_sound s packet inp.now key peer place session located in
    let kept : (Transport.decrypt p session.transport packet).0 ≡ session.transport =
      decrypt-eq-err p session.transport packet refused in
    rw
      (
        located,
        refused,
        kept,
        handle_transport_packet,
        set_session_at-slot peer place session stood,
        set_peer-get (active_peers s) key peer found,
        with_peers-active_peers s,
      )
      refl
