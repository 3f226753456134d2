-- ===== src/Server/Invariant/Steps.antt =====
-- `IsRegistered` is kept by each handler, and so by each round of the event loop.
use secure_guard.Base.{
  ℕ, List, [], ◌∷◌, some, ◌≡◌, refl, ◌∙◌, inl, inr, Option-cases, Bool-cases, length, arith,
}
use secure_guard.Base.Result.{ok, Result-cases}
use secure_guard.Base.HashMap.{key_eq, nat_eq, get}
use secure_guard.Net.{SocketAddr, addr_eq}
use secure_guard.Crypto.{Primitives}
use secure_guard.Messages.Header
use secure_guard.Transport
use secure_guard.Session.{Session, mark_received, add_received}
use secure_guard.Session.Slots.{Place, at_current, at_previous}
use secure_guard.Session.Slots.Found.{slot, find_in_sound}
use secure_guard.Peer.{PeerState, find_session_by_index, set_session_at}
use secure_guard.Peer.Manager.{PeerManager}
use secure_guard.Peer.Manager
use secure_guard.Peer.Manager.Registered.{SameIndex}
use secure_guard.Peer.Manager.Index.{find_by_index-get}
use secure_guard.Server.{WireGuardServer, active_peers, with_peers, with_stats}
use secure_guard.Server.Inputs.{Inputs}
use secure_guard.Server.Handshake.{prepare_response, handle_handshake_initiation}
use secure_guard.Server.Traffic.{roam, locate, accept_packet, handle_transport_packet}
use secure_guard.Server.Invariant.{
  IsRegistered, active-with_peers, active-with_stats, set_peer-IsRegistered,
  enter_session-IsRegistered,
}

abbrev pub Steady : WireGuardServer → Type 0
Steady s = IsRegistered (active_peers s)

pub Steady-with_peers :
    (s : WireGuardServer) (m : PeerManager) → IsRegistered m → Steady (with_peers s m)
Steady-with_peers s m v = rw (active-with_peers s m) v

pub handle_handshake_initiation-Steady :
    (p : Primitives) (s : WireGuardServer) (packet : List ℕ) (from : SocketAddr) (inp : Inputs)
    → Steady s
    → Steady (handle_handshake_initiation p s packet from inp).0
unfolding handle_handshake_initiation
handle_handshake_initiation-Steady p s packet from inp v =
    elim (Result-cases (prepare_response p s packet inp)) [
      | inr (e, failed) ↦ rw (failed, handle_handshake_initiation) v
      | inl ((key, response, result), e) ↦ elim (Option-cases inp.send_error) [
        | inr (reason, unsent) ↦ rw (e, unsent, handle_handshake_initiation) v
        | inl sent ↦
            rw (e, sent, handle_handshake_initiation)
              (Steady-with_peers s _
                (enter_session-IsRegistered (active_peers s) key result from inp.now v))
      ]
    ]

-- What `locate` returns is in the maps.
pub locate_sound :
    (s : WireGuardServer) (packet : List ℕ) (now : ℕ) (key : List ℕ) (peer : PeerState)
    (place : Place) (session : Session)
    → locate s packet now ≡ ok ((key, peer), (place, session))
    → (get key (active_peers s).peers ≡ some peer)
      × (slot peer.session peer.previous_session place ≡ some session)
unfolding locate find_session_by_index
locate_sound s packet now key peer place session h =
    elim (Result-cases (Header.from_bytes packet)) [
      | inr (e, bad) ↦ absurd (ground arith)
      | inl (header, good) ↦
          let found : Manager.find_by_index (active_peers s) header.receiver_index
              ≡ some (key, peer) =
            ground arith in
          (
            (find_by_index-get (active_peers s) header.receiver_index key peer found).1,
            (find_in_sound peer.session peer.previous_session header.receiver_index now place
                session (ground arith)).0,
          )
    ]

-- Writing back a session with its index, wherever it stood.
pub set_session_at-SameIndex :
    (peer : PeerState) (place : Place) (session session' : Session)
    → slot peer.session peer.previous_session place ≡ some session
    → session'.local_index ≡ session.local_index
    → SameIndex peer (set_session_at peer place session')
unfolding set_session_at
set_session_at-SameIndex peer at_current session session' stood kept s h =
    (session', refl, ground arith)
set_session_at-SameIndex peer at_previous session session' stood kept s h = (s, h, refl)

roam_keeps : (peer : PeerState) (from : SocketAddr) → (roam peer from).session ≡ peer.session
roam_keeps peer from = elim (Option-cases peer.endpoint) [
  | inl e ↦ rw e refl
  | inr (old, e) ↦ elim (Bool-cases (addr_eq old from)) [
    | inl same ↦ rw (e, same) refl
    | inr other ↦ rw (e, other) refl
  ]
]

-- The current session is all that `SameIndex` looks at.
pub SameIndex-session :
    (old peer peer' : PeerState)
    → peer'.session ≡ peer.session
    → SameIndex old peer
    → SameIndex old peer'
SameIndex-session old peer peer' e same s h =
    let (s', has, index) = same s h in (s', e ∙ has, index)

accept_packet-Steady :
    (s : WireGuardServer) (key : List ℕ) (old peer : PeerState) (size : ℕ) (from : SocketAddr)
    (plaintext : List ℕ) (inp : Inputs)
    → get key (active_peers s).peers ≡ some old
    → SameIndex old peer
    → Steady s
    → Steady (accept_packet s key peer size from plaintext inp).0
unfolding accept_packet
accept_packet-Steady s key old peer size from plaintext inp found same v =
    let counted = record peer { traffic_stats = add_received peer.traffic_stats size } in
    let written : IsRegistered (Manager.set_peer (active_peers s) key (roam counted from)) =
      set_peer-IsRegistered (active_peers s) key old (roam counted from) found
        (SameIndex-session old peer (roam counted from) (roam_keeps counted from) same) v in
    let s' = with_peers s (Manager.set_peer (active_peers s) key (roam counted from)) in
    let kept : Steady (with_stats s' (λ t. add_received t size)) =
      rw (active-with_stats s' (λ t. add_received t size)) (Steady-with_peers s _ written) in
    elim plaintext as (λ text. Steady (accept_packet s key peer size from text inp).0) [
      | [] ↦ kept
      | b ∷ bs ↦ kept
    ]

pub handle_transport_packet-Steady :
    (p : Primitives) (s : WireGuardServer) (packet : List ℕ) (from : SocketAddr) (inp : Inputs)
    → Steady s
    → Steady (handle_transport_packet p s packet from inp).0
unfolding handle_transport_packet mark_received
handle_transport_packet-Steady p s packet from inp v =
    elim (Result-cases (locate s packet inp.now)) [
      | inr (e, failed) ↦ rw (failed, handle_transport_packet) v
      | inl (((key, peer), (place, session)), e) ↦
          let (found, stood) = locate_sound s packet inp.now key peer place session e in
          let session' = record session {
            transport = (Transport.decrypt p session.transport packet).0;
          } in
          elim (Result-cases (Transport.decrypt p session.transport packet).1) [
            | inr (refused, d) ↦
                rw (e, d, handle_transport_packet)
                  (Steady-with_peers s _ (
                    set_peer-IsRegistered (active_peers s) key peer
                      (set_session_at peer place session') found
                      (set_session_at-SameIndex peer place session session' stood refl) v))
            | inl (plaintext, d) ↦
                rw (e, d, handle_transport_packet)
                  (accept_packet-Steady s key peer
                    (set_session_at peer place (mark_received session' inp.now)) (length packet)
                    from plaintext inp found
                    (set_session_at-SameIndex peer place session (mark_received session' inp.now)
                      stood refl)
                    v)
          ]
    ]
