-- ===== src/Server/Handshake/Repeated.antt =====
-- Initiations that come again.
use secure_guard.Base.{
  ℕ, List, Option, none, some, ◌≡◌, refl, sym, ◌∙◌, inl, inr, Option-cases, bytes_eq_iff, arith,
}
use secure_guard.Base.Result.{Result, ok, ◌>>=◌, ◌>>◌, map_err, ok_or, Result-cases}
use mathlib.Core.Path.{fun_ext}
use secure_guard.Error.{MinnowVpnError, protocol, invalid_sender_index}
use secure_guard.Server.Invariant.{active-with_peers}
use secure_guard.Base.HashMap.{key_eq, nat_eq, get, get-insert}
use secure_guard.Net.{SocketAddr}
use secure_guard.Crypto.{Primitives}
use secure_guard.Messages.Initiation
use secure_guard.Messages.Response.{HandshakeResponse}
use secure_guard.Handshake.{HandshakeResult, verify_initiation_mac1}
use secure_guard.Handshake.Responder
use secure_guard.Session.{Session}
use secure_guard.Peer.{PeerState}
use secure_guard.Peer
use secure_guard.Peer.Manager.{PeerManager}
use secure_guard.Peer.Manager
use secure_guard.Server.{WireGuardServer, active_peers, with_peers}
use secure_guard.Server.Inputs.{Inputs}
use secure_guard.Server.Handshake.{
  prepare_response, set_endpoint, enter_session, handle_handshake_initiation,
}

abbrev pub psk_of : Option PeerState → Option (Option (List ℕ))
psk_of none = none
psk_of (some peer) = some peer.psk

-- The same peers with the same pre-shared keys.
abbrev pub SamePsks : PeerManager → PeerManager → Type 0
SamePsks m m' = (k : List ℕ) → psk_of (get k m'.peers) ≡ psk_of (get k m.peers)

set_peer-SamePsks :
    (m : PeerManager) (key : List ℕ) (old peer : PeerState)
    → get key m.peers ≡ some old
    → peer.psk ≡ old.psk
    → SamePsks m (Manager.set_peer m key peer)
unfolding Manager.set_peer
set_peer-SamePsks m key old peer found same k =
    ground (arith, get-insert key k peer m.peers, bytes_eq_iff key k)

set_endpoint-SamePsks :
    (m : PeerManager) (key : List ℕ) (from : SocketAddr) → SamePsks m (set_endpoint m key from)
unfolding set_endpoint Manager.get_peer
set_endpoint-SamePsks m key from k = elim (Option-cases (get key m.peers)) [
  | inl e ↦ rw (e, set_endpoint) refl
  | inr (peer, e) ↦
      rw (e, set_endpoint)
        (set_peer-SamePsks m key peer (record peer { endpoint = some from }) e refl k)
]

establish_session-SamePsks :
    (m : PeerManager) (key : List ℕ) (session : Session) (now : ℕ)
    → SamePsks m (Manager.establish_session m key session now)
unfolding Manager.establish_session Peer.establish_session
establish_session-SamePsks m key session now k = elim (Option-cases (get key m.peers)) [
  | inl e ↦ rw (e, Manager.establish_session) refl
  | inr (peer, e) ↦
      rw (e, Manager.establish_session)
        (ground (
          arith,
          e,
          bytes_eq_iff key k,
          get-insert key k (Peer.establish_session peer session now) m.peers,
        ))
]

enter_session-SamePsks :
    (m : PeerManager) (key : List ℕ) (result : HandshakeResult) (from : SocketAddr) (now : ℕ)
    → SamePsks m (enter_session m key result from now)
unfolding enter_session
enter_session-SamePsks m key result from now k =
    set_endpoint-SamePsks _ key from k ∙ establish_session-SamePsks m key _ now k

-- The answer to an initiation as a function of the server's keys and the pre-shared keys.
pub answer :
    Primitives
    → (private public : List ℕ) → (List ℕ → Option (Option (List ℕ)))
    → List ℕ
    → Inputs
    → Result (List ℕ × HandshakeResponse × HandshakeResult) MinnowVpnError
answer p private public psks packet inp = do
  initiation ← map_err protocol (Initiation.from_bytes packet)
  verify_initiation_mac1 p packet public
  (responder, peer_public) ←
      Responder.process_initiation p (Responder.new p private inp.sender_index) initiation
  psk ← ok_or (psks peer_public) (protocol (invalid_sender_index initiation.sender_index))
  (done, response, result) ← Responder.create_response p responder psk inp.secret none
  ok (peer_public, response, result)

prepare_response-eq-answer :
    (p : Primitives) (s : WireGuardServer) (packet : List ℕ) (inp : Inputs)
    → prepare_response p s packet inp
      ≡ answer p s.static_private s.static_public
          (λ k. psk_of (get k (active_peers s).peers))
          packet
          inp
unfolding prepare_response answer Manager.get_peer
prepare_response-eq-answer p s packet inp = elim (Result-cases (Initiation.from_bytes packet)) [
  | inr (f, e) ↦ rw (e, prepare_response, answer) refl
  | inl (initiation, e) ↦ elim (Result-cases (verify_initiation_mac1 p packet s.static_public)) [
    | inr (f, v) ↦ rw (e, v, prepare_response, answer) refl
    | inl (done, v) ↦
        elim (Result-cases (
          Responder.process_initiation p (Responder.new p s.static_private inp.sender_index)
            initiation)) [
              | inr (f, r) ↦ rw (e, v, r, prepare_response, answer) refl
              | inl ((responder, peer_public), r) ↦
                  elim (Option-cases (get peer_public (active_peers s).peers)) [
                    | inl g ↦ rw (e, v, r, g, prepare_response, answer) refl
                    | inr (peer, g) ↦ rw (e, v, r, g, prepare_response, answer) refl
                  ]
            ]
  ]
]

static_private-with_peers :
    (s : WireGuardServer) (m : PeerManager) → (with_peers s m).static_private ≡ s.static_private
static_private-with_peers s m = ground arith

static_public-with_peers :
    (s : WireGuardServer) (m : PeerManager) → (with_peers s m).static_public ≡ s.static_public
static_public-with_peers s m = ground arith

prepare_response-with_peers :
    (p : Primitives) (s : WireGuardServer) (m : PeerManager) (packet : List ℕ) (inp : Inputs)
    → SamePsks (active_peers s) m
    → prepare_response p (with_peers s m) packet inp ≡ prepare_response p s packet inp
prepare_response-with_peers p s m packet inp same =
    prepare_response-eq-answer p (with_peers s m) packet inp
    ∙ rw
        (
          static_private-with_peers s m,
          static_public-with_peers s m,
          active-with_peers s m,
          fun_ext same,
        )
        (sym (prepare_response-eq-answer p s packet inp))

-- Handling an initiation changes nothing that the answer to an initiation rests on: whatever
-- was handled, each initiation afterwards (so also the same one, recorded and sent again) is
-- prepared the answer that it would have got before.
pub prepare_response-handle_handshake_initiation :
    (p : Primitives) (s : WireGuardServer) (packet : List ℕ) (from : SocketAddr) (inp : Inputs)
    (later : List ℕ) (inp' : Inputs)
    → prepare_response p (handle_handshake_initiation p s packet from inp).0 later inp'
      ≡ prepare_response p s later inp'
unfolding handle_handshake_initiation
prepare_response-handle_handshake_initiation p s packet from inp later inp' =
    elim (Result-cases (prepare_response p s packet inp)) [
      | inr (e, failed) ↦ rw (failed, handle_handshake_initiation) refl
      | inl ((key, response, result), e) ↦ elim (Option-cases inp.send_error) [
        | inr (reason, unsent) ↦ rw (e, unsent, handle_handshake_initiation) refl
        | inl sent ↦
            rw (e, sent, handle_handshake_initiation)
              (prepare_response-with_peers p s _ later inp'
                (enter_session-SamePsks (active_peers s) key result from inp.now))
      ]
    ]
