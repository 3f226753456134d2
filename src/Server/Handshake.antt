-- ===== src/Server/Handshake.antt =====
-- src/server.rs: `handle_handshake_initiation`.
pub mod Repeated
pub mod Replayed
pub mod Answered
pub mod Reachable
use secure_guard.Base.{ℕ, if◌then◌else◌, List, [], ◌∷◌, none, some}
use secure_guard.Base.Result.{Result, ok, err, ◌>>=◌, ◌>>◌, map_err, ok_or}
use secure_guard.Error.{MinnowVpnError, protocol, network, invalid_sender_index, send_failed}
use secure_guard.Net.{SocketAddr}
use secure_guard.Messages.Initiation
use secure_guard.Messages.Response
use secure_guard.Messages.Response.{HandshakeResponse}
use secure_guard.Crypto.{Primitives}
use secure_guard.Handshake.{HandshakeResult, verify_initiation_mac1}
use secure_guard.Handshake.Responder
use secure_guard.Session
use secure_guard.Session.{Session, add_received, add_sent, mark_received, mark_sent}
use secure_guard.Peer.Manager.{PeerManager}
use secure_guard.Peer.Manager
use secure_guard.Server.{
  WireGuardServer, send_udp, connected, Outcome, active_peers, with_peers, is_daemon, event,
}
use secure_guard.Server.Inputs.{Inputs}

-- Steps 1 to 4 of `handle_handshake_initiation`, the lookup of the peer and the response, none
-- of which changes the server.
unfoldable pub prepare_response :
    Primitives
    → WireGuardServer
    → List ℕ
    → Inputs
    → Result (List ℕ × HandshakeResponse × HandshakeResult) MinnowVpnError
prepare_response p s packet inp = do
  initiation ← map_err protocol (Initiation.from_bytes packet)
  verify_initiation_mac1 p packet s.static_public
  let responder = Responder.new p s.static_private inp.sender_index
  (responder', peer_public) ← Responder.process_initiation p responder initiation
  peer ←
      ok_or (Manager.get_peer (active_peers s) peer_public)
        (protocol (invalid_sender_index initiation.sender_index))
  (done, response, result) ← Responder.create_response p responder' peer.psk inp.secret none
  ok (peer_public, response, result)

-- `if let Some(peer) = peers.get_peer_mut(..) { peer.endpoint = Some(from) }`.
unfoldable pub set_endpoint : PeerManager → List ℕ → SocketAddr → PeerManager
set_endpoint m key from = elim (Manager.get_peer m key) [
  | none ↦ m
  | some peer ↦ Manager.set_peer m key (record peer { endpoint = some from })
]

-- The session that a handshake result makes, entered under the peer.
unfoldable pub enter_session : PeerManager → List ℕ → HandshakeResult → SocketAddr → ℕ → PeerManager
enter_session m key result from now =
    let session =
      Session.new result.local_index result.remote_index result.sending_key result.receiving_key
        from now in
    set_endpoint (Manager.establish_session m key session now) key from

unfoldable pub handle_handshake_initiation :
    Primitives → WireGuardServer → List ℕ → SocketAddr → Inputs → Outcome
handle_handshake_initiation p s packet from inp = elim (prepare_response p s packet inp) [
  | err e ↦ (s, [], err e)
  | ok (key, response, result) ↦
      let reply = send_udp (Response.to_bytes response) from in
      elim inp.send_error [
        | some reason ↦ (s, reply ∷ [], err (network (send_failed reason)))
        | none ↦ (
          with_peers s (enter_session (active_peers s) key result from inp.now),
          reply ∷ (if is_daemon s then event s (connected key from) else []),
          ok tt,
        )
      ]
]
