-- ===== src/Server/Handshake/Answered.antt =====
-- What an answered initiation leaves behind.
use secure_guard.Base.{ℕ, List, none, some, ◌≡◌, refl, inl, inr, Option-cases, arith}
use secure_guard.Base.Result.{ok, Result-cases}
use secure_guard.Base.HashMap.{key_eq, nat_eq, get, insert, get-insert_self}
use secure_guard.Net.{SocketAddr}
use secure_guard.Crypto.{Primitives}
use secure_guard.Messages.Initiation
use secure_guard.Messages.Response.{HandshakeResponse}
use secure_guard.Handshake.{HandshakeResult, verify_initiation_mac1}
use secure_guard.Handshake.Responder
use secure_guard.Session
use secure_guard.Transport
use secure_guard.Session.{Session}
use secure_guard.Peer.{PeerState}
use secure_guard.Peer
use secure_guard.Peer.Manager.{PeerManager, forget}
use secure_guard.Peer.Manager
use secure_guard.Peer.Manager.Registered.{establish_session-eq}
use secure_guard.Peer.Manager.Index.{find_by_index-some}
use secure_guard.Server.{WireGuardServer, active_peers}
use secure_guard.Server.Inputs.{Inputs}
use secure_guard.Server.Invariant.{active-with_peers}
use secure_guard.Server.Handshake.{
  prepare_response, set_endpoint, enter_session, handle_handshake_initiation,
}

-- A response is prepared only for a known peer.
pub prepare_response-get :
    (p : Primitives) (s : WireGuardServer) (packet : List ℕ) (inp : Inputs) (key : List ℕ)
    (response : HandshakeResponse) (result : HandshakeResult)
    → prepare_response p s packet inp ≡ ok (key, response, result)
    → (peer : PeerState) × (get key (active_peers s).peers ≡ some peer)
unfolding prepare_response Manager.get_peer
prepare_response-get p s packet inp key response result h =
    elim (Result-cases (Initiation.from_bytes packet)) [
      | inr (f, e) ↦ absurd (ground arith)
      | inl (initiation, e) ↦
          elim (Result-cases (verify_initiation_mac1 p packet s.static_public)) [
            | inr (f, v) ↦ absurd (ground arith)
            | inl (done, v) ↦
                elim (Result-cases (
                  Responder.process_initiation p (Responder.new p s.static_private inp.sender_index)
                    initiation)) [
                      | inr (f, r) ↦ absurd (ground arith)
                      | inl ((responder, peer_public), r) ↦
                          elim (Option-cases (get peer_public (active_peers s).peers)) [
                            | inl g ↦ absurd (ground arith)
                            | inr (peer, g) ↦
                                elim (Result-cases (
                                  Responder.create_response p responder peer.psk inp.secret none)) [
                                    | inr (f, c) ↦ absurd (ground arith)
                                    | inl (made, c) ↦ (peer, ground arith)
                                  ]
                          ]
                    ]
          ]
    ]

abbrev pub entered : HandshakeResult → SocketAddr → ℕ → Session
entered result from now =
    Session.new result.local_index result.remote_index result.sending_key result.receiving_key from
      now

set_endpoint-eq :
    (m : PeerManager) (key : List ℕ) (from : SocketAddr) (peer : PeerState)
    → get key m.peers ≡ some peer
    → set_endpoint m key from ≡ record {
      peers = insert key (record peer { endpoint = some from }) m.peers;
      index_to_peer = m.index_to_peer;
    }
unfolding set_endpoint Manager.get_peer Manager.set_peer
set_endpoint-eq m key from peer e = rw (e, set_endpoint) refl

pub enter_session-eq :
    (m : PeerManager) (key : List ℕ) (result : HandshakeResult) (from : SocketAddr) (now : ℕ)
    (peer : PeerState)
    → get key m.peers ≡ some peer
    → let peer' = Peer.establish_session peer (entered result from now) now in
      enter_session m key result from now ≡ record {
        peers = insert key (record peer' { endpoint = some from }) (insert key peer' m.peers);
        index_to_peer =
            insert (entered result from now).local_index key (forget peer.session m.index_to_peer);
      }
unfolding enter_session
enter_session-eq m key result from now peer found =
    let peer' = Peer.establish_session peer (entered result from now) now in
    rw (establish_session-eq m key peer (entered result from now) now found)
      (set_endpoint-eq _ key from peer' (get-insert_self key peer' m.peers))

-- The entry of a peer after its initiation was answered: the index of the new session leads to
-- it, the session is the current one, new, and belongs to the handshake, and it is reached at
-- the address that the initiation came from.
pub record Entered (m : PeerManager) (key : List ℕ) (result : HandshakeResult) (from : SocketAddr)
    (now : ℕ) : Type 0 where
  pub peer : PeerState
  pub session : Session
  pub found : Manager.find_by_index m result.local_index ≡ some (key, peer)
  pub is_current : peer.session ≡ some session
  pub indices :
      (session.local_index ≡ result.local_index) × (session.remote_index ≡ result.remote_index)
  pub keys :
      (session.transport.sending_key ≡ result.sending_key)
      × (session.transport.receiving_key ≡ result.receiving_key)
  pub reached : peer.endpoint ≡ some from
  pub fresh : session ≡ entered result from now

enter_session-Entered :
    (m : PeerManager) (key : List ℕ) (result : HandshakeResult) (from : SocketAddr) (now : ℕ)
    (peer : PeerState)
    → get key m.peers ≡ some peer
    → Entered (enter_session m key result from now) key result from now
unfolding Session.new Peer.establish_session Transport.new
enter_session-Entered m key result from now peer found =
    let peer' = Peer.establish_session peer (entered result from now) now in
    rw (enter_session-eq m key result from now peer found) (record {
      peer = record peer' { endpoint = some from };
      session = entered result from now;
      found =
          find_by_index-some _ result.local_index key (record peer' { endpoint = some from })
            (get-insert_self result.local_index key (forget peer.session m.index_to_peer))
            (get-insert_self key (record peer' { endpoint = some from })
              (insert key peer' m.peers));
      is_current = refl;
      indices = (refl, refl);
      keys = (refl, refl);
      reached = refl;
      fresh = refl;
    })

-- An initiation for which a response is prepared and sent ends well, and enters the session of
-- the handshake under the peer that the initiation names: the new index leads to the peer, its
-- current session has the handshake's indices and keys, its endpoint is where the packet came
-- from.
pub handle_handshake_initiation-Entered :
    (p : Primitives) (s : WireGuardServer) (packet : List ℕ) (from : SocketAddr) (inp : Inputs)
    (key : List ℕ) (response : HandshakeResponse) (result : HandshakeResult)
    → prepare_response p s packet inp ≡ ok (key, response, result)
    → inp.send_error ≡ none
    → ((handle_handshake_initiation p s packet from inp).2 ≡ ok tt)
      × Entered
          (active_peers (handle_handshake_initiation p s packet from inp).0)
          key
          result
          from
          inp.now
unfolding handle_handshake_initiation
handle_handshake_initiation-Entered p s packet from inp key response result prepared sent =
    let (peer, found) = prepare_response-get p s packet inp key response result prepared in
    rw (prepared, sent, handle_handshake_initiation)
      (
        refl,
        rw (active-with_peers s (enter_session (active_peers s) key result from inp.now))
            (enter_session-Entered (active_peers s) key result from inp.now peer found),
      )
