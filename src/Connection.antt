-- ===== src/Connection.antt =====
-- How the client (src/client.rs) and the server (src/server.rs) meet: a turn of the client's
-- `perform_handshake` against the server's `handle_handshake_initiation`.
pub mod Datagrams
pub mod Delivery
pub mod FirstPacket
pub mod Return
pub mod Stream
use secure_guard.Base.{
  ℕ, ◌<◌, ◌^◌, List, [], ◌∷◌, length, none, some, ◌≡◌, refl, ap, ◌∙◌, if◌then◌else◌,
}
use secure_guard.Base.Result.{Result, ok}
use secure_guard.Net.{SocketAddr}
use secure_guard.Messages.{get_message_type, try_from, handshake_response}
use secure_guard.Messages.Initiation
use secure_guard.Messages.Response
use secure_guard.Messages.Response.{HandshakeResponse}
use secure_guard.Crypto.{Primitives, PrimitiveLaws, public_key}
use secure_guard.Handshake.{HandshakeResult, verify_initiation_mac1}
use secure_guard.Handshake.Initiator.{InitiatorHandshake}
use secure_guard.Handshake.Initiator
use secure_guard.Handshake.Responder.{ResponderHandshake}
use secure_guard.Handshake.Responder
use secure_guard.Handshake.Parties.{Parties}
use secure_guard.Handshake.FirstHalf
use secure_guard.Handshake.SecondHalf
use secure_guard.Session.Manager as SessionManager
use secure_guard.Cookie.{get_cookie}
use secure_guard.Peer.{PeerState}
use secure_guard.Peer.Manager
use secure_guard.Server.{WireGuardServer, active_peers}
use secure_guard.Server as Server
use secure_guard.Server.Inputs.{Inputs}
use secure_guard.Server.Handshake.{prepare_response, handle_handshake_initiation}
use secure_guard.Server.Handshake.Answered.{Entered, handle_handshake_initiation-Entered}
use secure_guard.Client.{WireGuardClient, send_udp}
use secure_guard.Client.Handshake.{
  Turn, Verdict, Ended, arrives, complete, begin_handshake, finish_handshake, check_response,
  take_response, process_handshake_packet, await_answer, turn, perform_handshake,
}
use secure_guard.Connection.Datagrams.{initiation_accepted, response_accepted}

-- The client and the server are configured for each other: the client has the server's public
-- key, the server lists the client's, with the client's pre-shared key.
pub record Acquainted (p : Primitives) (c : WireGuardClient) (s : WireGuardServer) : Type 0 where
  pub peer : PeerState
  pub own_key : s.static_public ≡ p.derive_public s.static_private
  pub server_key : c.peer.public_key ≡ p.derive_public s.static_private
  pub known :
      Manager.get_peer (active_peers s) (p.derive_public c.config.interface.private_key) ≡ some peer
  pub same_psk : peer.psk ≡ c.config.interface.preshared_key

-- The indices are u32s, and the time stamp has its twelve bytes.
pub record Fits (t : Turn) (inp : Inputs) : Type 0 where
  pub client_index : t.sender_index < 2 ^ 32
  pub server_index : inp.sender_index < 2 ^ 32
  pub timestamp : length t.timestamp ≡ 12

-- The turn in which `reply` comes back from the address `home`.
abbrev pub answered_by : Turn → List ℕ → SocketAddr → Turn
answered_by t reply home = record t { send_error = none; answer = arrives reply home }

-- The client's handshake meets the server: the client sends `datagram`; the server, which gets
-- it from the address `from`, sends `reply` there and enters the session under the client's
-- key; and with that reply the client's `perform_handshake` ends well, whatever turns would
-- come after, in the session of a result that mirrors the server's.
pub record Connects (p : Primitives) (c : WireGuardClient) (t : Turn) (s : WireGuardServer)
    (inp : Inputs) (from home : SocketAddr) (later : List Turn) : Type 0 where
  pub waiting : WireGuardClient
  pub datagram : List ℕ
  pub reply : List ℕ
  pub more : List Server.Effect
  pub at_client : HandshakeResult
  pub at_server : HandshakeResult
  pub begun : begin_handshake p c t ≡ ok (waiting, datagram)
  pub replied :
      (handle_handshake_initiation p s datagram from inp).1 ≡ Server.send_udp reply from ∷ more
  pub handled : (handle_handshake_initiation p s datagram from inp).2 ≡ ok tt
  pub entered :
      Entered
        (active_peers (handle_handshake_initiation p s datagram from inp).0)
        (p.derive_public c.config.interface.private_key)
        at_server
        from
        inp.now
  pub completed : perform_handshake p c (answered_by t reply home ∷ later) ≡ (
    finish_handshake waiting at_client home t.later,
    send_udp datagram c.peer_endpoint ∷ [],
    some (ok tt),
  )
  pub sending : at_client.sending_key ≡ at_server.receiving_key
  pub receiving : at_client.receiving_key ≡ at_server.sending_key
  pub client_index :
      (at_client.local_index ≡ t.sender_index) × (at_server.remote_index ≡ t.sender_index)
  pub server_index :
      (at_server.local_index ≡ inp.sender_index) × (at_client.remote_index ≡ inp.sender_index)

get_message_type-to_bytes :
    (m : HandshakeResponse) → get_message_type (Response.to_bytes m) ≡ ok handshake_response
unfolding Response.to_bytes get_message_type try_from
get_message_type-to_bytes m = refl

perform_handshake_complete :
    (p : Primitives) (c : WireGuardClient) (t : Turn) (later : List Turn) (done : Ended Verdict)
    → turn p c t ≡ done
    → done.result ≡ ok complete
    → perform_handshake p c (t ∷ later) ≡ (done.client, done.effects, some (ok tt))
unfolding perform_handshake
perform_handshake_complete p c t later done e f =
    let f' : (turn p c t).result ≡ ok complete = ap (λ d. d.result) e ∙ f in
    rw (f', perform_handshake) (ap (λ d. (d.client, d.effects, some (ok tt))) e)

module _ (p : Primitives) (laws : PrimitiveLaws p) (c : WireGuardClient) (t : Turn)
    (s : WireGuardServer) (inp : Inputs) (meet : Acquainted p c s) (fits : Fits t inp) where
  abbrev pub parties : Parties
  parties = record {
    initiator_static = c.config.interface.private_key;
    responder_static = s.static_private;
    psk = c.config.interface.preshared_key;
    initiator_index = t.sender_index;
    responder_index = inp.sender_index;
    initiator_ephemeral = t.secret;
    responder_ephemeral = inp.secret;
    timestamp = t.timestamp;
    initiator_cookie = get_cookie c.cookie_state t.now;
    responder_cookie = none;
  }

  abbrev pub initiator : InitiatorHandshake
  initiator = FirstHalf.after_i p laws parties fits.timestamp

  abbrev pub responder : ResponderHandshake
  responder = FirstHalf.after_r p laws parties fits.timestamp

  abbrev pub response : HandshakeResponse
  response = SecondHalf.response p laws parties initiator responder

  abbrev pub result_i : HandshakeResult
  result_i = SecondHalf.result_i p laws parties initiator responder

  abbrev pub result_r : HandshakeResult
  result_r = SecondHalf.result_r p laws parties initiator responder

  abbrev pub datagram : List ℕ
  datagram = Initiation.to_bytes (FirstHalf.message p laws parties fits.timestamp)

  abbrev pub waiting : WireGuardClient
  waiting = record c {
    last_mac1 = (FirstHalf.message p laws parties fits.timestamp).mac1;
    pending_handshake = some initiator;
    sessions = SessionManager.start_handshake c.sessions t.sender_index t.now;
  }

  pub begin_handshake-eq : begin_handshake p c t ≡ ok (waiting, datagram)
  unfolding begin_handshake
  begin_handshake-eq =
      rw (meet.server_key, FirstHalf.created p laws parties fits.timestamp, begin_handshake) refl

  responded :
      Responder.create_response p responder c.config.interface.preshared_key inp.secret none
      ≡ ok (SecondHalf.final_r p laws parties initiator responder, response, result_r)
  unfolding Initiator.new Responder.new
  responded = SecondHalf.responded p laws parties initiator responder

  pub prepare_response-eq :
      prepare_response p s datagram inp
      ≡ ok (p.derive_public c.config.interface.private_key, response, result_r)
  unfolding prepare_response
  prepare_response-eq =
      let (parsed, verified) =
        initiation_accepted p laws parties fits.timestamp fits.client_index in
      let verified' : verify_initiation_mac1 p datagram s.static_public ≡ ok tt =
        rw meet.own_key verified in
      rw
        (
          parsed,
          verified',
          FirstHalf.processed p laws parties fits.timestamp,
          meet.known,
          meet.same_psk,
          responded,
          prepare_response,
        )
        refl

  check_response-eq : check_response p waiting (Response.to_bytes response) ≡ ok response
  unfolding check_response public_key Initiator.new Responder.new
  check_response-eq =
      let (parsed, verified) =
        response_accepted p laws parties initiator responder fits.client_index fits.server_index in
      rw (parsed, verified, check_response) refl

  finished :
      Initiator.process_response p initiator response
      ≡ ok (SecondHalf.final_i p laws parties initiator responder, result_i)
  unfolding Initiator.new
  finished = SecondHalf.finished p laws parties initiator responder

  process_handshake_packet-eq :
      (home : SocketAddr)
      → process_handshake_packet p waiting (Response.to_bytes response) home t.later
        ≡ (finish_handshake waiting result_i home t.later, ok complete)
  unfolding process_handshake_packet take_response
  process_handshake_packet-eq home =
      rw
        (
          get_message_type-to_bytes response,
          check_response-eq,
          finished,
          process_handshake_packet,
          take_response,
        )
        refl

  begin_handshake-answered_by :
      (reply : List ℕ) (home : SocketAddr)
      → begin_handshake p c (answered_by t reply home) ≡ ok (waiting, datagram)
  unfolding begin_handshake
  begin_handshake-answered_by reply home = begin_handshake-eq

  turn-eq :
      (home : SocketAddr)
      → turn p c (answered_by t (Response.to_bytes response) home) ≡ record {
        client = finish_handshake waiting result_i home t.later;
        effects = send_udp datagram c.peer_endpoint ∷ [];
        result = ok complete;
      }
  unfolding turn await_answer
  turn-eq home =
      let e = begin_handshake-answered_by (Response.to_bytes response) home in
      rw (e, turn) (rw (process_handshake_packet-eq home) refl)

  -- A client and a server that are configured for each other connect in one turn of
  -- `perform_handshake`, whatever the random values, the indices, the pre-shared key, the cookie,
  -- and the sessions that either had before: the server accepts the client's datagram and enters
  -- the session, and the client accepts the server's reply and enters the mirrored one, if the
  -- primitives keep their laws, both datagrams arrive and sending does not fail.
  pub perform_handshake-Connects :
      (from home : SocketAddr) (later : List Turn)
      → inp.send_error ≡ none
      → Connects p c t s inp from home later
  unfolding handle_handshake_initiation Initiator.new Responder.new
  perform_handshake-Connects from home later sent =
      let (handled, entered) =
        handle_handshake_initiation-Entered p s datagram from inp
          (p.derive_public c.config.interface.private_key) response result_r prepare_response-eq
          sent in
      let (sending, receiving) = SecondHalf.mirrored p laws parties initiator responder in
      record {
        waiting = waiting;
        datagram = datagram;
        reply = Response.to_bytes response;
        more =
            if Server.is_daemon s
            then Server.event s
                (Server.connected (p.derive_public c.config.interface.private_key) from)
            else [];
        at_client = result_i;
        at_server = result_r;
        begun = begin_handshake-eq;
        replied = rw (prepare_response-eq, sent, handle_handshake_initiation) refl;
        handled = handled;
        entered = entered;
        completed =
            perform_handshake_complete p c (answered_by t (Response.to_bytes response) home) later _
              (turn-eq home) refl;
        sending = sending;
        receiving = receiving;
        client_index = (refl, refl);
        server_index = (refl, refl);
      }
