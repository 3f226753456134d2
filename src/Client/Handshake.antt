-- ===== src/Client/Handshake.antt =====
-- src/client.rs: `perform_handshake`, `process_handshake_packet` and `connect_with_retry`.
pub mod Ends
use secure_guard.Base.{ℕ, ◌*◌, min, List, [], ◌∷◌, ◌++◌, get_or, Option, none, some, String}
use secure_guard.Base.Result.{Result, ok, err, ◌>>=◌, ◌>>◌, map_err}
use secure_guard.Error.{
  MinnowVpnError, protocol, network, handshake_timeout, invalid_message_type, no_session,
  send_failed, receive_failed,
}
use secure_guard.Net.{SocketAddr}
use secure_guard.Messages.{
  get_message_type, handshake_initiation, handshake_response, cookie_reply, transport_data,
}
use secure_guard.Messages.Initiation
use secure_guard.Messages.Response
use secure_guard.Messages.Response.{HandshakeResponse}
use secure_guard.Messages.CookieReply
use secure_guard.Crypto.{Primitives, public_key}
use secure_guard.Handshake.{HandshakeResult, verify_response_mac1}
use secure_guard.Handshake.Initiator
use secure_guard.Handshake.Initiator.{InitiatorHandshake}
use secure_guard.Session
use secure_guard.Session.{Session, from_secs}
use secure_guard.Session.Manager as SessionManager
use secure_guard.Cookie
use secure_guard.Cookie.{get_cookie, process_cookie_reply}
use secure_guard.Client.{WireGuardClient, Effect, send_udp, sleep}

-- The source's own enum `HandshakeResult` of client.rs.
pub data Verdict : Type 0 where
  complete need_retry : Verdict

-- What the socket gives within the timeout.
pub data Answer : Type 0 where
  arrives : List ℕ → SocketAddr → Answer
  timed_out : Answer
  receive_error : String → Answer

-- What one turn of the loop in `perform_handshake` takes from outside: the clock before and
-- after the wait, the random values, the time stamp, and what sending and receiving give.
pub record Turn : Type 0 where
  pub now : ℕ
  pub later : ℕ
  pub sender_index : ℕ
  pub secret : List ℕ
  pub timestamp : List ℕ
  pub send_error : Option String
  pub answer : Answer

abbrev pub handshake_timeout_secs : ℕ
handshake_timeout_secs = 5

-- The initiation of a turn; the state is changed once the message is made.
unfoldable pub begin_handshake :
    Primitives → WireGuardClient → Turn → Result (WireGuardClient × List ℕ) MinnowVpnError
begin_handshake p s t = do
  let handshake =
      Initiator.new p s.config.interface.private_key s.peer.public_key
        s.config.interface.preshared_key t.sender_index
  (handshake', init_msg) ←
      Initiator.create_initiation p handshake t.secret t.timestamp (get_cookie s.cookie_state t.now)
  ok (
    record s {
      last_mac1 = init_msg.mac1;
      pending_handshake = some handshake';
      sessions = SessionManager.start_handshake s.sessions t.sender_index t.now;
    },
    Initiation.to_bytes init_msg,
  )

-- The result of the handshake makes a session, and the cookie has done its work.
unfoldable pub finish_handshake :
    WireGuardClient → HandshakeResult → SocketAddr → ℕ → WireGuardClient
finish_handshake s result from now = record s {
  pending_handshake = none;
  sessions = SessionManager.establish_session s.sessions (
      Session.new result.local_index result.remote_index result.sending_key result.receiving_key
        from now);
  cookie_state = Cookie.clear s.cookie_state;
}

-- `pending_handshake.take()`: the handshake is gone whatever the response holds.
unfoldable pub take_response :
    Primitives
    → WireGuardClient
    → HandshakeResponse
    → SocketAddr
    → ℕ
    → WireGuardClient × Result Verdict MinnowVpnError
take_response p s response from now = elim s.pending_handshake [
  | none ↦ (s, err (protocol no_session))
  | some handshake ↦ elim (Initiator.process_response p handshake response) [
    | err e ↦ (record s { pending_handshake = none }, err e)
    | ok (done, result) ↦ (finish_handshake s result from now, ok complete)
  ]
]

-- The checks of a response, before the pending handshake is taken.
unfoldable pub check_response :
    Primitives → WireGuardClient → List ℕ → Result HandshakeResponse MinnowVpnError
check_response p s packet = do
  response ← map_err protocol (Response.from_bytes packet)
  verify_response_mac1 p packet (public_key p s.config.interface.private_key)
  ok response

unfoldable pub take_cookie :
    Primitives → WireGuardClient → List ℕ → ℕ → WireGuardClient × Result Verdict MinnowVpnError
take_cookie p s packet now = elim (CookieReply.from_bytes packet) [
  | err e ↦ (s, err (protocol e))
  | ok reply ↦
      elim (process_cookie_reply p s.cookie_state reply s.last_mac1 s.peer.public_key now) [
        | err e ↦ (s, err e)
        | ok cookies ↦ (record s { cookie_state = cookies }, ok need_retry)
      ]
]

unfoldable pub process_handshake_packet :
    Primitives
    → WireGuardClient
    → List ℕ
    → SocketAddr
    → ℕ
    → WireGuardClient × Result Verdict MinnowVpnError
process_handshake_packet p s packet from now = elim (get_message_type packet) [
  | err e ↦ (s, err (protocol e))
  | ok t ↦ elim t [
    | handshake_response ↦ elim (check_response p s packet) [
      | err e ↦ (s, err e)
      | ok response ↦ take_response p s response from now
    ]
    | cookie_reply ↦ take_cookie p s packet now
    | handshake_initiation ↦ (s, err (protocol (invalid_message_type (get_or packet 0 0))))
    | transport_data ↦ (s, err (protocol (invalid_message_type (get_or packet 0 0))))
  ]
]

-- What a turn leaves: the state, the effects, and how it ends.
pub record Ended {ℓ} (A : Type ℓ) : Type ℓ where
  pub client : WireGuardClient
  pub effects : List Effect
  pub result : Result A MinnowVpnError

-- After the initiation was sent.
unfoldable pub await_answer :
    Primitives → WireGuardClient → Turn → WireGuardClient × Result Verdict MinnowVpnError
await_answer p s t = elim t.answer [
  | timed_out ↦ (s, err (protocol (handshake_timeout handshake_timeout_secs)))
  | receive_error reason ↦ (s, err (network (receive_failed reason)))
  | arrives packet from ↦ process_handshake_packet p s packet from t.later
]

-- One turn of the loop.
unfoldable pub turn : Primitives → WireGuardClient → Turn → Ended Verdict
turn p s t = elim (begin_handshake p s t) [
  | err e ↦ record { client = s; effects = []; result = err e }
  | ok (s', init_bytes) ↦
      let sent = send_udp init_bytes s.peer_endpoint ∷ [] in
      elim t.send_error [
        | some reason ↦ record {
          client = s';
          effects = sent;
          result = err (network (send_failed reason));
        }
        | none ↦
            let (s'', verdict) = await_answer p s' t in
            record { client = s''; effects = sent; result = verdict }
      ]
]

-- The loop, over the turns that the outside supplies; `none` where it still goes on after them.
unfoldable pub perform_handshake :
    Primitives
    → WireGuardClient
    → List Turn
    → WireGuardClient × List Effect × Option (Result (Unit {0}) MinnowVpnError)
perform_handshake p s [] = (s, [], none)
perform_handshake p s (t ∷ ts) =
    let first = turn p s t in
    let rest = perform_handshake p first.client ts in
    elim first.result [
      | err e ↦ (first.client, first.effects, some (err e))
      | ok complete ↦ (first.client, first.effects, some (ok tt))
      | ok need_retry ↦ (rest.0, first.effects ++ rest.1, rest.2)
    ]

abbrev pub initial_retry_delay : ℕ
initial_retry_delay = from_secs 1

abbrev pub max_retry_delay : ℕ
max_retry_delay = from_secs 60

-- The loop of `connect_with_retry` from a delay on, over the attempts that the outside supplies;
-- the flag says whether an attempt has succeeded.
unfoldable pub retry_from :
    Primitives
    → WireGuardClient
    → ℕ
    → List (List Turn)
    → WireGuardClient × List Effect × Option (Unit {0})
retry_from p s delay [] = (s, [], none)
retry_from p s delay (attempt ∷ attempts) =
    let (s', effects, ended) = perform_handshake p s attempt in
    let rest = retry_from p s' (min (delay * 2) max_retry_delay) attempts in
    elim ended [
      | none ↦ (s', effects, none)
      | some (ok done) ↦ (s', effects, some tt)
      | some (err e) ↦ (rest.0, effects ++ (sleep delay ∷ rest.1), rest.2)
    ]

unfoldable pub connect_with_retry :
    Primitives
    → WireGuardClient
    → List (List Turn)
    → WireGuardClient × List Effect × Option (Unit {0})
connect_with_retry p s attempts = retry_from p s initial_retry_delay attempts
