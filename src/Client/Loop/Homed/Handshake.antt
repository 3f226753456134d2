-- ===== src/Client/Loop/Homed/Handshake.antt =====
-- Where the client sends in a handshake.
use secure_guard.Base.{ℕ, List, [], ◌∷◌, ◌≡◌, refl, ◌∙◌, inl, inr, Option-cases, arith}
use secure_guard.Base.Result.{ok, Result-cases}
use secure_guard.Net.{SocketAddr}
use secure_guard.Messages.{
  get_message_type, handshake_initiation, handshake_response, cookie_reply, transport_data,
}
use secure_guard.Messages.CookieReply
use secure_guard.Messages.Response.{HandshakeResponse}
use secure_guard.Crypto.{Primitives}
use secure_guard.Handshake.Initiator
use secure_guard.Handshake.Initiator.{InitiatorHandshake}
use secure_guard.Cookie.{process_cookie_reply, get_cookie}
use secure_guard.Client.{WireGuardClient, Effect}
use secure_guard.Client.Handshake.{
  Turn, Answer, complete, need_retry, arrives, timed_out, receive_error, begin_handshake,
  finish_handshake, check_response, take_response, take_cookie, process_handshake_packet,
  await_answer, turn, perform_handshake,
}
use secure_guard.Client.Loop.Sends.{AllSent, AllSent-append}

module _ (home : SocketAddr) where
  abbrev pub ToHome : List ℕ → SocketAddr → Type 0
  ToHome bytes to = to ≡ home

  -- The client stays at its endpoint, and has sent there only.
  abbrev pub Homed : WireGuardClient → List Effect → Type 0
  Homed s effects = (s.peer_endpoint ≡ home) × AllSent ToHome effects

  pub take_cookie-Homed :
      (p : Primitives) (s : WireGuardClient) (packet : List ℕ) (now : ℕ)
      → s.peer_endpoint ≡ home
      → (take_cookie p s packet now).0.peer_endpoint ≡ home
  unfolding take_cookie
  take_cookie-Homed p s packet now h = elim (Result-cases (CookieReply.from_bytes packet)) [
    | inr (e, bad) ↦ rw (bad, take_cookie) h
    | inl (reply, good) ↦
        elim (Result-cases
          (process_cookie_reply p s.cookie_state reply s.last_mac1 s.peer.public_key now)) [
            | inr (e, d) ↦ rw (good, d, take_cookie) h
            | inl (cookies, d) ↦ rw (good, d, take_cookie) h
          ]
  ]

  take_response-Homed :
      (p : Primitives) (s : WireGuardClient) (response : HandshakeResponse) (from : SocketAddr)
      (now : ℕ)
      → s.peer_endpoint ≡ home
      → (take_response p s response from now).0.peer_endpoint ≡ home
  unfolding take_response finish_handshake
  take_response-Homed p s response from now h = elim (Option-cases s.pending_handshake) [
    | inl e ↦ rw (e, take_response) h
    | inr (pending, e) ↦ elim (Result-cases (Initiator.process_response p pending response)) [
      | inr (f, d) ↦ rw (e, d, take_response) h
      | inl (made, d) ↦ rw (e, d, take_response) h
    ]
  ]

  pub process_handshake_packet-Homed :
      (p : Primitives) (s : WireGuardClient) (packet : List ℕ) (from : SocketAddr) (now : ℕ)
      → s.peer_endpoint ≡ home
      → (process_handshake_packet p s packet from now).0.peer_endpoint ≡ home
  unfolding process_handshake_packet
  process_handshake_packet-Homed p s packet from now h =
      elim (Result-cases (get_message_type packet)) [
        | inr (e, bad) ↦ rw (bad, process_handshake_packet) h
        | inl (handshake_initiation, t) ↦ rw (t, process_handshake_packet) h
        | inl (transport_data, t) ↦ rw (t, process_handshake_packet) h
        | inl (cookie_reply, t) ↦
            rw (t, process_handshake_packet) (take_cookie-Homed p s packet now h)
        | inl (handshake_response, t) ↦ elim (Result-cases (check_response p s packet)) [
          | inr (e, c) ↦ rw (t, c, process_handshake_packet) h
          | inl (response, c) ↦
              rw (t, c, process_handshake_packet) (take_response-Homed p s response from now h)
        ]
      ]

  await_answer-Homed :
      (p : Primitives) (s : WireGuardClient) (t : Turn)
      → s.peer_endpoint ≡ home
      → (await_answer p s t).0.peer_endpoint ≡ home
  unfolding await_answer
  await_answer-Homed p s t h = by_answer t.answer refl
    where
      by_answer : (a : Answer) → t.answer ≡ a → (await_answer p s t).0.peer_endpoint ≡ home
      by_answer timed_out e = rw (e, await_answer) h
      by_answer (receive_error reason) e = rw (e, await_answer) h
      by_answer (arrives packet from) e =
          rw (e, await_answer) (process_handshake_packet-Homed p s packet from t.later h)

  begin_handshake-Homed :
      (p : Primitives) (s waiting : WireGuardClient) (t : Turn) (datagram : List ℕ)
      → begin_handshake p s t ≡ ok (waiting, datagram)
      → waiting.peer_endpoint ≡ s.peer_endpoint
  unfolding begin_handshake
  begin_handshake-Homed p s waiting t datagram h =
      elim (Result-cases (
        Initiator.create_initiation p
          (Initiator.new p s.config.interface.private_key s.peer.public_key
            s.config.interface.preshared_key t.sender_index)
          t.secret t.timestamp (get_cookie s.cookie_state t.now))) [
            | inr (e, bad) ↦ absurd (ground arith)
            | inl (made, good) ↦ ground arith
          ]

  turn-Homed :
      (p : Primitives) (s : WireGuardClient) (t : Turn)
      → s.peer_endpoint ≡ home
      → Homed (turn p s t).client (turn p s t).effects
  unfolding turn
  turn-Homed p s t h = elim (Result-cases (begin_handshake p s t)) [
    | inr (e, bad) ↦ rw (bad, turn) (h, tt)
    | inl ((waiting, datagram), good) ↦
        let at_home : waiting.peer_endpoint ≡ home =
          begin_handshake-Homed p s waiting t datagram good ∙ h in
        elim (Option-cases t.send_error) [
          | inl e ↦ rw (good, e, turn) (await_answer-Homed p waiting t at_home, (h, tt))
          | inr (reason, e) ↦ rw (good, e, turn) (at_home, (h, tt))
        ]
  ]

  pub perform_handshake-Homed :
      (p : Primitives) (s : WireGuardClient) (turns : List Turn)
      → s.peer_endpoint ≡ home
      → Homed (perform_handshake p s turns).0 (perform_handshake p s turns).1
  unfolding perform_handshake
  perform_handshake-Homed p s [] h = (h, tt)
  perform_handshake-Homed p s (t ∷ ts) h =
      let (at_home, sent) = turn-Homed p s t h in
      let (at_home', sent') = perform_handshake-Homed p (turn p s t).client ts at_home in
      elim (Result-cases (turn p s t).result) [
        | inr (e, f) ↦ rw (f, perform_handshake) (at_home, sent)
        | inl (complete, f) ↦ rw (f, perform_handshake) (at_home, sent)
        | inl (need_retry, f) ↦
            rw (f, perform_handshake)
              (
                at_home',
                AllSent-append ToHome (turn p s t).effects
                    (perform_handshake p (turn p s t).client ts).1 sent sent',
              )
      ]
