-- ===== src/Client/Loop/Homed.antt =====
-- Where the client sends.
pub mod Handshake
use secure_guard.Base.{ℕ, List, [], ◌∷◌, ◌≡◌, refl, ◌∙◌, inl, inr, Option-cases, Bool-cases, arith}
use secure_guard.Base.Result.{ok, Result-cases}
use secure_guard.Net.{SocketAddr}
use secure_guard.Messages.{
  get_message_type, handshake_initiation, handshake_response, cookie_reply, transport_data,
}
use secure_guard.Messages.CookieReply
use secure_guard.Messages.Response.{HandshakeResponse}
use secure_guard.Crypto.{Primitives}
use secure_guard.Handshake.Initiator
use secure_guard.Handshake.Initiator.{InitiatorHandshake}
use secure_guard.Transport
use secure_guard.Session.{Session}
use secure_guard.Session.Manager.{current_mut, needs_rekey}
use secure_guard.Cookie.{process_cookie_reply, get_cookie}
use secure_guard.Client.{WireGuardClient, Effect}
use secure_guard.Client.Handshake.{
  Turn, Answer, complete, need_retry, arrives, timed_out, receive_error, begin_handshake,
  finish_handshake, check_response, take_response, take_cookie, process_handshake_packet,
  await_answer, turn, perform_handshake,
}
use secure_guard.Client.Traffic.{
  Inputs, send_sealed, handle_tun_packet, send_keepalive, locate, deliver, is_due, count_sent,
  handle_transport_packet, handle_udp_packet,
}
use secure_guard.Client.Loop.{
  Event, tun_packet, udp_packet, keepalive_tick, rekey_check, read_error, step, run,
}
use secure_guard.Client.Loop.Sends.{AllSent, AllSent-append}
use secure_guard.Client.Loop.Homed.Handshake.{
  ToHome, Homed, take_cookie-Homed, process_handshake_packet-Homed, perform_handshake-Homed,
}

module _ (home : SocketAddr) where
  send_sealed-Homed :
      (p : Primitives) (counted : WireGuardClient → ℕ → WireGuardClient) (s : WireGuardClient)
      (session : Session) (text : List ℕ) (inp : Inputs)
      → ((s' : WireGuardClient) (n : ℕ) → (counted s' n).peer_endpoint ≡ s'.peer_endpoint)
      → s.peer_endpoint ≡ home
      → Homed home
          (send_sealed p counted s session text inp).client
          (send_sealed p counted s session text inp).effects
  unfolding send_sealed
  send_sealed-Homed p counted s session text inp same h =
      elim (Result-cases (Transport.encrypt p session.transport session.remote_index text).1) [
        | inr (e, bad) ↦ rw (bad, send_sealed) (h, tt)
        | inl (sealed, good) ↦ elim (Option-cases inp.send_error) [
          | inr (reason, e) ↦ rw (good, e, send_sealed) (h, (h, tt))
          | inl e ↦ rw (good, e, send_sealed) (same _ _ ∙ h, (h, tt))
        ]
      ]

  handle_tun_packet-Homed :
      (p : Primitives) (s : WireGuardClient) (packet : List ℕ) (inp : Inputs)
      → s.peer_endpoint ≡ home
      → Homed home
          (handle_tun_packet p s packet inp).client
          (handle_tun_packet p s packet inp).effects
  unfolding handle_tun_packet
  handle_tun_packet-Homed p s packet inp h = elim (Option-cases (current_mut s.sessions inp.now)) [
    | inl e ↦ rw (e, handle_tun_packet) (h, tt)
    | inr (session, e) ↦
        rw (e, handle_tun_packet)
          (send_sealed-Homed p count_sent s session packet inp (λ s' n. refl) h)
  ]

  send_keepalive-Homed :
      (p : Primitives) (s : WireGuardClient) (inp : Inputs)
      → s.peer_endpoint ≡ home
      → Homed home (send_keepalive p s inp).client (send_keepalive p s inp).effects
  unfolding send_keepalive
  send_keepalive-Homed p s inp h = elim (Option-cases (current_mut s.sessions inp.now)) [
    | inl e ↦ rw (e, send_keepalive) (h, tt)
    | inr (session, e) ↦ elim (Bool-cases (is_due s.keepalive_interval session inp.now)) [
      | inl due ↦
          rw (e, due, send_keepalive)
            (send_sealed-Homed p (λ s' n. s') s session [] inp (λ s' n. refl) h)
      | inr due ↦ rw (e, due, send_keepalive) (h, tt)
    ]
  ]

  deliver-Homed :
      (s : WireGuardClient) (text : List ℕ) (inp : Inputs)
      → s.peer_endpoint ≡ home
      → Homed home (deliver s text inp).client (deliver s text inp).effects
  deliver-Homed s [] inp h = (h, tt)
  deliver-Homed s (b ∷ bs) inp h = (h, tt)

  handle_transport_packet-Homed :
      (p : Primitives) (s : WireGuardClient) (packet : List ℕ) (from : SocketAddr) (inp : Inputs)
      → s.peer_endpoint ≡ home
      → Homed home
          (handle_transport_packet p s packet from inp).client
          (handle_transport_packet p s packet from inp).effects
  unfolding handle_transport_packet
  handle_transport_packet-Homed p s packet from inp h =
      elim (Result-cases (locate s packet inp.now)) [
        | inr (e, failed) ↦ rw (failed, handle_transport_packet) (h, tt)
        | inl ((place, session), found) ↦
            elim (Result-cases (Transport.decrypt p session.transport packet).1) [
              | inr (e, d) ↦ rw (found, d, handle_transport_packet) (h, tt)
              | inl (text, d) ↦ rw (found, d, handle_transport_packet) (deliver-Homed _ text inp h)
            ]
      ]

  handle_udp_packet-Homed :
      (p : Primitives) (s : WireGuardClient) (packet : List ℕ) (from : SocketAddr) (inp : Inputs)
      → s.peer_endpoint ≡ home
      → Homed home
          (handle_udp_packet p s packet from inp).client
          (handle_udp_packet p s packet from inp).effects
  unfolding handle_udp_packet
  handle_udp_packet-Homed p s [] from inp h = (h, tt)
  handle_udp_packet-Homed p s (b ∷ bs) from inp h =
      elim (Result-cases (get_message_type (b ∷ bs))) [
        | inr (e, bad) ↦ rw (bad, handle_udp_packet) (h, tt)
        | inl (handshake_initiation, t) ↦ rw (t, handle_udp_packet) (h, tt)
        | inl (handshake_response, t) ↦
            rw (t, handle_udp_packet)
              (process_handshake_packet-Homed home p s (b ∷ bs) from inp.now h, tt)
        | inl (cookie_reply, t) ↦
            rw (t, handle_udp_packet) (take_cookie-Homed home p s (b ∷ bs) inp.now h, tt)
        | inl (transport_data, t) ↦
            rw (t, handle_udp_packet) (handle_transport_packet-Homed p s (b ∷ bs) from inp h)
      ]

  step-Homed :
      (p : Primitives) (s : WireGuardClient) (e : Event) (inp : Inputs)
      → s.peer_endpoint ≡ home
      → Homed home (step p s e inp).0 (step p s e inp).1
  unfolding step
  step-Homed p s (tun_packet packet) inp h = handle_tun_packet-Homed p s packet inp h
  step-Homed p s (udp_packet packet from) inp h = handle_udp_packet-Homed p s packet from inp h
  step-Homed p s keepalive_tick inp h = elim (Option-cases s.keepalive_interval) [
    | inl e ↦ rw (e, step) (h, tt)
    | inr (interval, e) ↦ rw (e, step) (send_keepalive-Homed p s inp h)
  ]
  step-Homed p s (rekey_check turns) inp h = elim (Bool-cases (needs_rekey s.sessions inp.now)) [
    | inl e ↦ rw (e, step) (perform_handshake-Homed home p s turns h)
    | inr e ↦ rw (e, step) (h, tt)
  ]
  step-Homed p s read_error inp h = (h, tt)

  run-Homed :
      (p : Primitives) (s : WireGuardClient) (rounds : List (Event × Inputs))
      → s.peer_endpoint ≡ home
      → Homed home (run p s rounds).0 (run p s rounds).1
  unfolding run
  run-Homed p s [] h = (h, tt)
  run-Homed p s ((e, inp) ∷ rounds) h =
      let (at_home, sent) = step-Homed p s e inp h in
      let (at_home', sent') = run-Homed p (step p s e inp).0 rounds at_home in
      (
        at_home',
        AllSent-append (ToHome home) (step p s e inp).1 (run p (step p s e inp).0 rounds).1 sent
            sent',
      )

-- The client does not follow a server that moves: whatever the event loop goes through, wherever
-- packets come from, every datagram goes to the endpoint that the client had at first.
pub run-peer_endpoint :
    (p : Primitives) (s : WireGuardClient) (rounds : List (Event × Inputs))
    → ((run p s rounds).0.peer_endpoint ≡ s.peer_endpoint)
      × AllSent (λ bytes to. to ≡ s.peer_endpoint) (run p s rounds).1
run-peer_endpoint p s rounds = run-Homed s.peer_endpoint p s rounds refl
