-- ===== src/Client/Loop/Stalled.antt =====
-- The client after its first handshake: it never gets another session.
use secure_guard.Base.{
  ℕ, ◌+◌, ◌≤◌, false, List, [], ◌∷◌, none, ◌≡◌, refl, inl, inr, Option-cases, arith,
}
use secure_guard.Base.Result.{Result-cases}
use secure_guard.Net.{SocketAddr}
use secure_guard.Messages.{
  get_message_type, handshake_initiation, handshake_response, cookie_reply, transport_data,
}
use secure_guard.Messages.CookieReply
use secure_guard.Messages.Response.{HandshakeResponse}
use secure_guard.Crypto.{Primitives}
use secure_guard.Handshake.{HandshakeResult}
use secure_guard.Transport
use secure_guard.Session.{from_secs, is_expired, age}
use secure_guard.Session.Manager.{current_mut, needs_rekey}
use secure_guard.Cookie.{process_cookie_reply}
use secure_guard.Client.{WireGuardClient}
use secure_guard.Client.Handshake.{
  finish_handshake, check_response, take_response, take_cookie, process_handshake_packet,
}
use secure_guard.Client.Traffic.{
  Inputs, handle_tun_packet, send_keepalive, locate, deliver, handle_transport_packet,
  handle_udp_packet,
}
use secure_guard.Client.Loop.{
  Event, tun_packet, udp_packet, keepalive_tick, rekey_check, read_error, step, run,
}
use secure_guard.Client.Loop.Sends.{Silent, AllSent-append}
use secure_guard.Client.Loop.Connected.{
  IsConnected, finish_handshake-IsConnected, handle_tun_packet-IsConnected,
  send_keepalive-IsConnected, handle_transport_packet-IsConnected,
}

take_cookie-IsConnected :
    (p : Primitives) (started : ℕ) (s : WireGuardClient) (packet : List ℕ) (now : ℕ)
    → IsConnected started s
    → IsConnected started (take_cookie p s packet now).0
unfolding take_cookie
take_cookie-IsConnected p started s packet now v =
    elim (Result-cases (CookieReply.from_bytes packet)) [
      | inr (e, bad) ↦ rw (bad, take_cookie) v
      | inl (reply, good) ↦
          elim (Result-cases
            (process_cookie_reply p s.cookie_state reply s.last_mac1 s.peer.public_key now)) [
              | inr (e, d) ↦ rw (good, d, take_cookie) v
              | inl (cookies, d) ↦
                  rw (good, d, take_cookie)
                    (record { busy = v.busy; nothing_pending = v.nothing_pending; dated = v.dated })
            ]
    ]

-- With no handshake pending a response changes nothing.
process_handshake_packet-IsConnected :
    (p : Primitives) (started : ℕ) (s : WireGuardClient) (packet : List ℕ) (from : SocketAddr)
    (now : ℕ)
    → IsConnected started s
    → IsConnected started (process_handshake_packet p s packet from now).0
unfolding process_handshake_packet take_response
process_handshake_packet-IsConnected p started s packet from now v =
    elim (Result-cases (get_message_type packet)) [
      | inr (e, bad) ↦ rw (bad, process_handshake_packet) v
      | inl (handshake_initiation, t) ↦ rw (t, process_handshake_packet) v
      | inl (transport_data, t) ↦ rw (t, process_handshake_packet) v
      | inl (cookie_reply, t) ↦
          rw (t, process_handshake_packet) (take_cookie-IsConnected p started s packet now v)
      | inl (handshake_response, t) ↦ elim (Result-cases (check_response p s packet)) [
        | inr (e, c) ↦ rw (t, c, process_handshake_packet) v
        | inl (response, c) ↦
            rw (t, c, process_handshake_packet) (untaken response v.nothing_pending)
      ]
    ]
  where
    untaken :
        (response : HandshakeResponse)
        → s.pending_handshake ≡ none
        → IsConnected started (take_response p s response from now).0
    untaken response e = rw (e, take_response) v

handle_udp_packet-IsConnected :
    (p : Primitives) (started : ℕ) (s : WireGuardClient) (packet : List ℕ) (from : SocketAddr)
    (inp : Inputs)
    → IsConnected started s
    → IsConnected started (handle_udp_packet p s packet from inp).client
unfolding handle_udp_packet
handle_udp_packet-IsConnected p started s [] from inp v = v
handle_udp_packet-IsConnected p started s (b ∷ bs) from inp v =
    elim (Result-cases (get_message_type (b ∷ bs))) [
      | inr (e, bad) ↦ rw (bad, handle_udp_packet) v
      | inl (handshake_initiation, t) ↦ rw (t, handle_udp_packet) v
      | inl (handshake_response, t) ↦
          rw (t, handle_udp_packet)
            (process_handshake_packet-IsConnected p started s (b ∷ bs) from inp.now v)
      | inl (cookie_reply, t) ↦
          rw (t, handle_udp_packet) (take_cookie-IsConnected p started s (b ∷ bs) inp.now v)
      | inl (transport_data, t) ↦
          rw (t, handle_udp_packet)
            (handle_transport_packet-IsConnected p started s (b ∷ bs) from inp v)
    ]

busy-needs_rekey :
    (started : ℕ) (s : WireGuardClient) (now : ℕ)
    → IsConnected started s
    → needs_rekey s.sessions now ≡ false
unfolding needs_rekey
busy-needs_rekey started s now v = ground (arith, v.busy)

step-IsConnected :
    (p : Primitives) (started : ℕ) (s : WireGuardClient) (e : Event) (inp : Inputs)
    → IsConnected started s
    → IsConnected started (step p s e inp).0
unfolding step
step-IsConnected p started s (tun_packet packet) inp v =
    handle_tun_packet-IsConnected p started s packet inp v
step-IsConnected p started s (udp_packet packet from) inp v =
    handle_udp_packet-IsConnected p started s packet from inp v
step-IsConnected p started s keepalive_tick inp v = elim (Option-cases s.keepalive_interval) [
  | inl e ↦ rw (e, step) v
  | inr (interval, e) ↦ rw (e, step) (send_keepalive-IsConnected p started s inp v)
]
step-IsConnected p started s (rekey_check turns) inp v = rw (busy-needs_rekey started s inp.now v) v
step-IsConnected p started s read_error inp v = v

-- From three minutes on the current session counts as expired.
no_current :
    (started : ℕ) (s : WireGuardClient) (now : ℕ)
    → started + from_secs 180 ≤ now
    → IsConnected started s
    → current_mut s.sessions now ≡ none
unfolding current_mut is_expired age
no_current started s now late v = elim (Option-cases s.sessions.current_session) [
  | inl e ↦ rw e refl
  | inr (session, e) ↦ let old = v.dated session e in rw e (ground arith)
]

handle_tun_packet_late :
    (p : Primitives) (s : WireGuardClient) (packet : List ℕ) (inp : Inputs)
    → current_mut s.sessions inp.now ≡ none
    → Silent (handle_tun_packet p s packet inp).effects
unfolding handle_tun_packet
handle_tun_packet_late p s packet inp e = rw (e, handle_tun_packet) tt

send_keepalive_late :
    (p : Primitives) (s : WireGuardClient) (inp : Inputs)
    → current_mut s.sessions inp.now ≡ none
    → Silent (send_keepalive p s inp).effects
unfolding send_keepalive
send_keepalive_late p s inp e = rw (e, send_keepalive) tt

deliver-Silent :
    (s : WireGuardClient) (text : List ℕ) (inp : Inputs) → Silent (deliver s text inp).effects
deliver-Silent s [] inp = tt
deliver-Silent s (b ∷ bs) inp = tt

handle_transport_packet-Silent :
    (p : Primitives) (s : WireGuardClient) (packet : List ℕ) (from : SocketAddr) (inp : Inputs)
    → Silent (handle_transport_packet p s packet from inp).effects
unfolding handle_transport_packet
handle_transport_packet-Silent p s packet from inp = elim (Result-cases (locate s packet inp.now)) [
  | inr (e, failed) ↦ rw (failed, handle_transport_packet) tt
  | inl ((place, session), found) ↦
      elim (Result-cases (Transport.decrypt p session.transport packet).1) [
        | inr (e, d) ↦ rw (found, d, handle_transport_packet) tt
        | inl (text, d) ↦ rw (found, d, handle_transport_packet) (deliver-Silent _ text inp)
      ]
]

handle_udp_packet-Silent :
    (p : Primitives) (s : WireGuardClient) (packet : List ℕ) (from : SocketAddr) (inp : Inputs)
    → Silent (handle_udp_packet p s packet from inp).effects
unfolding handle_udp_packet
handle_udp_packet-Silent p s [] from inp = tt
handle_udp_packet-Silent p s (b ∷ bs) from inp = elim (Result-cases (get_message_type (b ∷ bs))) [
  | inr (e, bad) ↦ rw (bad, handle_udp_packet) tt
  | inl (handshake_initiation, t) ↦ rw (t, handle_udp_packet) tt
  | inl (handshake_response, t) ↦ rw (t, handle_udp_packet) tt
  | inl (cookie_reply, t) ↦ rw (t, handle_udp_packet) tt
  | inl (transport_data, t) ↦
      rw (t, handle_udp_packet) (handle_transport_packet-Silent p s (b ∷ bs) from inp)
]

step-Silent :
    (p : Primitives) (started : ℕ) (s : WireGuardClient) (e : Event) (inp : Inputs)
    → started + from_secs 180 ≤ inp.now
    → IsConnected started s
    → Silent (step p s e inp).1
unfolding step
step-Silent p started s (tun_packet packet) inp late v =
    handle_tun_packet_late p s packet inp (no_current started s inp.now late v)
step-Silent p started s (udp_packet packet from) inp late v =
    handle_udp_packet-Silent p s packet from inp
step-Silent p started s keepalive_tick inp late v = elim (Option-cases s.keepalive_interval) [
  | inl e ↦ rw (e, step) tt
  | inr (interval, e) ↦
      rw (e, step) (send_keepalive_late p s inp (no_current started s inp.now late v))
]
step-Silent p started s (rekey_check turns) inp late v =
    rw (busy-needs_rekey started s inp.now v) tt
step-Silent p started s read_error inp late v = tt

abbrev pub AllFrom : ℕ → List (Event × Inputs) → Type 0
AllFrom start [] = Unit
AllFrom start ((e, inp) ∷ rounds) = (start ≤ inp.now) × AllFrom start rounds

run-IsConnected :
    (p : Primitives) (started : ℕ) (s : WireGuardClient) (rounds : List (Event × Inputs))
    → IsConnected started s
    → IsConnected started (run p s rounds).0
unfolding run
run-IsConnected p started s [] v = v
run-IsConnected p started s ((e, inp) ∷ rounds) v =
    run-IsConnected p started (step p s e inp).0 rounds (step-IsConnected p started s e inp v)

run-Silent :
    (p : Primitives) (started : ℕ) (s : WireGuardClient) (rounds : List (Event × Inputs))
    → AllFrom (started + from_secs 180) rounds
    → IsConnected started s
    → Silent (run p s rounds).1
unfolding run
run-Silent p started s [] late v = tt
run-Silent p started s ((e, inp) ∷ rounds) late v =
    AllSent-append (λ bytes to. ⊥) (step p s e inp).1 (run p (step p s e inp).0 rounds).1
      (step-Silent p started s e inp late.0 v)
      (run-Silent p started (step p s e inp).0 rounds late.1 (step-IsConnected p started s e inp v))

-- The client's connection ends after three minutes: whatever the event loop goes through after a
-- handshake was finished, from 180 seconds after that time on it sends no datagram, whether
-- packets come from the TUN device, responses from the server, or ticks of the timers.
pub run-finish_handshake :
    (p : Primitives) (s : WireGuardClient) (result : HandshakeResult) (from : SocketAddr) (now : ℕ)
    (before late : List (Event × Inputs))
    → AllFrom (now + from_secs 180) late
    → Silent (run p (run p (finish_handshake s result from now) before).0 late).1
run-finish_handshake p s result from now before late after =
    run-Silent p now _ late after
      (run-IsConnected p now _ before (finish_handshake-IsConnected s result from now))
