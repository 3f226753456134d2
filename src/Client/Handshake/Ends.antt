-- ===== src/Client/Handshake/Ends.antt =====
-- When the loop of `perform_handshake` is over.
use secure_guard.Base.{ℕ, List, [], ◌∷◌, ◌++◌, none, ◌≡◌, ◌≢◌, refl, ap, inl, inr, Option-cases}
use secure_guard.Base.Result.{Result, ok, err, Result-cases}
use secure_guard.Error.{MinnowVpnError}
use secure_guard.Net.{SocketAddr}
use secure_guard.Messages.{
  get_message_type, handshake_initiation, handshake_response, cookie_reply, transport_data,
}
use secure_guard.Messages.Response.{HandshakeResponse}
use secure_guard.Crypto.{Primitives}
use secure_guard.Handshake.Initiator
use secure_guard.Client.{WireGuardClient}
use secure_guard.Client.Handshake.{
  Verdict, complete, need_retry, Answer, arrives, timed_out, receive_error, Turn, begin_handshake,
  check_response, take_response, process_handshake_packet, await_answer, turn, perform_handshake,
}

-- Anything but a cookie reply.
abbrev pub IsFinal : Answer → Type 0
IsFinal timed_out = Unit {0}
IsFinal (receive_error reason) = Unit {0}
IsFinal (arrives packet from) = get_message_type packet ≢ ok cookie_reply

-- A result by which the loop does not go on.
abbrev IsOver : Result Verdict MinnowVpnError → Type 0
IsOver (err e) = Unit {0}
IsOver (ok complete) = Unit {0}
IsOver (ok need_retry) = ⊥

module _ (p : Primitives) where
  take_response-IsOver :
      (s : WireGuardClient) (response : HandshakeResponse) (from : SocketAddr) (now : ℕ)
      → IsOver (take_response p s response from now).1
  unfolding take_response
  take_response-IsOver s response from now = elim (Option-cases s.pending_handshake) [
    | inl e ↦ rw (e, take_response) tt
    | inr (handshake, e) ↦ elim (Result-cases (Initiator.process_response p handshake response)) [
      | inr (why, f) ↦ rw (e, f, take_response) tt
      | inl (done, f) ↦ rw (e, f, take_response) tt
    ]
  ]

  process_handshake_packet-IsOver :
      (s : WireGuardClient) (packet : List ℕ) (from : SocketAddr) (now : ℕ)
      → get_message_type packet ≢ ok cookie_reply
      → IsOver (process_handshake_packet p s packet from now).1
  unfolding process_handshake_packet
  process_handshake_packet-IsOver s packet from now other =
      elim (Result-cases (get_message_type packet)) [
        | inr (e, bad) ↦ rw (bad, process_handshake_packet) tt
        | inl (handshake_initiation, t) ↦ rw (t, process_handshake_packet) tt
        | inl (transport_data, t) ↦ rw (t, process_handshake_packet) tt
        | inl (cookie_reply, t) ↦ absurd (other t)
        | inl (handshake_response, t) ↦ elim (Result-cases (check_response p s packet)) [
          | inr (e, f) ↦ rw (t, f, process_handshake_packet) tt
          | inl (response, f) ↦
              rw (t, f, process_handshake_packet) (take_response-IsOver s response from now)
        ]
      ]

  await_answer-IsOver :
      (s : WireGuardClient) (t : Turn) (answer : Answer)
      → t.answer ≡ answer
      → IsFinal answer
      → IsOver (await_answer p s t).1
  unfolding await_answer
  await_answer-IsOver s t timed_out e final = rw (e, await_answer) tt
  await_answer-IsOver s t (receive_error reason) e final = rw (e, await_answer) tt
  await_answer-IsOver s t (arrives packet from) e final =
      rw (e, await_answer) (process_handshake_packet-IsOver s packet from t.later final)

  turn-IsOver : (s : WireGuardClient) (t : Turn) → IsFinal t.answer → IsOver (turn p s t).result
  unfolding turn
  turn-IsOver s t final = elim (Result-cases (begin_handshake p s t)) [
    | inr (e, bad) ↦ rw (bad, turn) tt
    | inl ((s', bytes), good) ↦ elim (Option-cases t.send_error) [
      | inr (reason, e) ↦ rw (good, e, turn) tt
      | inl e ↦ rw (good, e, turn) (await_answer-IsOver s' t t.answer refl final)
    ]
  ]

  IsOver-stops :
      (s : WireGuardClient) (t : Turn) (ts : List Turn)
      → IsOver (turn p s t).result
      → ((perform_handshake p s (t ∷ ts)) ≡ perform_handshake p s (t ∷ []))
        × ((perform_handshake p s (t ∷ [])).2 ≢ none)
  unfolding perform_handshake
  IsOver-stops s t ts over = elim (Result-cases (turn p s t).result) [
    | inr (e, f) ↦ rw (f, perform_handshake) (refl, λ h. absurd (cc h))
    | inl (complete, f) ↦ rw (f, perform_handshake) (refl, λ h. absurd (cc h))
    | inl (need_retry, f) ↦ absurd (rw f at over)
  ]

-- A handshake goes on over cookie replies only: at the first turn in which nothing comes within
-- the timeout, the socket fails, or anything but a cookie reply comes, `perform_handshake` is over,
-- if it was not before, and what the outside would supply after that turn plays no part.
pub perform_handshake-Ends :
    (p : Primitives) (s : WireGuardClient) (before after : List Turn) (t : Turn)
    → IsFinal t.answer
    → (perform_handshake p s (before ++ t ∷ after) ≡ perform_handshake p s (before ++ t ∷ []))
      × ((perform_handshake p s (before ++ t ∷ [])).2 ≢ none)
unfolding perform_handshake
perform_handshake-Ends p s [] after t final = IsOver-stops p s t after (turn-IsOver p s t final)
perform_handshake-Ends p s (u ∷ before) after t final =
    let (same, ended) = perform_handshake-Ends p (turn p s u).client before after t final in
    elim (Result-cases (turn p s u).result) [
      | inr (e, f) ↦ rw (f, perform_handshake) (refl, λ h. absurd (cc h))
      | inl (complete, f) ↦ rw (f, perform_handshake) (refl, λ h. absurd (cc h))
      | inl (need_retry, f) ↦
          rw (f, perform_handshake)
            (ap (λ rest. (rest.0, (turn p s u).effects ++ rest.1, rest.2)) same, ended)
    ]
