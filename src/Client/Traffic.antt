-- ===== src/Client/Traffic.antt =====
-- src/client.rs: `handle_tun_packet`, `handle_transport_packet`, `send_keepalive` and
-- `handle_udp_packet`.
use secure_guard.Base.{
  ℕ, Bool, true, if◌then◌else◌, List, [], ◌∷◌, length, Option, none, some, String,
}
use secure_guard.Base.Result.{Result, ok, err, ◌>>=◌, map_err, ok_or}
use secure_guard.Error.{
  MinnowVpnError, protocol, network, tunnel, no_session, invalid_sender_index, send_failed,
  write_failed,
}
use secure_guard.Net.{SocketAddr, addr_eq}
use secure_guard.Messages.{
  get_message_type, handshake_initiation, handshake_response, cookie_reply, transport_data,
}
use secure_guard.Messages.Header
use secure_guard.Crypto.{Primitives}
use secure_guard.Transport
use secure_guard.Session.{
  Session, TrafficStats, add_sent, add_received, mark_sent, mark_received, needs_keepalive,
}
use secure_guard.Session.Manager.{current_mut, set_current, find_by_index, set_at}
use secure_guard.Session.Slots.{Place}
use secure_guard.Client.{WireGuardClient, Effect, send_udp, write_tun}
use secure_guard.Client.Handshake.{process_handshake_packet, take_cookie, Ended}

-- What one call takes from outside: the clock, and the reasons for which sending or writing
-- fails.
pub record Inputs : Type 0 where
  pub now : ℕ
  pub send_error : Option String
  pub write_error : Option String

abbrev pub Done : Type 0
Done = Ended (Unit {0})

abbrev pub ended_with : WireGuardClient → List Effect → Result (Unit {0}) MinnowVpnError → Done
ended_with s effects result = record { client = s; effects = effects; result = result }

-- `if let Some(ref stats) = self.traffic_stats`.
abbrev pub with_stats : WireGuardClient → (TrafficStats → TrafficStats) → WireGuardClient
with_stats s f = record s {
  traffic_stats = elim s.traffic_stats [ none ↦ none | some t ↦ some (f t) ];
}

-- The datagram that a session encrypts is sent to `peer_endpoint`; the session is written back.
-- `counted` is the state after it was sent.
unfoldable pub send_sealed :
    Primitives
    → (WireGuardClient → ℕ → WireGuardClient)
    → WireGuardClient
    → Session
    → List ℕ
    → Inputs
    → Done
send_sealed p counted s session text inp =
    let (transport, sealed) = Transport.encrypt p session.transport session.remote_index text in
    let session' = record session { transport = transport } in
    elim sealed [
      | err e ↦ ended_with (record s { sessions = set_current s.sessions session' }) [] (err e)
      | ok encrypted ↦
          let s' = record s { sessions = set_current s.sessions (mark_sent session' inp.now) } in
          let sent = send_udp encrypted s.peer_endpoint ∷ [] in
          elim inp.send_error [
            | some reason ↦ ended_with s' sent (err (network (send_failed reason)))
            | none ↦ ended_with (counted s' (length encrypted)) sent (ok tt)
          ]
    ]

abbrev pub count_sent : WireGuardClient → ℕ → WireGuardClient
count_sent s n = with_stats s (λ t. add_sent t n)

unfoldable pub handle_tun_packet : Primitives → WireGuardClient → List ℕ → Inputs → Done
handle_tun_packet p s packet inp = elim (current_mut s.sessions inp.now) [
  | none ↦ ended_with s [] (err (protocol no_session))
  | some session ↦ send_sealed p count_sent s session packet inp
]

-- Whether the keepalive is due; without an interval it always is.
abbrev pub is_due : Option ℕ → Session → ℕ → Bool
is_due none session now = true
is_due (some interval) session now = needs_keepalive session interval now

-- Keepalives are not counted in the statistics.
unfoldable pub send_keepalive : Primitives → WireGuardClient → Inputs → Done
send_keepalive p s inp = elim (current_mut s.sessions inp.now) [
  | none ↦ ended_with s [] (err (protocol no_session))
  | some session ↦
      if is_due s.keepalive_interval session inp.now
      then send_sealed p (λ s' n. s') s session [] inp
      else ended_with s [] (ok tt)
]

unfoldable pub locate : WireGuardClient → List ℕ → ℕ → Result (Place × Session) MinnowVpnError
locate s packet now = do
  header ← map_err protocol (Header.from_bytes packet)
  ok_or (find_by_index s.sessions header.receiver_index now)
      (protocol (invalid_sender_index header.receiver_index))

-- `session.endpoint = from` if it changed.
abbrev pub roam : Session → SocketAddr → Session
roam session from =
    if addr_eq session.endpoint from then session else record session { endpoint = from }

-- The plaintext goes to the TUN device, unless it is empty.
abbrev pub deliver : WireGuardClient → List ℕ → Inputs → Done
deliver s [] inp = ended_with s [] (ok tt)
deliver s (b ∷ bs) inp =
    ended_with s (write_tun (b ∷ bs) ∷ [])
      (elim inp.write_error [ none ↦ ok tt | some reason ↦ err (tunnel (write_failed reason)) ])

unfoldable pub handle_transport_packet :
    Primitives → WireGuardClient → List ℕ → SocketAddr → Inputs → Done
handle_transport_packet p s packet from inp =
    let s' = with_stats s (λ t. add_received t (length packet)) in
    elim (locate s packet inp.now) [
      | err e ↦ ended_with s' [] (err e)
      | ok (place, session) ↦
          let (transport, opened) = Transport.decrypt p session.transport packet in
          let session' = record session { transport = transport } in
          elim opened [
            | err e ↦
                ended_with (record s' { sessions = set_at s.sessions place session' }) [] (err e)
            | ok plaintext ↦
                let heard = roam (mark_received session' inp.now) from in
                deliver (record s' { sessions = set_at s.sessions place heard }) plaintext inp
          ]
    ]

abbrev pub without_verdict {ℓ} :
    {A : Type ℓ} → Result A MinnowVpnError → Result (Unit {0}) MinnowVpnError
without_verdict (ok a) = ok tt
without_verdict (err e) = err e

unfoldable pub handle_udp_packet :
    Primitives → WireGuardClient → List ℕ → SocketAddr → Inputs → Done
handle_udp_packet p s [] from inp = ended_with s [] (ok tt)
handle_udp_packet p s (b ∷ bs) from inp = elim (get_message_type (b ∷ bs)) [
  | err e ↦ ended_with s [] (err (protocol e))
  | ok t ↦ elim t [
    | transport_data ↦ handle_transport_packet p s (b ∷ bs) from inp
    | handshake_response ↦
        let (s', verdict) = process_handshake_packet p s (b ∷ bs) from inp.now in
        ended_with s' [] (without_verdict verdict)
    | cookie_reply ↦
        let (s', verdict) = take_cookie p s (b ∷ bs) inp.now in
        ended_with s' [] (without_verdict verdict)
    | handshake_initiation ↦ ended_with s [] (ok tt)
  ]
]
