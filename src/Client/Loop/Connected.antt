-- ===== src/Client/Loop/Connected.antt =====
-- The client after its first handshake.
use secure_guard.Base.{
  ℕ, false, List, [], ◌∷◌, Option, none, some, ◌≡◌, refl, inl, inr, Option-cases, Bool-cases, arith,
}
use secure_guard.Base.Result.{ok, Result-cases}
use secure_guard.Net.{SocketAddr}
use secure_guard.Messages.Header
use secure_guard.Crypto.{Primitives}
use secure_guard.Handshake.{HandshakeResult}
use secure_guard.Transport
use secure_guard.Session.{Session, from_secs, is_expired, age, mark_sent, mark_received}
use secure_guard.Session
use secure_guard.Session.Slots.{Place, at_current, at_previous, unexpired}
use secure_guard.Session.Slots.Found.{slot, find_in_sound, unexpired-some}
use secure_guard.Session.Manager.{
  SessionManager, is_idle, current_mut, set_current, set_at, find_by_index, needs_rekey,
}
use secure_guard.Session.Manager as SessionManager
use secure_guard.Client.{WireGuardClient}
use secure_guard.Client.Handshake.{finish_handshake}
use secure_guard.Client.Traffic.{
  Inputs, send_sealed, handle_tun_packet, send_keepalive, locate, roam, deliver, is_due, count_sent,
  handle_transport_packet,
}

-- No handshake is open and none is asked for; the current session, if there is one, is from
-- the time `started`.
pub record IsConnected (started : ℕ) (s : WireGuardClient) : Type 0 where
  pub busy : is_idle s.sessions.handshake_state ≡ false
  pub nothing_pending : s.pending_handshake ≡ none
  pub dated : (x : Session) → s.sessions.current_session ≡ some x → x.created_at ≡ started

pub finish_handshake-IsConnected :
    (s : WireGuardClient) (result : HandshakeResult) (from : SocketAddr) (now : ℕ)
    → IsConnected now (finish_handshake s result from now)
unfolding finish_handshake SessionManager.establish_session Session.new
finish_handshake-IsConnected s result from now = record {
  busy = refl;
  nothing_pending = refl;
  dated = λ x h. ground arith;
}

write_current-IsConnected :
    (started : ℕ) (s : WireGuardClient) (session : Session)
    → session.created_at ≡ started
    → IsConnected started s
    → IsConnected started (record s { sessions = set_current s.sessions session })
unfolding set_current
write_current-IsConnected started s session young v = record {
  busy = v.busy;
  nothing_pending = v.nothing_pending;
  dated = λ x h. ground arith;
}

send_sealed-IsConnected :
    (p : Primitives) (counted : WireGuardClient → ℕ → WireGuardClient) (started : ℕ)
    (s : WireGuardClient) (session : Session) (text : List ℕ) (inp : Inputs)
    → ((s' : WireGuardClient) (n : ℕ) → IsConnected started s' → IsConnected started (counted s' n))
    → session.created_at ≡ started
    → IsConnected started s
    → IsConnected started (send_sealed p counted s session text inp).client
unfolding send_sealed mark_sent
send_sealed-IsConnected p counted started s session text inp keep young v =
    let (transport, sealed) = Transport.encrypt p session.transport session.remote_index text in
    let marked = mark_sent (record session { transport = transport }) inp.now in
    let written : IsConnected started (record s { sessions = set_current s.sessions marked }) =
      write_current-IsConnected started s marked young v in
    elim (Result-cases sealed) [
      | inr (e, d) ↦
          rw (d, send_sealed)
            (write_current-IsConnected started s (record session { transport = transport }) young v)
      | inl (encrypted, d) ↦ elim (Option-cases inp.send_error) [
        | inr (reason, n) ↦ rw (d, n, send_sealed) written
        | inl n ↦ rw (d, n, send_sealed) (keep _ _ written)
      ]
    ]

count_sent-IsConnected :
    (started : ℕ) (s : WireGuardClient) (n : ℕ)
    → IsConnected started s
    → IsConnected started (count_sent s n)
count_sent-IsConnected started s n v = record {
  busy = v.busy;
  nothing_pending = v.nothing_pending;
  dated = v.dated;
}

pub handle_tun_packet-IsConnected :
    (p : Primitives) (started : ℕ) (s : WireGuardClient) (packet : List ℕ) (inp : Inputs)
    → IsConnected started s
    → IsConnected started (handle_tun_packet p s packet inp).client
unfolding handle_tun_packet current_mut
handle_tun_packet-IsConnected p started s packet inp v =
    elim (Option-cases (unexpired s.sessions.current_session inp.now)) [
      | inl e ↦ rw (e, handle_tun_packet) v
      | inr (session, e) ↦
          let held = unexpired-some s.sessions.current_session inp.now session e in
          rw (e, handle_tun_packet)
            (send_sealed-IsConnected p count_sent started s session packet inp
              (count_sent-IsConnected started) (v.dated session held.0) v)
    ]

pub send_keepalive-IsConnected :
    (p : Primitives) (started : ℕ) (s : WireGuardClient) (inp : Inputs)
    → IsConnected started s
    → IsConnected started (send_keepalive p s inp).client
unfolding send_keepalive current_mut
send_keepalive-IsConnected p started s inp v =
    elim (Option-cases (unexpired s.sessions.current_session inp.now)) [
      | inl e ↦ rw (e, send_keepalive) v
      | inr (session, e) ↦
          let held = unexpired-some s.sessions.current_session inp.now session e in
          elim (Bool-cases (is_due s.keepalive_interval session inp.now)) [
            | inr early ↦ rw (e, early, send_keepalive) v
            | inl due ↦
                rw (e, due, send_keepalive)
                  (send_sealed-IsConnected p (λ s' n. s') started s session [] inp (λ s' n w. w)
                    (v.dated session held.0) v)
          ]
    ]

-- Writing back a session that was found, with its date.
set_at-IsConnected :
    (started : ℕ) (s : WireGuardClient) (place : Place) (session session' : Session)
    → slot s.sessions.current_session s.sessions.previous_session place ≡ some session
    → session'.created_at ≡ session.created_at
    → IsConnected started s
    → IsConnected started (record s { sessions = set_at s.sessions place session' })
unfolding set_at
set_at-IsConnected started s at_current session session' stood same v = record {
  busy = v.busy;
  nothing_pending = v.nothing_pending;
  dated = λ x h. let was = v.dated session stood in ground arith;
}
set_at-IsConnected started s at_previous session session' stood same v = record {
  busy = v.busy;
  nothing_pending = v.nothing_pending;
  dated = v.dated;
}

locate_sound :
    (s : WireGuardClient) (packet : List ℕ) (now : ℕ) (place : Place) (session : Session)
    → locate s packet now ≡ ok (place, session)
    → slot s.sessions.current_session s.sessions.previous_session place ≡ some session
unfolding locate find_by_index
locate_sound s packet now place session h = elim (Result-cases (Header.from_bytes packet)) [
  | inr (e, bad) ↦ absurd (ground arith)
  | inl (header, good) ↦
      (find_in_sound s.sessions.current_session s.sessions.previous_session header.receiver_index
        now place session (ground arith)).0
]

roam-created_at :
    (session : Session) (from : SocketAddr) → (roam session from).created_at ≡ session.created_at
roam-created_at session from = ground arith

deliver-client :
    (s : WireGuardClient) (text : List ℕ) (inp : Inputs) → (deliver s text inp).client ≡ s
deliver-client s [] inp = refl
deliver-client s (b ∷ bs) inp = refl

pub handle_transport_packet-IsConnected :
    (p : Primitives) (started : ℕ) (s : WireGuardClient) (packet : List ℕ) (from : SocketAddr)
    (inp : Inputs)
    → IsConnected started s
    → IsConnected started (handle_transport_packet p s packet from inp).client
unfolding handle_transport_packet mark_received
handle_transport_packet-IsConnected p started s packet from inp v =
    elim (Result-cases (locate s packet inp.now)) [
      | inr (e, failed) ↦ rw (failed, handle_transport_packet) (counted v)
      | inl ((place, session), found) ↦
          let (transport, opened) = Transport.decrypt p session.transport packet in
          let session' = record session { transport = transport } in
          let heard = roam (mark_received session' inp.now) from in
          let stood = locate_sound s packet inp.now place session found in
          elim (Result-cases opened) [
            | inr (e, d) ↦
                rw (found, d, handle_transport_packet)
                  (counted (set_at-IsConnected started s place session session' stood refl v))
            | inl (text, d) ↦
                rw (found, d, handle_transport_packet, deliver-client _ text inp)
                  (counted (
                    set_at-IsConnected started s place session heard stood
                      (roam-created_at (mark_received session' inp.now) from) v))
          ]
    ]
  where
    counted :
        {m : SessionManager} {t : Option Session.TrafficStats}
        → IsConnected started (record s { sessions = m })
        → IsConnected started (record s { sessions = m; traffic_stats = t })
    counted w = record { busy = w.busy; nothing_pending = w.nothing_pending; dated = w.dated }
