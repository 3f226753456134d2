-- ===== src/Client/Loop.antt =====
-- src/client.rs: `event_loop`, one round at a time.
pub mod Sends
pub mod Connected
pub mod Stalled
pub mod Homed
use secure_guard.Base.{ℕ, Bool, if◌then◌else◌, List, [], ◌∷◌, ◌++◌, Option, none, some}
use secure_guard.Net.{SocketAddr}
use secure_guard.Crypto.{Primitives}
use secure_guard.Session.Manager.{needs_rekey}
use secure_guard.Client.{WireGuardClient, Effect}
use secure_guard.Client.Handshake.{Turn, perform_handshake}
use secure_guard.Client.Traffic.{Inputs, handle_tun_packet, handle_udp_packet, send_keepalive}

-- What the loop waits for; a rekey check comes with the turns of the handshake that it may start.
pub data Event : Type 0 where
  tun_packet : List ℕ → Event
  udp_packet : List ℕ → SocketAddr → Event
  keepalive_tick : Event
  rekey_check : List Turn → Event
  read_error : Event

-- Errors of the handlers are only logged. The keepalive timer is there if an interval is set; an
-- interval of zero, with which making the timer panics, is left out.
unfoldable pub step : Primitives → WireGuardClient → Event → Inputs → WireGuardClient × List Effect
step p s (tun_packet packet) inp =
    let done = handle_tun_packet p s packet inp in (done.client, done.effects)
step p s (udp_packet packet from) inp =
    let done = handle_udp_packet p s packet from inp in (done.client, done.effects)
step p s keepalive_tick inp = elim s.keepalive_interval [
  | none ↦ (s, [])
  | some interval ↦ let done = send_keepalive p s inp in (done.client, done.effects)
]
step p s (rekey_check turns) inp =
    if needs_rekey s.sessions inp.now
    then (let (s', effects, ended) = perform_handshake p s turns in (s', effects))
    else (s, [])
step p s read_error inp = (s, [])

-- Rounds of the event loop, one after the other, with all their effects.
unfoldable pub run :
    Primitives → WireGuardClient → List (Event × Inputs) → WireGuardClient × List Effect
run p s [] = (s, [])
run p s ((e, inp) ∷ rounds) =
    let (s', effects) = step p s e inp in let rest = run p s' rounds in (rest.0, effects ++ rest.1)
