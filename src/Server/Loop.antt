-- ===== src/Server/Loop.antt =====
-- src/server.rs: the dispatch of datagrams, the peer updates and the event loop.
use secure_guard.Base.{ℕ, Bool, true, false, List, [], ◌∷◌, ◌++◌, Option, none, some}
use secure_guard.Base.Result.{ok, err}
use secure_guard.Error.{protocol}
use secure_guard.Net.{SocketAddr, IpAddr, IpNet}
use secure_guard.Messages.{
  get_message_type, handshake_initiation, handshake_response, cookie_reply, transport_data,
}
use secure_guard.Crypto.{Primitives}
use secure_guard.Peer.Manager.{PeerManager}
use secure_guard.Peer.Manager
use secure_guard.Server.{
  WireGuardServer, Effect, add_route, remove_route, added, removed, Outcome, active_peers,
  with_peers, event, routes,
}
use secure_guard.Server.Inputs.{Inputs}
use secure_guard.Server.Handshake.{handle_handshake_initiation}
use secure_guard.Server.Traffic.{handle_transport_packet, handle_tun_packet}

unfoldable pub handle_udp_packet :
    Primitives → WireGuardServer → List ℕ → SocketAddr → Inputs → Outcome
handle_udp_packet p s [] from inp = (s, [], ok tt)
handle_udp_packet p s (b ∷ bs) from inp = elim (get_message_type (b ∷ bs)) [
  | err e ↦ (s, [], err (protocol e))
  | ok t ↦ elim t [
    | handshake_initiation ↦ handle_handshake_initiation p s (b ∷ bs) from inp
    | transport_data ↦ handle_transport_packet p s (b ∷ bs) from inp
    | handshake_response ↦ (s, [], ok tt)
    | cookie_reply ↦ (s, [], ok tt)
  ]
]

unfoldable pub handle_add_peer : WireGuardServer → List ℕ → Option (List ℕ) → List IpNet → Outcome
handle_add_peer s public_key psk allowed_ips = (
  with_peers s (Manager.add_peer (active_peers s) public_key psk allowed_ips),
  routes add_route allowed_ips ++ event s (added public_key allowed_ips),
  ok tt,
)

abbrev pub is_some {ℓ} : {A : Type ℓ} → Option A → Bool
is_some none = false
is_some (some a) = true

unfoldable pub handle_remove_peer : WireGuardServer → List ℕ → Outcome
handle_remove_peer s public_key =
    let (m, gone) = Manager.remove_peer (active_peers s) public_key in
    elim gone [
      | none ↦ (with_peers s m, [], ok tt)
      | some peer ↦ (
        with_peers s m,
        routes remove_route peer.allowed_ips ++ event s (removed public_key (is_some peer.session)),
        ok tt,
      )
    ]

-- What the event loop waits for. Read errors and the rekey tick change nothing.
pub data Event : Type 0 where
  tun_packet : List ℕ → Event
  udp_packet : List ℕ → SocketAddr → Event
  add_request : List ℕ → Option (List ℕ) → List IpNet → Event
  remove_request : List ℕ → Event
  read_error rekey_tick : Event

-- One round of `event_loop`; the result of the handler is only logged.
unfoldable pub step :
    Primitives → (IpNet → IpAddr → Bool) → WireGuardServer → Event → Inputs → Outcome
step p contains s (tun_packet packet) inp = handle_tun_packet p contains s packet inp
step p contains s (udp_packet packet from) inp = handle_udp_packet p s packet from inp
step p contains s (add_request key psk ips) inp = handle_add_peer s key psk ips
step p contains s (remove_request key) inp = handle_remove_peer s key
step p contains s read_error inp = (s, [], ok tt)
step p contains s rekey_tick inp = (s, [], ok tt)

-- The rounds of `event_loop`, each with what it takes from outside.
unfoldable pub run :
    Primitives
    → (IpNet → IpAddr → Bool)
    → WireGuardServer
    → List (Event × Inputs)
    → WireGuardServer × List Effect
run p contains s [] = (s, [])
run p contains s ((event, inp) ∷ rounds) =
    let (s', effects, result) = step p contains s event inp in
    let (s'', more) = run p contains s' rounds in (s'', effects ++ more)
