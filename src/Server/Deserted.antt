-- ===== src/Server/Deserted.antt =====
-- A server without peers.
use secure_guard.Base.{
  ℕ, Bool, List, [], ◌∷◌, ◌++◌, Option, none, ◌≡◌, refl, ap, ap₂, ◌∙◌, inl, inr,
}
use secure_guard.Base.Result.{Result-cases}
use secure_guard.Base.HashMap.{key_eq, nat_eq, get}
use secure_guard.Net.{SocketAddr, IpAddr, IpNet}
use secure_guard.Messages.{
  get_message_type, handshake_initiation, handshake_response, cookie_reply, transport_data,
}
use secure_guard.Messages.Header
use secure_guard.Crypto.{Primitives}
use secure_guard.Peer.{PeerState}
use secure_guard.Peer.Manager
use secure_guard.Peer.Manager.{find_allowed}
use secure_guard.Server.{WireGuardServer, Effect, active_peers, with_peers, parse_ipv4_dest}
use secure_guard.Server.Inputs.{Inputs}
use secure_guard.Server.Invariant.{active-with_peers}
use secure_guard.Server.Handshake.{prepare_response, handle_handshake_initiation}
use secure_guard.Server.Handshake.Answered.{prepare_response-get}
use secure_guard.Server.Traffic.{locate, handle_transport_packet, route_packet, handle_tun_packet}
use secure_guard.Server.Loop.{
  Event, tun_packet, udp_packet, add_request, remove_request, read_error, rekey_tick, step, run,
  handle_udp_packet, handle_remove_peer,
}

-- Not a request to add a peer.
abbrev pub AddsNone : Event → Type 0
AddsNone (tun_packet packet) = Unit {0}
AddsNone (udp_packet packet from) = Unit {0}
AddsNone (add_request key psk ips) = ⊥
AddsNone (remove_request key) = Unit {0}
AddsNone read_error = Unit {0}
AddsNone rekey_tick = Unit {0}

abbrev pub AllAddNone : List (Event × Inputs) → Type 0
AllAddNone [] = Unit {0}
AllAddNone ((event, inp) ∷ rounds) = AddsNone event × AllAddNone rounds

-- The server knows no peer, and asked nothing of the outside.
abbrev pub IsDeserted : WireGuardServer → List Effect → Type 0
IsDeserted s effects = (active_peers s ≡ Manager.new) × (effects ≡ [])

module _ (p : Primitives) (s : WireGuardServer) (inp : Inputs)
    (empty : active_peers s ≡ Manager.new) where
  handle_handshake_initiation-IsDeserted :
      (packet : List ℕ) (from : SocketAddr)
      → IsDeserted
          (handle_handshake_initiation p s packet from inp).0
          (handle_handshake_initiation p s packet from inp).1
  unfolding handle_handshake_initiation Manager.new get
  handle_handshake_initiation-IsDeserted packet from =
      elim (Result-cases (prepare_response p s packet inp)) [
        | inr (e, bad) ↦ rw (bad, handle_handshake_initiation) (empty, refl)
        | inl ((key, response, result), good) ↦
            let (peer, found) = prepare_response-get p s packet inp key response result good in
            absurd (cc found)
      ]

  handle_transport_packet-IsDeserted :
      (packet : List ℕ) (from : SocketAddr)
      → IsDeserted
          (handle_transport_packet p s packet from inp).0
          (handle_transport_packet p s packet from inp).1
  unfolding handle_transport_packet locate Manager.find_by_index Manager.new get
  handle_transport_packet-IsDeserted packet from = elim (Result-cases (Header.from_bytes packet)) [
    | inr (e, bad) ↦ rw (bad, handle_transport_packet) (empty, refl)
    | inl (header, good) ↦ rw (good, empty, handle_transport_packet, locate) (empty, refl)
  ]

  handle_tun_packet-IsDeserted :
      (contains : IpNet → IpAddr → Bool) (packet : List ℕ)
      → IsDeserted
          (handle_tun_packet p contains s packet inp).0
          (handle_tun_packet p contains s packet inp).1
  unfolding handle_tun_packet route_packet Manager.find_by_allowed_ip Manager.new
  handle_tun_packet-IsDeserted contains packet = elim (Result-cases (parse_ipv4_dest packet)) [
    | inr (e, bad) ↦ rw (bad, handle_tun_packet) (empty, refl)
    | inl (dest, good) ↦ rw (good, empty, handle_tun_packet, route_packet) (empty, refl)
  ]

  handle_remove_peer-IsDeserted :
      (key : List ℕ) → IsDeserted (handle_remove_peer s key).0 (handle_remove_peer s key).1
  unfolding handle_remove_peer
  handle_remove_peer-IsDeserted key =
      let gone : Manager.remove_peer (active_peers s) key ≡ (Manager.new, none) =
        unfold Manager.remove_peer Manager.new get in rw empty refl in
      rw (gone, handle_remove_peer)
        (
          ap (λ (r : Manager.PeerManager × Option PeerState). active_peers (with_peers s r.0)) gone
              ∙ active-with_peers s Manager.new,
          refl,
        )

  handle_udp_packet-IsDeserted :
      (packet : List ℕ) (from : SocketAddr)
      → IsDeserted
          (handle_udp_packet p s packet from inp).0
          (handle_udp_packet p s packet from inp).1
  unfolding handle_udp_packet
  handle_udp_packet-IsDeserted [] from = (empty, refl)
  handle_udp_packet-IsDeserted (b ∷ bs) from = elim (Result-cases (get_message_type (b ∷ bs))) [
    | inr (e, bad) ↦ rw (bad, handle_udp_packet) (empty, refl)
    | inl (handshake_initiation, t) ↦
        rw (t, handle_udp_packet) (handle_handshake_initiation-IsDeserted (b ∷ bs) from)
    | inl (transport_data, t) ↦
        rw (t, handle_udp_packet) (handle_transport_packet-IsDeserted (b ∷ bs) from)
    | inl (handshake_response, t) ↦ rw (t, handle_udp_packet) (empty, refl)
    | inl (cookie_reply, t) ↦ rw (t, handle_udp_packet) (empty, refl)
  ]

  step-IsDeserted :
      (contains : IpNet → IpAddr → Bool) (event : Event)
      → AddsNone event
      → IsDeserted (step p contains s event inp).0 (step p contains s event inp).1
  unfolding step
  step-IsDeserted contains (tun_packet packet) adds = handle_tun_packet-IsDeserted contains packet
  step-IsDeserted contains (udp_packet packet from) adds = handle_udp_packet-IsDeserted packet from
  step-IsDeserted contains (add_request key psk ips) adds = absurd adds
  step-IsDeserted contains (remove_request key) adds = handle_remove_peer-IsDeserted key
  step-IsDeserted contains read_error adds = (empty, refl)
  step-IsDeserted contains rekey_tick adds = (empty, refl)

-- A server without peers stays without and asks nothing of the outside, whatever packets and
-- removals come.
pub run-IsDeserted :
    (p : Primitives) (contains : IpNet → IpAddr → Bool) (s : WireGuardServer)
    (rounds : List (Event × Inputs))
    → active_peers s ≡ Manager.new
    → AllAddNone rounds
    → IsDeserted (run p contains s rounds).0 (run p contains s rounds).1
unfolding run
run-IsDeserted p contains s [] empty adds = (empty, refl)
run-IsDeserted p contains s ((event, inp) ∷ rounds) empty adds =
    let (kept, silent) = step-IsDeserted p s inp empty contains event adds.0 in
    let (end, more) =
      run-IsDeserted p contains (step p contains s event inp).0 rounds kept adds.1 in
    (end, ap₂ ◌++◌ silent more)
