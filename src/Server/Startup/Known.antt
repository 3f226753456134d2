-- ===== src/Server/Startup/Known.antt =====
-- The peers that a server knows from its start on.
use secure_guard.Base.{ℕ, true, List, [], ◌∷◌, Option, ◌≡◌, refl, inl, inr, arith}
use secure_guard.Base.Result.{ok, Result-cases}
use secure_guard.Base.HashMap.{key_eq, nat_eq, get-insert, get-insert_self}
use secure_guard.Net.{IpNet}
use secure_guard.Config.{WireGuardConfig, PeerConfig}
use secure_guard.Crypto.{Primitives}
use secure_guard.Peer
use secure_guard.Peer.Manager.{PeerManager}
use secure_guard.Peer.Manager
use secure_guard.Server.{WireGuardServer, active_peers}
use secure_guard.Server.Startup.{Surroundings, open_server, add_peers, new}

-- Each of the listed peers is known.
abbrev pub AllKnown : List PeerConfig → PeerManager → Type 0
AllKnown [] m = Unit {0}
AllKnown (peer ∷ peers) m = (Manager.has_peer m peer.public_key ≡ true) × AllKnown peers m

has_peer-add_peer :
    (m : PeerManager) (key : List ℕ) (peer : PeerConfig)
    → Manager.has_peer m key ≡ true
    → Manager.has_peer (Manager.add_peer m peer.public_key peer.preshared_key peer.allowed_ips) key
      ≡ true
unfolding Manager.has_peer Manager.add_peer
has_peer-add_peer m key peer h = ground (
  arith,
  get-insert peer.public_key key (Peer.new peer.public_key peer.preshared_key peer.allowed_ips)
      m.peers,
)

add_peers-kept :
    (peers : List PeerConfig) (m : PeerManager) (key : List ℕ)
    → Manager.has_peer m key ≡ true
    → Manager.has_peer (add_peers peers m) key ≡ true
unfolding add_peers
add_peers-kept [] m key h = h
add_peers-kept (peer ∷ peers) m key h = add_peers-kept peers _ key (has_peer-add_peer m key peer h)

has_peer-add_peer_self :
    (m : PeerManager) (key : List ℕ) (psk : Option (List ℕ)) (ips : List IpNet)
    → Manager.has_peer (Manager.add_peer m key psk ips) key ≡ true
unfolding Manager.has_peer Manager.add_peer
has_peer-add_peer_self m key psk ips =
    rw (get-insert_self key (Peer.new key psk ips) m.peers, Manager.has_peer) refl

add_peers-AllKnown :
    (peers : List PeerConfig) (m : PeerManager) → AllKnown peers (add_peers peers m)
unfolding add_peers
add_peers-AllKnown [] m = tt
add_peers-AllKnown (peer ∷ peers) m =
    let m' = Manager.add_peer m peer.public_key peer.preshared_key peer.allowed_ips in
    (
      add_peers-kept peers m' peer.public_key
          (has_peer-add_peer_self m peer.public_key peer.preshared_key peer.allowed_ips),
      add_peers-AllKnown peers m',
    )

-- A server that stands alone knows from its start on every peer that its configuration lists.
pub new-AllKnown :
    (p : Primitives) (x : Surroundings) (c : WireGuardConfig) (s : WireGuardServer)
    → (new p x c).1 ≡ ok s
    → AllKnown c.peers (active_peers s)
unfolding new
new-AllKnown p x c s h = elim (Result-cases (open_server x c).1) [
  | inr (e, bad) ↦ absurd (ground arith)
  | inl (done, good) ↦
      let held : active_peers s ≡ add_peers c.peers Manager.new = ground arith in
      rw held (add_peers-AllKnown c.peers Manager.new)
]
