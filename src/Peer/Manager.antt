-- ===== src/Peer/Manager.antt =====
-- src/protocol/session.rs: `PeerManager`, the peers by public key and the index of sessions.
-- A `&mut PeerState` that a method hands out is the peer with its key, under which the caller
-- writes it back by `set_peer`.
pub mod Index
pub mod Registered
pub mod Routing
use secure_guard.Base.{
  ℕ, Bool, true, false, if◌then◌else◌, List, [], ◌∷◌, length, Option, none, some,
}
use secure_guard.Base.HashMap.{HashMap, nat_eq, key_eq, get, insert, remove, values}
use secure_guard.Net.{IpAddr, IpNet}
use secure_guard.Session.{Session}
use secure_guard.Peer.{PeerState, allows_ip}
use secure_guard.Peer

pub record PeerManager : Type 0 where
  pub peers : HashMap (List ℕ) PeerState
  pub index_to_peer : HashMap ℕ (List ℕ)

unfoldable pub new : PeerManager
new = record { peers = []; index_to_peer = [] }

unfoldable pub add_peer : PeerManager → List ℕ → Option (List ℕ) → List IpNet → PeerManager
add_peer m public_key psk allowed_ips = record m {
  peers = insert public_key (Peer.new public_key psk allowed_ips) m.peers;
}

unfoldable pub get_peer : PeerManager → List ℕ → Option PeerState
get_peer m public_key = get public_key m.peers

unfoldable pub set_peer : PeerManager → List ℕ → PeerState → PeerManager
set_peer m public_key peer = record m { peers = insert public_key peer m.peers }

unfoldable pub find_by_index : PeerManager → ℕ → Option (List ℕ × PeerState)
find_by_index m index = elim (get index m.index_to_peer) [
  | none ↦ none
  | some public_key ↦ elim (get public_key m.peers) [
    | none ↦ none
    | some peer ↦ some (public_key, peer)
  ]
]

unfoldable pub find_allowed :
    (IpNet → IpAddr → Bool) → ℕ → HashMap (List ℕ) PeerState → Option (List ℕ × PeerState)
find_allowed contains ip [] = none
find_allowed contains ip ((k, peer) ∷ m) =
    if allows_ip contains peer ip then some (k, peer) else find_allowed contains ip m

unfoldable pub find_by_allowed_ip :
    (IpNet → IpAddr → Bool) → PeerManager → ℕ → Option (List ℕ × PeerState)
unfolding find_allowed
find_by_allowed_ip contains m ip = find_allowed contains ip m.peers

unfoldable pub register_session_index : PeerManager → List ℕ → ℕ → PeerManager
register_session_index m public_key local_index = record m {
  index_to_peer = insert local_index public_key m.index_to_peer;
}

unfoldable pub unregister_session_index : PeerManager → ℕ → PeerManager
unregister_session_index m local_index = record m {
  index_to_peer = remove local_index m.index_to_peer;
}

-- Forgets the index of a session, if there is one.
abbrev pub forget : Option Session → HashMap ℕ (List ℕ) → HashMap ℕ (List ℕ)
forget none m = m
forget (some s) m = remove s.local_index m

unfoldable pub establish_session : PeerManager → List ℕ → Session → ℕ → PeerManager
establish_session m public_key session now = elim (get public_key m.peers) [
  | none ↦ m
  | some peer ↦ record {
    peers = insert public_key (Peer.establish_session peer session now) m.peers;
    index_to_peer = insert session.local_index public_key (forget peer.session m.index_to_peer);
  }
]

unfoldable pub len : PeerManager → ℕ
len m = length m.peers

unfoldable pub is_empty : PeerManager → Bool
is_empty m = elim m.peers [ [] ↦ true | x ∷ xs ↦ false ]

unfoldable pub has_peer : PeerManager → List ℕ → Bool
has_peer m public_key = elim (get public_key m.peers) [ none ↦ false | some x ↦ true ]

connected : HashMap (List ℕ) PeerState → ℕ → List PeerState
connected [] now = []
connected ((k, peer) ∷ m) now =
    if Peer.has_session peer now then peer ∷ connected m now else connected m now

unfoldable pub connected_count : PeerManager → ℕ → ℕ
unfolding connected
connected_count m now = length (connected m.peers now)

unfoldable pub remove_peer : PeerManager → List ℕ → PeerManager × Option PeerState
remove_peer m public_key = elim (get public_key m.peers) [
  | none ↦ (m, none)
  | some peer ↦ (
    record {
      peers = remove public_key m.peers;
      index_to_peer = forget peer.previous_session (forget peer.session m.index_to_peer);
    },
    some peer,
  )
]
