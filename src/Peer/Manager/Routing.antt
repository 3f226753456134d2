-- ===== src/Peer/Manager/Routing.antt =====
-- `find_by_allowed_ip`: the peer it finds is in the map under the key it gives, and allows the
-- address.
use secure_guard.Base.{ℕ, Bool, true, List, [], ◌∷◌, some, ◌≡◌, inl, inr, Bool-cases, arith}
use secure_guard.Base.HashMap.{HashMap, key_eq, get}
use secure_guard.Base.HashMap.Keys.{UniqueKeys}
use secure_guard.Net.{IpAddr, IpNet}
use secure_guard.Peer.{PeerState, allows_ip}
use secure_guard.Peer.Manager.{PeerManager, find_allowed, find_by_allowed_ip}
use secure_guard.Base.{refl}
use secure_guard.Base.HashMap.{insert}

find_allowed-get :
    (contains : IpNet → IpAddr → Bool) (ip : ℕ) (m : HashMap (List ℕ) PeerState) (k : List ℕ)
    (peer : PeerState)
    → UniqueKeys m
    → find_allowed contains ip m ≡ some (k, peer)
    → (get k m ≡ some peer) × (allows_ip contains peer ip ≡ true)
unfolding find_allowed get
find_allowed-get contains ip [] k peer u h = absurd (ground arith)
find_allowed-get contains ip ((j, w) ∷ m) k peer u h = elim (Bool-cases (allows_ip contains w ip)) [
  | inl here ↦ (ground (arith, key_eq.beq_iff j k), ground arith)
  | inr later ↦
      let ih = find_allowed-get contains ip m k peer u.1 (rw later at h) in
      (ground (arith, key_eq.beq_iff j k, ih, u.0), ih.1)
]

pub find_by_allowed_ip-get :
    (contains : IpNet → IpAddr → Bool) (m : PeerManager) (ip : ℕ) (k : List ℕ) (peer : PeerState)
    → UniqueKeys m.peers
    → find_by_allowed_ip contains m ip ≡ some (k, peer)
    → (get k m.peers ≡ some peer) × (allows_ip contains peer ip ≡ true)
unfolding find_by_allowed_ip
find_by_allowed_ip-get contains m ip k peer u h = find_allowed-get contains ip m.peers k peer u h

find_allowed-allows :
    (contains : IpNet → IpAddr → Bool) (ip : ℕ) (m : HashMap (List ℕ) PeerState) (k : List ℕ)
    (peer : PeerState)
    → find_allowed contains ip m ≡ some (k, peer)
    → allows_ip contains peer ip ≡ true
unfolding find_allowed
find_allowed-allows contains ip [] k peer h = absurd (ground arith)
find_allowed-allows contains ip ((j, w) ∷ m) k peer h =
    ground (arith, find_allowed-allows contains ip m k peer)

-- Writing a peer back with its networks leaves the routing as it was.
find_allowed-insert :
    (contains : IpNet → IpAddr → Bool) (ip : ℕ) (m : HashMap (List ℕ) PeerState) (k : List ℕ)
    (peer peer' : PeerState)
    → allows_ip contains peer' ip ≡ allows_ip contains peer ip
    → find_allowed contains ip m ≡ some (k, peer)
    → find_allowed contains ip (insert k peer' m) ≡ some (k, peer')
unfolding find_allowed insert
find_allowed-insert contains ip [] k peer peer' same h = absurd (ground arith)
find_allowed-insert contains ip ((j, w) ∷ m) k peer peer' same h = ground (
  arith,
  key_eq.beq_iff j k,
  find_allowed-allows contains ip ((j, w) ∷ m) k peer h,
  find_allowed-insert contains ip m k peer peer' same,
)

pub find_by_allowed_ip-insert :
    (contains : IpNet → IpAddr → Bool) (m : PeerManager) (ip : ℕ) (k : List ℕ)
    (peer peer' : PeerState)
    → peer'.allowed_ips ≡ peer.allowed_ips
    → find_by_allowed_ip contains m ip ≡ some (k, peer)
    → find_by_allowed_ip contains (record m { peers = insert k peer' m.peers }) ip ≡ some (k, peer')
unfolding find_by_allowed_ip
find_by_allowed_ip-insert contains m ip k peer peer' same h =
    find_allowed-insert contains ip m.peers k peer peer' (unfold allows_ip in rw same refl) h
