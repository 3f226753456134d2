-- ===== src/Peer/Manager/Registered.antt =====
-- The index of sessions agrees with the peers: an index leads to a peer whose current session
-- has that index.
use secure_guard.Base.{
  ℕ, false, ◌==◌, ==_iff, List, Option, none, some, ◌≡◌, refl, ◌∙◌, ◌≢◌, inl, inr, Bool-cases,
  Option-cases, bytes_eq, bytes_eq_iff, arith,
}
use secure_guard.Base.HashMap.{HashMap, nat_eq, key_eq, get, insert, remove, get-insert, get-remove}
use secure_guard.Net.{IpNet}
use secure_guard.Session.{Session}
use secure_guard.Peer.{PeerState}
use secure_guard.Peer
use secure_guard.Peer.Manager.{
  PeerManager, new, add_peer, set_peer, establish_session, remove_peer, forget,
}

-- The peer under key `k` has a current session with index `i`.
abbrev pub Holds : PeerManager → List ℕ → ℕ → Type 0
Holds m k i =
    (peer : PeerState) × (s : Session) × (get k m.peers ≡ some peer)
    × (peer.session ≡ some s)
    × (s.local_index ≡ i)

abbrev pub IsConsistent : PeerManager → Type 0
IsConsistent m = (i : ℕ) (k : List ℕ) → get i m.index_to_peer ≡ some k → Holds m k i

pub new-IsConsistent : IsConsistent new
unfolding new get
new-IsConsistent i k h = absurd (ground arith)

-- A peer under a new key, which no index leads to.
pub add_peer-IsConsistent :
    (m : PeerManager) (key : List ℕ) (psk : Option (List ℕ)) (ips : List IpNet)
    → get key m.peers ≡ none
    → IsConsistent m
    → IsConsistent (add_peer m key psk ips)
unfolding add_peer
add_peer-IsConsistent m key psk ips fresh v i k h =
    let (peer, s, found, has, index) = v i k h in
    (
      peer,
      s,
      ground (arith, get-insert key k (Peer.new key psk ips) m.peers, bytes_eq_iff key k),
      has,
      index,
    )

-- Writing back a peer whose current session keeps its index, or is still missing.
abbrev pub SameIndex : PeerState → PeerState → Type 0
SameIndex old peer =
    (s : Session)
    → old.session ≡ some s
    → (s' : Session) × (peer.session ≡ some s') × (s'.local_index ≡ s.local_index)

pub set_peer-IsConsistent :
    (m : PeerManager) (key : List ℕ) (old peer : PeerState)
    → get key m.peers ≡ some old
    → SameIndex old peer
    → IsConsistent m
    → IsConsistent (set_peer m key peer)
unfolding set_peer
set_peer-IsConsistent m key old peer found same v i k h =
    let (peer', s, found', has, index) = v i k h in
    elim (Bool-cases (bytes_eq key k)) [
      | inl e ↦
          let k_is : key ≡ k = (bytes_eq_iff key k).0 e in
          let was : old.session ≡ some s = ground (arith, k_is, found, found', has) in
          let (s', has', index') = same s was in
          (peer, s', ground (arith, get-insert key k peer m.peers), has', index' ∙ index)
      | inr e ↦ (peer', s, ground (arith, get-insert key k peer m.peers), has, index)
    ]

-- Forgetting an index adds none.
pub forget_sub :
    (o : Option Session) (idx : HashMap ℕ (List ℕ)) (i : ℕ) {k : List ℕ}
    → get i (forget o idx) ≡ some k
    → get i idx ≡ some k
forget_sub none idx i h = h
forget_sub (some s) idx i h = ground (arith, get-remove s.local_index i idx)

pub forget_at :
    (o : Option Session) (s : Session) (idx : HashMap ℕ (List ℕ))
    → o ≡ some s
    → get s.local_index (forget o idx) ≡ none
forget_at o s idx e = rw e (ground (arith, get-remove s.local_index s.local_index idx))

-- Forgetting the index of a peer's session leaves no index of that peer.
pub forget_none :
    (m : PeerManager) (k : List ℕ) (peer : PeerState) (i : ℕ)
    → IsConsistent m
    → get k m.peers ≡ some peer
    → get i (forget peer.session m.index_to_peer) ≢ some k
forget_none m k peer i v found h =
    let (peer', s, found', has, index) = v i k (forget_sub peer.session m.index_to_peer i h) in
    let held : peer.session ≡ some s = ground (arith, found, found', has) in
    ground (arith, forget_at peer.session s m.index_to_peer held, index, h)

pub establish_session-eq :
    (m : PeerManager) (key : List ℕ) (peer : PeerState) (session : Session) (now : ℕ)
    → get key m.peers ≡ some peer
    → establish_session m key session now ≡ record {
      peers = insert key (Peer.establish_session peer session now) m.peers;
      index_to_peer = insert session.local_index key (forget peer.session m.index_to_peer);
    }
unfolding establish_session
establish_session-eq m key peer session now e = rw (e, establish_session)

-- A new session of a peer is indexed, and the index of the session before it is gone.
established-IsConsistent :
    (m : PeerManager) (key : List ℕ) (peer : PeerState) (session : Session) (now : ℕ)
    → get key m.peers ≡ some peer
    → IsConsistent m
    → IsConsistent (record {
      peers = insert key (Peer.establish_session peer session now) m.peers;
      index_to_peer = insert session.local_index key (forget peer.session m.index_to_peer);
    })
unfolding Peer.establish_session
established-IsConsistent m key peer session now found v i k h =
    elim (Bool-cases (session.local_index == i)) [
      | inl new_index ↦
          let k_is : key ≡ k =
            ground
              (arith, get-insert session.local_index i key (forget peer.session m.index_to_peer)) in
          (
            Peer.establish_session peer session now,
            session,
            ground (
              arith,
              k_is,
              bytes_eq_iff key k,
              get-insert key k (Peer.establish_session peer session now) m.peers,
            ),
            refl,
            (==_iff _ _).0 new_index,
          )
      | inr other ↦
          let old : get i (forget peer.session m.index_to_peer) ≡ some k =
            ground
              (arith, get-insert session.local_index i key (forget peer.session m.index_to_peer)) in
          let (peer', s, found', has, index) =
            v i k (forget_sub peer.session m.index_to_peer i old) in
          let differs : bytes_eq key k ≡ false =
            ground (arith, bytes_eq_iff key k, forget_none m k peer i v, found, old) in
          (
            peer',
            s,
            ground (
              arith,
              differs,
              get-insert key k (Peer.establish_session peer session now) m.peers,
            ),
            has,
            index,
          )
    ]

pub establish_session-IsConsistent :
    (m : PeerManager) (key : List ℕ) (session : Session) (now : ℕ)
    → IsConsistent m
    → IsConsistent (establish_session m key session now)
unfolding establish_session
establish_session-IsConsistent m key session now v = elim (Option-cases (get key m.peers)) [
  | inl e ↦ rw (e, establish_session) v
  | inr (peer, e) ↦
      rw (establish_session-eq m key peer session now e)
        (established-IsConsistent m key peer session now e v)
]

removed-IsConsistent :
    (m : PeerManager) (key : List ℕ) (peer : PeerState)
    → get key m.peers ≡ some peer
    → IsConsistent m
    → IsConsistent (record {
      peers = remove key m.peers;
      index_to_peer = forget peer.previous_session (forget peer.session m.index_to_peer);
    })
removed-IsConsistent m key peer found v i k h =
    let old : get i (forget peer.session m.index_to_peer) ≡ some k =
      forget_sub peer.previous_session (forget peer.session m.index_to_peer) i h in
    let (peer', s, found', has, index) = v i k (forget_sub peer.session m.index_to_peer i old) in
    let differs : bytes_eq key k ≡ false =
      ground (arith, bytes_eq_iff key k, forget_none m k peer i v, found, old) in
    (peer', s, ground (arith, differs, get-remove key k m.peers), has, index)

pub remove_peer-IsConsistent :
    (m : PeerManager) (key : List ℕ) → IsConsistent m → IsConsistent (remove_peer m key).0
unfolding remove_peer
remove_peer-IsConsistent m key v = elim (Option-cases (get key m.peers)) [
  | inl e ↦ rw (e, remove_peer) v
  | inr (peer, e) ↦ rw (e, remove_peer) (removed-IsConsistent m key peer e v)
]
