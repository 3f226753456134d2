-- ===== src/Peer/Manager/Index.antt =====
-- Finding a peer by the index of a session.
use secure_guard.Base.{ℕ, false, List, Option, none, some, ◌≡◌, ◌≢◌, arith}
use secure_guard.Base.HashMap.{
  HashMap, nat_eq, key_eq, get, get-insert, get-remove, get-insert_self,
}
use secure_guard.Session.{Session, is_expired}
use secure_guard.Session.Slots.{at_current}
use secure_guard.Session.Slots.Found.{find_in_current}
use secure_guard.Peer.{PeerState, find_session_by_index}
use secure_guard.Peer
use secure_guard.Peer.Manager.{
  PeerManager, find_by_index, get_peer, set_peer, establish_session, remove_peer, forget,
}
use secure_guard.Peer.Manager.Registered.{IsConsistent, establish_session-eq, forget_at}

pub find_by_index-get :
    (m : PeerManager) (i : ℕ) (k : List ℕ) (peer : PeerState)
    → find_by_index m i ≡ some (k, peer)
    → (get i m.index_to_peer ≡ some k) × (get k m.peers ≡ some peer)
unfolding find_by_index
find_by_index-get m i k peer h = ground arith

pub find_by_index-some :
    (m : PeerManager) (i : ℕ) (k : List ℕ) (peer : PeerState)
    → get i m.index_to_peer ≡ some k
    → get k m.peers ≡ some peer
    → find_by_index m i ≡ some (k, peer)
unfolding find_by_index
find_by_index-some m i k peer e f = ground arith

-- A peer that is written back is found as before.
pub find_by_index-set_peer :
    (m : PeerManager) (i : ℕ) (k : List ℕ) (peer peer' : PeerState)
    → find_by_index m i ≡ some (k, peer)
    → find_by_index (set_peer m k peer') i ≡ some (k, peer')
unfolding set_peer
find_by_index-set_peer m i k peer peer' h =
    find_by_index-some (set_peer m k peer') i k peer' (find_by_index-get m i k peer h).0
      (get-insert_self k peer' m.peers)

find_by_index-none :
    (m : PeerManager) (i : ℕ) → get i m.index_to_peer ≡ none → find_by_index m i ≡ none
unfolding find_by_index
find_by_index-none m i e = ground arith

-- A session that was established for a known peer is found by its index until it expires: the
-- peer by `find_by_index`, and in it the session as the current one.
pub find_by_index-establish_session :
    (m : PeerManager) (key : List ℕ) (peer : PeerState) (s : Session) (now later : ℕ)
    → get_peer m key ≡ some peer
    → is_expired s later ≡ false
    → (peer' : PeerState) × (find_by_index (establish_session m key s now) s.local_index
        ≡ some (key, peer'))
      × (find_session_by_index peer' s.local_index later ≡ some (at_current, s))
unfolding get_peer find_session_by_index Peer.establish_session
find_by_index-establish_session m key peer s now later found live = (
  Peer.establish_session peer s now,
  rw (establish_session-eq m key peer s now found) (
      find_by_index-some _ s.local_index key (Peer.establish_session peer s now)
        (get-insert_self s.local_index key (forget peer.session m.index_to_peer))
        (get-insert_self key (Peer.establish_session peer s now) m.peers)),
  find_in_current s _ later live,
)

-- A session that a rekey under another index displaces is lost to its index at once, although
-- the peer keeps it as its previous session: a packet that still uses the old index finds no
-- peer.
pub find_by_index-displaced :
    (m : PeerManager) (key : List ℕ) (peer : PeerState) (old s : Session) (now : ℕ)
    → get_peer m key ≡ some peer
    → peer.session ≡ some old
    → old.local_index ≢ s.local_index
    → (find_by_index (establish_session m key s now) old.local_index ≡ none)
      × ((peer' : PeerState) × (get_peer (establish_session m key s now) key ≡ some peer')
          × (peer'.previous_session ≡ some old))
unfolding get_peer Peer.establish_session
find_by_index-displaced m key peer old s now found had differ =
    rw (establish_session-eq m key peer s now found) (
      find_by_index-none _ old.local_index (
          ground (
            arith,
            get-insert s.local_index old.local_index key (forget peer.session m.index_to_peer),
            forget_at peer.session old m.index_to_peer had,
          )),
      (
        Peer.establish_session peer s now,
        get-insert_self key (Peer.establish_session peer s now) m.peers,
        ground arith,
      ),
    )

forget-none :
    (o : Option Session) (idx : HashMap ℕ (List ℕ)) (i : ℕ)
    → get i idx ≡ none
    → get i (forget o idx) ≡ none
forget-none none idx i h = h
forget-none (some s) idx i h = ground (arith, get-remove s.local_index i idx)

-- After a peer was removed from a consistent manager, no index that led to it finds any peer.
pub find_by_index-remove_peer :
    (m : PeerManager) (key : List ℕ) (peer : PeerState) (i : ℕ)
    → IsConsistent m
    → find_by_index m i ≡ some (key, peer)
    → find_by_index (remove_peer m key).0 i ≡ none
unfolding remove_peer
find_by_index-remove_peer m key peer i v h =
    let (indexed, found) = find_by_index-get m i key peer h in
    let (peer', s, found', has, index) = v i key indexed in
    let held : peer.session ≡ some s = ground (arith, found, found', has) in
    let gone : get i (forget peer.session m.index_to_peer) ≡ none =
      rw (← index) (forget_at peer.session s m.index_to_peer held) in
    rw (found, remove_peer)
      (find_by_index-none _ i
        (forget-none peer.previous_session (forget peer.session m.index_to_peer) i gone))
