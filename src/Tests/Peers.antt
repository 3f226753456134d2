-- ===== src/Tests/Peers.antt =====
-- Peers and sessions.
use secure_guard.Base.{ℕ, false, List, [], ◌∷◌, replicate, none, some, ◌≡◌, refl, arith}
use secure_guard.Base.HashMap.{key_eq, nat_eq, get, get-insert_self}
use secure_guard.Net.{SocketAddr, v4}
use secure_guard.Session.{Session, is_expired, from_secs, age}
use secure_guard.Session.Slots.{at_current, at_previous, find_in}
use secure_guard.Peer.Timestamps.{AllNew, Ascending, accepted, accepted-Ascending}
use secure_guard.Peer
use secure_guard.Peer.{PeerState, find_session_by_index}
use secure_guard.Peer.Manager
use secure_guard.Peer.Manager.{
  PeerManager, get_peer, find_by_index, establish_session, remove_peer, add_peer,
}
use secure_guard.Peer.Manager.Registered.{
  IsConsistent, establish_session-eq, new-IsConsistent, add_peer-IsConsistent,
  establish_session-IsConsistent,
}
use secure_guard.Peer.Manager.Index.{find_by_index-establish_session, find_by_index-displaced}

abbrev key : List ℕ
key = replicate 32 1

abbrev home : SocketAddr
home = record { ip = v4 3232235777; port = 51820 }

abbrev first : Session
first = record {
  local_index = 11;
  remote_index = 21;
  transport = record {
    sending_key = replicate 32 2;
    receiving_key = replicate 32 3;
    sending_counter = 0;
    replay_window = record { highest = 0; bitmap = 0 };
  };
  created_at = 0;
  last_sent = 0;
  last_received = 0;
  endpoint = home;
}

abbrev second : Session
second = record first { local_index = 12 }

abbrev empty_manager : PeerManager
empty_manager = Manager.new

abbrev one_peer : PeerManager
one_peer = add_peer empty_manager key none []

abbrev with_session : PeerManager
with_session = establish_session one_peer key first 0

abbrev the_peer : PeerState
the_peer = Peer.new key none []

peer_known : get_peer one_peer key ≡ some the_peer
unfolding get_peer add_peer Manager.new
peer_known = get-insert_self key the_peer []

peer_connected : get_peer with_session key ≡ some (Peer.establish_session the_peer first 0)
unfolding get_peer
peer_connected =
    rw (establish_session-eq one_peer key the_peer first 0 peer_known)
      (get-insert_self key (Peer.establish_session the_peer first 0) one_peer.peers)

live : is_expired first (from_secs 100) ≡ false
unfolding is_expired age
live = refl

find_by_index-establish_session_example :
    (peer' : PeerState) × (find_by_index (establish_session one_peer key first 0) 11
      ≡ some (key, peer'))
    × (find_session_by_index peer' 11 (from_secs 100) ≡ some (at_current, first))
find_by_index-establish_session_example =
    find_by_index-establish_session one_peer key the_peer first 0 (from_secs 100) peer_known live

had_first : (Peer.establish_session the_peer first 0).session ≡ some first
unfolding Peer.establish_session
had_first = refl

find_by_index-displaced_example :
    (find_by_index (establish_session with_session key second 0) 11 ≡ none)
    × ((peer' : PeerState) × (get_peer (establish_session with_session key second 0) key
          ≡ some peer')
        × (peer'.previous_session ≡ some first))
find_by_index-displaced_example =
    find_by_index-displaced with_session key (Peer.establish_session the_peer first 0) first second
      0 peer_connected had_first (omega arith)

no_key : get key empty_manager.peers ≡ none
unfolding Manager.new get
no_key = refl

one_peer-IsConsistent : IsConsistent one_peer
one_peer-IsConsistent = add_peer-IsConsistent empty_manager key none [] no_key new-IsConsistent

with_session-IsConsistent : IsConsistent with_session
with_session-IsConsistent =
    establish_session-IsConsistent one_peer key first 0 one_peer-IsConsistent

first_found : (peer' : PeerState) × (find_by_index with_session 11 ≡ some (key, peer'))
first_found =
    let (peer', e, s) =
      find_by_index-establish_session one_peer key the_peer first 0 (from_secs 100) peer_known
        live in
    (peer', e)

both_slots : find_in (some second) (some first) 11 (from_secs 100) ≡ some (at_previous, first)
unfolding find_in is_expired age
both_slots = refl

accepted-Ascending_example :
    AllNew none (accepted the_peer ((1 ∷ 5 ∷ []) ∷ (1 ∷ 4 ∷ []) ∷ (2 ∷ 0 ∷ []) ∷ []))
    × Ascending (accepted the_peer ((1 ∷ 5 ∷ []) ∷ (1 ∷ 4 ∷ []) ∷ (2 ∷ 0 ∷ []) ∷ []))
unfolding Peer.new
accepted-Ascending_example =
    accepted-Ascending the_peer ((1 ∷ 5 ∷ []) ∷ (1 ∷ 4 ∷ []) ∷ (2 ∷ 0 ∷ []) ∷ [])
