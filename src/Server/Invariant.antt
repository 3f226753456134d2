-- ===== src/Server/Invariant.antt =====
-- The peers of the server stay consistent, whatever packets and requests come.
pub mod Steps
pub mod Rounds
use secure_guard.Base.{ℕ, List, Option, none, some, ◌≡◌, refl, inl, inr, Option-cases, arith}
use secure_guard.Base.HashMap.{key_eq, nat_eq, get}
use secure_guard.Base.HashMap.Keys.{UniqueKeys, insert-UniqueKeys, remove-UniqueKeys}
use secure_guard.Net.{IpNet, SocketAddr}
use secure_guard.Session.{Session, TrafficStats}
use secure_guard.Peer.{PeerState}
use secure_guard.Peer
use secure_guard.Peer.Manager.{PeerManager}
use secure_guard.Peer.Manager
use secure_guard.Peer.Manager.Registered.{
  IsConsistent, SameIndex, set_peer-IsConsistent, add_peer-IsConsistent,
  establish_session-IsConsistent, remove_peer-IsConsistent,
}
use secure_guard.Handshake.{HandshakeResult}
use secure_guard.Server.{WireGuardServer, active_peers, with_peers, with_stats}
use secure_guard.Server.Handshake.{set_endpoint, enter_session}

pub active-with_peers : (s : WireGuardServer) (m : PeerManager) → active_peers (with_peers s m) ≡ m
active-with_peers s m = ground arith

pub active-with_stats :
    (s : WireGuardServer) (f : TrafficStats → TrafficStats)
    → active_peers (with_stats s f) ≡ active_peers s
active-with_stats s f = ground arith

-- Each peer has one entry, and the index of sessions is that of the current sessions.
pub record IsRegistered (m : PeerManager) : Type 0 where
  pub consistent : IsConsistent m
  pub unique : UniqueKeys m.peers

pub set_peer-IsRegistered :
    (m : PeerManager) (k : List ℕ) (old peer : PeerState)
    → get k m.peers ≡ some old
    → SameIndex old peer
    → IsRegistered m
    → IsRegistered (Manager.set_peer m k peer)
unfolding Manager.set_peer
set_peer-IsRegistered m k old peer found same v = record {
  consistent = set_peer-IsConsistent m k old peer found same v.consistent;
  unique = insert-UniqueKeys k peer m.peers v.unique;
}

pub add_peer-IsRegistered :
    (m : PeerManager) (k : List ℕ) (psk : Option (List ℕ)) (ips : List IpNet)
    → get k m.peers ≡ none
    → IsRegistered m
    → IsRegistered (Manager.add_peer m k psk ips)
unfolding Manager.add_peer
add_peer-IsRegistered m k psk ips fresh v = record {
  consistent = add_peer-IsConsistent m k psk ips fresh v.consistent;
  unique = insert-UniqueKeys k (Peer.new k psk ips) m.peers v.unique;
}

establish_session-UniqueKeys :
    (m : PeerManager) (k : List ℕ) (session : Session) (now : ℕ)
    → UniqueKeys m.peers
    → UniqueKeys (Manager.establish_session m k session now).peers
unfolding Manager.establish_session
establish_session-UniqueKeys m k session now u = elim (Option-cases (get k m.peers)) [
  | inl e ↦ rw (e, Manager.establish_session) u
  | inr (peer, e) ↦
      rw (e, Manager.establish_session)
        (insert-UniqueKeys k (Peer.establish_session peer session now) m.peers u)
]

remove_peer-UniqueKeys :
    (m : PeerManager) (k : List ℕ)
    → UniqueKeys m.peers
    → UniqueKeys (Manager.remove_peer m k).0.peers
unfolding Manager.remove_peer
remove_peer-UniqueKeys m k u = elim (Option-cases (get k m.peers)) [
  | inl e ↦ rw (e, Manager.remove_peer) u
  | inr (peer, e) ↦ rw (e, Manager.remove_peer) (remove-UniqueKeys k m.peers u)
]

pub remove_peer-IsRegistered :
    (m : PeerManager) (k : List ℕ) → IsRegistered m → IsRegistered (Manager.remove_peer m k).0
remove_peer-IsRegistered m k v = record {
  consistent = remove_peer-IsConsistent m k v.consistent;
  unique = remove_peer-UniqueKeys m k v.unique;
}

set_endpoint-IsRegistered :
    (m : PeerManager) (k : List ℕ) (from : SocketAddr)
    → IsRegistered m
    → IsRegistered (set_endpoint m k from)
unfolding set_endpoint Manager.get_peer
set_endpoint-IsRegistered m k from v = elim (Option-cases (get k m.peers)) [
  | inl e ↦ rw (e, set_endpoint) v
  | inr (peer, e) ↦
      rw (e, set_endpoint)
        (set_peer-IsRegistered m k peer (record peer { endpoint = some from }) e
          (λ s h. (s, h, refl)) v)
]

pub enter_session-IsRegistered :
    (m : PeerManager) (k : List ℕ) (result : HandshakeResult) (from : SocketAddr) (now : ℕ)
    → IsRegistered m
    → IsRegistered (enter_session m k result from now)
unfolding enter_session
enter_session-IsRegistered m k result from now v = set_endpoint-IsRegistered _ k from (record {
  consistent = establish_session-IsConsistent m k _ now v.consistent;
  unique = establish_session-UniqueKeys m k _ now v.unique;
})
