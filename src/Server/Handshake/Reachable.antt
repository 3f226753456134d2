-- ===== src/Server/Handshake/Reachable.antt =====
-- The server routes to a peer whose initiation it answered as it did before.
use mathlib.Core.Option
use secure_guard.Base.{
  ℕ, Bool, List, Option, none, some, ◌≡◌, refl, sym, ap, ◌∙◌, inl, inr, Option-cases, arith,
}
use secure_guard.Base.Result.{ok}
use secure_guard.Base.HashMap.{nat_eq, key_eq, get, insert, get-insert_self}
use secure_guard.Net.{SocketAddr, IpAddr, IpNet}
use secure_guard.Crypto.{Primitives}
use secure_guard.Messages.Response.{HandshakeResponse}
use secure_guard.Handshake.{HandshakeResult}
use secure_guard.Peer.{PeerState}
use secure_guard.Peer
use secure_guard.Peer.Manager.{PeerManager, forget}
use secure_guard.Peer.Manager
use secure_guard.Peer.Manager.Routing.{find_by_allowed_ip-insert}
use secure_guard.Server.{WireGuardServer, active_peers}
use secure_guard.Server.Inputs.{Inputs}
use secure_guard.Server.Invariant.{active-with_peers}
use secure_guard.Server.Handshake.{prepare_response, enter_session, handle_handshake_initiation}
use secure_guard.Server.Handshake.Answered.{Entered, entered, enter_session-eq}

-- The peer after its session was entered.
abbrev answered : PeerState → HandshakeResult → SocketAddr → ℕ → PeerState
answered peer result from now = record (Peer.establish_session peer (entered result from now) now) {
  endpoint = some from;
}

get-find_by_index :
    (m : PeerManager) (index : ℕ) (key : List ℕ) (peer : PeerState)
    → Manager.find_by_index m index ≡ some (key, peer)
    → get key m.peers ≡ some peer
unfolding Manager.find_by_index
get-find_by_index m index key peer h = elim (Option-cases (get index m.index_to_peer)) [
  | inl nobody ↦ absurd (ground arith)
  | inr (k, e) ↦ elim (Option-cases (get k m.peers)) [
    | inl gone ↦ absurd (ground arith)
    | inr (found, g) ↦
        let same : (k ≡ key) × (found ≡ peer) = ground arith in rw (← same.0) (rw (← same.1) g)
  ]
]

module _ (m : PeerManager) (key : List ℕ) (result : HandshakeResult) (from : SocketAddr) (now : ℕ)
    (peer : PeerState) (found : get key m.peers ≡ some peer) where
  get-enter_session :
      get key (enter_session m key result from now).peers ≡ some (answered peer result from now)
  get-enter_session =
      rw (enter_session-eq m key result from now peer found)
        (get-insert_self key (answered peer result from now) _)

  find_by_allowed_ip-enter_session :
      (contains : IpNet → IpAddr → Bool) (ip : ℕ)
      → Manager.find_by_allowed_ip contains m ip ≡ some (key, peer)
      → Manager.find_by_allowed_ip contains (enter_session m key result from now) ip
        ≡ some (key, answered peer result from now)
  unfolding Peer.establish_session Manager.find_by_allowed_ip
  find_by_allowed_ip-enter_session contains ip routed =
      rw (enter_session-eq m key result from now peer found) (
        find_by_allowed_ip-insert contains
          (record m {
            peers = insert key (Peer.establish_session peer (entered result from now) now) m.peers;
          })
          ip key (Peer.establish_session peer (entered result from now) now)
          (answered peer result from now) refl
          (find_by_allowed_ip-insert contains m ip key peer _ refl routed))

-- A peer that packets to an address are routed to, and whose initiation was answered, is what
-- they are routed to afterwards, with its new session.
pub find_by_allowed_ip-Entered :
    (p : Primitives) (contains : IpNet → IpAddr → Bool) (s : WireGuardServer) (packet : List ℕ)
    (from : SocketAddr) (inp : Inputs) (key : List ℕ) (response : HandshakeResponse)
    (result result' : HandshakeResult) (ip : ℕ) (peer : PeerState)
    → prepare_response p s packet inp ≡ ok (key, response, result)
    → inp.send_error ≡ none
    → Manager.get_peer (active_peers s) key ≡ some peer
    → Manager.find_by_allowed_ip contains (active_peers s) ip ≡ some (key, peer)
    → (e : Entered
        (active_peers (handle_handshake_initiation p s packet from inp).0)
        key
        result'
        from
        inp.now)
    → Manager.find_by_allowed_ip contains
        (active_peers (handle_handshake_initiation p s packet from inp).0)
        ip
      ≡ some (key, e.peer)
unfolding Manager.get_peer handle_handshake_initiation
find_by_allowed_ip-Entered p contains s packet from inp key response result result' ip peer prepared
      sent found routed e =
    let m = active_peers s in
    let m' = active_peers (handle_handshake_initiation p s packet from inp).0 in
    let here : m' ≡ enter_session m key result from inp.now =
      rw (prepared, sent, handle_handshake_initiation) (active-with_peers s _) in
    let held : some (answered peer result from inp.now) ≡ some e.peer =
      sym (get-enter_session m key result from inp.now peer found)
      ∙ ap (λ (n : PeerManager). get key n.peers) (sym here)
      ∙ get-find_by_index m' result'.local_index key e.peer e.found in
    rw here
      (find_by_allowed_ip-enter_session m key result from inp.now peer found contains ip routed)
    ∙ ap (λ (o : Option PeerState). Option.map (λ q. (key, q)) o) held
