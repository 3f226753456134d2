-- ===== src/Daemon/Hosting/Changes.antt =====
-- From a request that adds or removes a peer to what is told of the peer then.
use secure_guard.Base.{
  ℕ, Bool, false, if◌then◌else◌, List, map, Option, none, some, String, ◌≡◌, refl, ap, ◌∙◌,
}
use secure_guard.Base.Result.{ok, err}
use secure_guard.Base.HashMap.{key_eq, beq_refl}
use secure_guard.Net.{IpNet}
use secure_guard.Config.Parser.{Syntax}
use secure_guard.Session.{no_traffic}
use secure_guard.Peer
use secure_guard.Peer.{PeerState}
use secure_guard.Peer.Manager
use secure_guard.Server.{active_peers}
use secure_guard.Daemon.{peer_not_found}
use secure_guard.Daemon.Hosting.{
  Hosted, take_update, settle, Writing, PeerInfo, AddPeerRequest, check_server, peer_info,
  decode_public_key, parse_allowed_ips, handle_peer_status, handle_add_peer, handle_remove_peer,
}
use secure_guard.Daemon.Hosting.Peers.{
  get_peer-take_add, get_peer-take_remove, handle_add_peer-ok, handle_remove_peer-ok,
  handle_peer_status-eq,
}

-- What is told of a peer that is new.
abbrev pub new_info : Writing → String → List IpNet → PeerInfo
new_info wr public_key ips = record {
  public_key = public_key;
  endpoint = none;
  allowed_ips = map wr.write_net ips;
  has_session = false;
  last_handshake = none;
  bytes_sent = 0;
  bytes_received = 0;
}

-- The peers of the server when it has taken what is on its way.
abbrev pub settled_peer : Hosted → List ℕ → Option PeerState
settled_peer h key = Manager.get_peer (active_peers (settle h).server) key

-- After the request `request` was answered, in the world `h'`: the peer is told of as a new one,
-- and the others are what they would have been without.
pub record IsAdded (x : Syntax) (wr : Writing) (now : String) (request : AddPeerRequest)
    (h h' : Hosted) : Type 0 where
  pub key : List ℕ
  pub psk : Option (List ℕ)
  pub ips : List IpNet
  pub decoded : decode_public_key x request.public_key ≡ ok key
  pub parsed : parse_allowed_ips x wr request.allowed_ips ≡ ok ips
  pub told :
      handle_peer_status x wr now request.public_key (settle h')
      ≡ ok (new_info wr request.public_key ips)
  pub peers :
      (other : List ℕ)
      → settled_peer h' other
        ≡ (if key_eq.beq key other then some (Peer.new key psk ips) else settled_peer h other)

-- A request to add a peer that is answered with success: when the server has taken the updates,
-- the peer is told of with the networks of the request, without endpoint, session and traffic,
-- whether or not there was a peer with this key, and all other peers are as they would have been
-- without the request.
pub handle_add_peer-IsAdded :
    (x : Syntax) (wr : Writing) (now : String) (request : AddPeerRequest) (h : Hosted)
    (answer : String)
    → (handle_add_peer x wr request h).2 ≡ ok answer
    → IsAdded x wr now request h (handle_add_peer x wr request h).0
unfolding settle peer_info Peer.new no_traffic
handle_add_peer-IsAdded x wr now request h answer e =
    let (update, r, sent) = handle_add_peer-ok x wr request h answer e in
    let h' = (handle_add_peer x wr request h).0 in
    let peers = λ (other : List ℕ).
      ap (λ s. Manager.get_peer (active_peers s) other)
        (sent.server ∙ ap (λ u. (take_update (settle h).server u).0) r.same)
      ∙ get_peer-take_add (settle h).server r.key r.psk r.ips other in
    let here : settled_peer h' r.key ≡ some (Peer.new r.key r.psk r.ips) =
      peers r.key ∙ rw (beq_refl r.key) refl in
    record {
      key = r.key;
      psk = r.psk;
      ips = r.ips;
      decoded = r.decoded;
      parsed = r.parsed;
      told =
          handle_peer_status-eq x wr now request.public_key (settle h') r.key
            (ap check_server sent.daemon ∙ r.serves) r.decoded
          ∙ rw here refl;
      peers = peers;
    }

-- After the request to remove a peer was answered, in the world `h'`.
pub record IsRemoved (x : Syntax) (wr : Writing) (now public_key : String) (h h' : Hosted)
    : Type 0 where
  pub key : List ℕ
  pub decoded : decode_public_key x public_key ≡ ok key
  pub told :
      handle_peer_status x wr now public_key (settle h')
      ≡ err (record { code = peer_not_found; message = "Peer not found" })
  pub peers :
      (other : List ℕ)
      → settled_peer h' other ≡ (if key_eq.beq key other then none else settled_peer h other)

-- A request to remove a peer that is answered with success: when the server has taken the updates,
-- nothing is told of the peer, whether or not it was there before, and all other peers are as they
-- would have been without the request.
pub handle_remove_peer-IsRemoved :
    (x : Syntax) (wr : Writing) (now public_key : String) (h : Hosted) (answer : String × Bool)
    → (handle_remove_peer x public_key h).2 ≡ ok answer
    → IsRemoved x wr now public_key h (handle_remove_peer x public_key h).0
unfolding settle
handle_remove_peer-IsRemoved x wr now public_key h answer e =
    let (key, serves, decoded, sent) = handle_remove_peer-ok x public_key h answer e in
    let h' = (handle_remove_peer x public_key h).0 in
    let peers = λ (other : List ℕ).
      ap (λ s. Manager.get_peer (active_peers s) other) sent.server
      ∙ get_peer-take_remove (settle h).server key other in
    let here : settled_peer h' key ≡ none = peers key ∙ rw (beq_refl key) refl in
    record {
      key = key;
      decoded = decoded;
      told =
          handle_peer_status-eq x wr now public_key (settle h') key
            (ap check_server sent.daemon ∙ serves) decoded
          ∙ rw here refl;
      peers = peers;
    }
