-- ===== src/Daemon/Hosting/Peers.antt =====
-- What the handlers for peers tell and do.
use secure_guard.Base.{
  ℕ, Bool, if◌then◌else◌, List, [], ◌∷◌, ◌++◌, Option, none, some, String, ◌≡◌, refl, ap, ap₂, ◌∙◌,
  inl, inr, Option-cases, arith,
}
use secure_guard.Base.Result.{ok, Result-cases, >>=-eq-ok, ◌>>=◌, ok_or}
use secure_guard.Base.HashMap.{key_eq, get, get-insert, get-remove}
use secure_guard.Net.{IpNet}
use secure_guard.Config.Parser.{Syntax}
use secure_guard.Peer
use secure_guard.Peer.{PeerState}
use secure_guard.Peer.Manager
use secure_guard.Server.{WireGuardServer, active_peers}
use secure_guard.Server.Invariant.{active-with_peers}
use secure_guard.Server.Loop as Loop
use secure_guard.Server.Loop.{Event, run}
use secure_guard.Daemon.{peer_not_found}
use secure_guard.Daemon.Hosting.{
  PeerUpdate, add, remove, Hosted, take_update, take_updates, settle, Writing, AddPeerRequest,
  check_server, peer_info, decode_public_key, decode_psk, parse_allowed_ips, handle_peer_status,
  read_request, handle_add_peer, handle_remove_peer, send_update,
}

take_updates-append :
    (s : WireGuardServer) (updates : List PeerUpdate) (update : PeerUpdate)
    → take_updates s (updates ++ update ∷ []) ≡ (take_update (take_updates s updates) update).0
unfolding take_updates
take_updates-append s [] update = refl
take_updates-append s (first ∷ updates) update =
    take_updates-append (take_update s first).0 updates update

pub get_peer-take_add :
    (s : WireGuardServer) (key : List ℕ) (psk : Option (List ℕ)) (ips : List IpNet) (other : List ℕ)
    → Manager.get_peer (active_peers (take_update s (add key psk ips)).0) other ≡ (
        if key_eq.beq key other
        then some (Peer.new key psk ips)
        else Manager.get_peer (active_peers s) other)
unfolding take_update Loop.handle_add_peer Manager.add_peer Manager.get_peer
get_peer-take_add s key psk ips other =
    ap (λ (m : Manager.PeerManager). get other m.peers)
      (active-with_peers s (Manager.add_peer (active_peers s) key psk ips))
    ∙ get-insert key other (Peer.new key psk ips) (active_peers s).peers

get_peer-remove_peer :
    (m : Manager.PeerManager) (key other : List ℕ)
    → Manager.get_peer (Manager.remove_peer m key).0 other
      ≡ (if key_eq.beq key other then none else Manager.get_peer m other)
unfolding Manager.remove_peer Manager.get_peer
get_peer-remove_peer m key other = elim (Option-cases (get key m.peers)) [
  | inl nobody ↦ ground (arith, key_eq.beq_iff key other)
  | inr (peer, found) ↦ rw (found, Manager.remove_peer) (get-remove key other m.peers)
]

pub get_peer-take_remove :
    (s : WireGuardServer) (key other : List ℕ)
    → Manager.get_peer (active_peers (take_update s (remove key)).0) other
      ≡ (if key_eq.beq key other then none else Manager.get_peer (active_peers s) other)
unfolding take_update Loop.handle_remove_peer
get_peer-take_remove s key other =
    let kept =
      ap (λ (m : Manager.PeerManager). Manager.get_peer m other)
        (active-with_peers s (Manager.remove_peer (active_peers s) key).0)
      ∙ get_peer-remove_peer (active_peers s) key other in
    elim (Option-cases (Manager.remove_peer (active_peers s) key).1) [
      | inl nobody ↦ rw (nobody, Loop.handle_remove_peer) kept
      | inr (peer, gone) ↦ rw (gone, Loop.handle_remove_peer) kept
    ]

-- A request to add a peer that passes the checks: what it reads.
pub record Read (x : Syntax) (wr : Writing) (request : AddPeerRequest) (h : Hosted)
    (update : PeerUpdate) : Type 0 where
  pub key : List ℕ
  pub psk : Option (List ℕ)
  pub ips : List IpNet
  pub serves : check_server h.daemon ≡ ok tt
  pub decoded : decode_public_key x request.public_key ≡ ok key
  pub parsed : parse_allowed_ips x wr request.allowed_ips ≡ ok ips
  pub shared : decode_psk x request.preshared_key ≡ ok psk
  pub same : update ≡ add key psk ips

read_request-Read :
    (x : Syntax) (wr : Writing) (request : AddPeerRequest) (h : Hosted) (update : PeerUpdate)
    → read_request x wr request h ≡ ok update
    → Read x wr request h update
unfolding read_request
read_request-Read x wr request h update e =
    let (u, serves, e₁) = >>=-eq-ok (check_server h.daemon) _ e in
    let (key, decoded, e₂) = >>=-eq-ok (decode_public_key x request.public_key) _ e₁ in
    let (ips, parsed, e₃) = >>=-eq-ok (parse_allowed_ips x wr request.allowed_ips) _ e₂ in
    let (psk, shared, e₄) = >>=-eq-ok (decode_psk x request.preshared_key) _ e₃ in
    record {
      key = key;
      psk = psk;
      ips = ips;
      serves = serves;
      decoded = decoded;
      parsed = parsed;
      shared = shared;
      same = cc e₄;
    }

-- An update that was sent is on its way.
pub record Sent (update : PeerUpdate) (h h' : Hosted) : Type 0 where
  pub daemon : h'.daemon ≡ h.daemon
  pub server : (settle h').server ≡ (take_update (settle h).server update).0

send_update-Sent :
    (update : PeerUpdate) (h h' : Hosted) → send_update update h ≡ ok h' → Sent update h h'
unfolding send_update settle
send_update-Sent update h h' e =
    let server : h'.server ≡ h.server = ground arith in
    let updates : h'.updates ≡ h.updates ++ update ∷ [] = ground arith in
    record {
      daemon = ground arith;
      server = ap₂ take_updates server updates ∙ take_updates-append h.server h.updates update;
    }

-- The world after a request to add a peer was answered with success.
pub handle_add_peer-ok :
    (x : Syntax) (wr : Writing) (request : AddPeerRequest) (h : Hosted) (answer : String)
    → (handle_add_peer x wr request h).2 ≡ ok answer
    → (update : PeerUpdate) × Read x wr request h update
      × Sent update h (handle_add_peer x wr request h).0
unfolding handle_add_peer
handle_add_peer-ok x wr request h answer e =
    elim (Result-cases (read_request x wr request h >>= λ update. send_update update h)) [
      | inr (why, bad) ↦ absurd (ground arith)
      | inl (h', good) ↦
          let (update, read, sent) = >>=-eq-ok (read_request x wr request h) _ good in
          (
            update,
            read_request-Read x wr request h update read,
            rw (good, handle_add_peer) (send_update-Sent update h h' sent),
          )
    ]

-- The world after a request to remove a peer was answered with success.
pub handle_remove_peer-ok :
    (x : Syntax) (public_key : String) (h : Hosted) (answer : String × Bool)
    → (handle_remove_peer x public_key h).2 ≡ ok answer
    → (key : List ℕ) × (check_server h.daemon ≡ ok tt)
      × (decode_public_key x public_key ≡ ok key)
      × Sent (remove key) h (handle_remove_peer x public_key h).0
unfolding handle_remove_peer
handle_remove_peer-ok x public_key h answer e =
    elim (Result-cases (check_server h.daemon >>= λ serves. decode_public_key x public_key)) [
      | inr (why, bad) ↦ absurd (ground arith)
      | inl (key, good) ↦
          let (serves, runs, decoded) = >>=-eq-ok (check_server h.daemon) _ good in
          elim (Result-cases (send_update (remove key) h)) [
            | inr (why, deaf) ↦ absurd (ground arith)
            | inl (h', sent) ↦ (
              key,
              runs,
              decoded,
              rw (good, sent, handle_remove_peer) (send_update-Sent (remove key) h h' sent),
            )
          ]
    ]

-- The status of a peer, from the peers that the server has.
pub handle_peer_status-eq :
    (x : Syntax) (wr : Writing) (now text : String) (h : Hosted) (key : List ℕ)
    → check_server h.daemon ≡ ok tt
    → decode_public_key x text ≡ ok key
    → handle_peer_status x wr now text h ≡ (
        ok_or
          (Manager.get_peer (active_peers h.server) key)
          (record { code = peer_not_found; message = "Peer not found" })
        >>= λ peer. ok (peer_info wr now text peer))
unfolding handle_peer_status
handle_peer_status-eq x wr now text h key serves decoded =
    rw (serves, decoded, handle_peer_status) refl
