-- ===== src/Peer.antt =====
-- src/protocol/session.rs: `PeerState`, what the server knows of one peer.
pub mod Manager
pub mod Timestamps
use secure_guard.Base.{
  ℕ, Bool, true, false, ◌||◌, ltb, ◌==◌, if◌then◌else◌, List, [], ◌∷◌, Option, none, some,
}
use secure_guard.Net.{IpAddr, v4, IpNet, SocketAddr}
use secure_guard.Session.{Session, TrafficStats, no_traffic}
use secure_guard.Session.Slots.{Place, at_current, at_previous, unexpired, displaced, find_in}

pub record PeerState : Type 0 where
  pub public_key : List ℕ
  pub psk : Option (List ℕ)
  pub allowed_ips : List IpNet
  pub session : Option Session
  pub previous_session : Option Session
  pub endpoint : Option SocketAddr
  pub last_timestamp : Option (List ℕ)
  pub traffic_stats : TrafficStats
  pub last_handshake : Option ℕ

unfoldable pub new : List ℕ → Option (List ℕ) → List IpNet → PeerState
new public_key psk allowed_ips = record {
  public_key = public_key;
  psk = psk;
  allowed_ips = allowed_ips;
  session = none;
  previous_session = none;
  endpoint = none;
  last_timestamp = none;
  traffic_stats = no_traffic;
  last_handshake = none;
}

unfoldable pub current_session : PeerState → ℕ → Option Session
current_session s now = unexpired s.session now

unfoldable pub has_session : PeerState → ℕ → Bool
has_session s now = elim (unexpired s.session now) [ none ↦ false | some x ↦ true ]

unfoldable pub find_session_by_index : PeerState → ℕ → ℕ → Option (Place × Session)
find_session_by_index s index now = find_in s.session s.previous_session index now

-- The write through the reference that `find_session_by_index` returns.
unfoldable pub set_session_at : PeerState → Place → Session → PeerState
set_session_at s at_current x = record s { session = some x }
set_session_at s at_previous x = record s { previous_session = some x }

unfoldable pub establish_session : PeerState → Session → ℕ → PeerState
establish_session s session now = record s {
  session = some session;
  previous_session = displaced s.session s.previous_session;
  last_handshake = some now;
}

-- `IpNet::contains` is the crate's.
abbrev pub any_contains : (IpNet → IpAddr → Bool) → List IpNet → IpAddr → Bool
any_contains contains [] ip = false
any_contains contains (net ∷ nets) ip = contains net ip || any_contains contains nets ip

unfoldable pub allows_ip : (IpNet → IpAddr → Bool) → PeerState → ℕ → Bool
allows_ip contains s ip = any_contains contains s.allowed_ips (v4 ip)

-- Byte arrays compare lexicographically.
unfoldable pub bytes_le : List ℕ → List ℕ → Bool
bytes_le [] ys = true
bytes_le (x ∷ xs) [] = false
bytes_le (x ∷ xs) (y ∷ ys) = if ltb x y then true else if x == y then bytes_le xs ys else false

abbrev pub is_stale : Option (List ℕ) → List ℕ → Bool
is_stale none timestamp = false
is_stale (some last) timestamp = bytes_le timestamp last

unfoldable pub validate_timestamp : PeerState → List ℕ → PeerState × Bool
validate_timestamp s timestamp =
    if is_stale s.last_timestamp timestamp
    then (s, false)
    else (record s { last_timestamp = some timestamp }, true)
