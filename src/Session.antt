-- ===== src/Session.antt =====
-- src/protocol/session.rs: traffic counters and the state of one session. Time is a number of
-- nanoseconds on the monotonic clock; an operation that reads the clock takes the reading as
-- its argument `now`, and `elapsed` stops at 0 as `Instant::elapsed` does.
pub mod Slots
pub mod Manager
use secure_guard.Base.{ℕ, ◌+◌, ◌-◌, ◌*◌, ◌^◌, Bool, ◌||◌, leb, List, String}
use secure_guard.Base.Words.{wrap_u64}
use secure_guard.Net.{SocketAddr}
use secure_guard.Transport
use secure_guard.Transport.{TransportState}

-- `fetch_add` on an `AtomicU64` wraps.
pub record TrafficStats : Type 0 where
  pub bytes_sent : ℕ
  pub bytes_received : ℕ

unfoldable pub no_traffic : TrafficStats
no_traffic = record { bytes_sent = 0; bytes_received = 0 }

unfoldable pub add_sent : TrafficStats → ℕ → TrafficStats
add_sent s bytes = record s { bytes_sent = wrap_u64 (s.bytes_sent + bytes) }

unfoldable pub add_received : TrafficStats → ℕ → TrafficStats
add_received s bytes = record s { bytes_received = wrap_u64 (s.bytes_received + bytes) }

unfoldable pub reset : TrafficStats → TrafficStats
reset s = record { bytes_sent = 0; bytes_received = 0 }

-- `Duration::from_secs`.
abbrev pub from_secs : ℕ → ℕ
from_secs s = s * 1_000_000_000

abbrev pub rekey_after_time : ℕ
rekey_after_time = from_secs 120

abbrev pub reject_after_time : ℕ
reject_after_time = from_secs 180

abbrev pub rekey_timeout : ℕ
rekey_timeout = from_secs 5

abbrev pub keepalive_timeout : ℕ
keepalive_timeout = from_secs 10

abbrev pub elapsed : ℕ → ℕ → ℕ
elapsed now since = now - since

pub record Session : Type 0 where
  pub local_index : ℕ
  pub remote_index : ℕ
  pub transport : TransportState
  pub created_at : ℕ
  pub last_sent : ℕ
  pub last_received : ℕ
  pub endpoint : SocketAddr

unfoldable pub new : ℕ → ℕ → List ℕ → List ℕ → SocketAddr → ℕ → Session
new local_index remote_index sending_key receiving_key endpoint now = record {
  local_index = local_index;
  remote_index = remote_index;
  transport = Transport.new sending_key receiving_key;
  created_at = now;
  last_sent = now;
  last_received = now;
  endpoint = endpoint;
}

unfoldable pub age : Session → ℕ → ℕ
age s now = elapsed now s.created_at

unfoldable pub needs_rekey : Session → ℕ → Bool
unfolding age
needs_rekey s now = leb rekey_after_time (age s now) || Transport.needs_rekey_by_counter s.transport

unfoldable pub is_expired : Session → ℕ → Bool
unfolding age
is_expired s now = leb reject_after_time (age s now)

unfoldable pub needs_keepalive : Session → ℕ → ℕ → Bool
needs_keepalive s keepalive_interval now = leb keepalive_interval (elapsed now s.last_sent)

unfoldable pub mark_sent : Session → ℕ → Session
mark_sent s now = record s { last_sent = now }

unfoldable pub mark_received : Session → ℕ → Session
mark_received s now = record s { last_received = now }

unfoldable pub time_since_last_received : Session → ℕ → ℕ
time_since_last_received s now = elapsed now s.last_received
