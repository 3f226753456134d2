-- ===== src/Session/Manager.antt =====
-- src/protocol/session.rs: `SessionManager`, the client's current and previous session and
-- its pending handshake. A `&mut Session` that a method hands out is the session together
-- with the place where it stands, so that the caller can write it back.
pub mod Rekey
use secure_guard.Base.{ℕ, Bool, true, false, not, ◌&&◌, leb, Option, none, some}
use secure_guard.Session.{Session, is_expired, rekey_timeout, elapsed}
use secure_guard.Session
use secure_guard.Session.Slots.{Place, at_current, at_previous, unexpired, displaced, find_in}
use secure_guard.Net.{SocketAddr}
use mathlib.Core.Option

pub data HandshakeState : Type 0 where
  idle waiting_for_response complete : HandshakeState

-- `idle` is the source's `HandshakeState::None`.
abbrev pub is_idle : HandshakeState → Bool
is_idle idle = true
is_idle waiting_for_response = false
is_idle complete = false

pub record SessionManager : Type 0 where
  pub current_session : Option Session
  pub previous_session : Option Session
  pub handshake_state : HandshakeState
  pub handshake_started : Option ℕ
  pub pending_sender_index : Option ℕ

unfoldable pub new : SessionManager
new = record {
  current_session = none;
  previous_session = none;
  handshake_state = idle;
  handshake_started = none;
  pending_sender_index = none;
}

unfoldable pub has_session : SessionManager → Bool
has_session m = elim m.current_session [ none ↦ false | some s ↦ true ]

unfoldable pub current : SessionManager → ℕ → Option Session
current m now = unexpired m.current_session now

-- `current_mut`, and the write through the reference that it returns.
unfoldable pub current_mut : SessionManager → ℕ → Option Session
current_mut m now = unexpired m.current_session now

unfoldable pub set_current : SessionManager → Session → SessionManager
set_current m s = record m { current_session = some s }

unfoldable pub start_handshake : SessionManager → ℕ → ℕ → SessionManager
start_handshake m sender_index now = record m {
  handshake_state = waiting_for_response;
  handshake_started = some now;
  pending_sender_index = some sender_index;
}

timed_out : HandshakeState → Option ℕ → ℕ → Bool
timed_out waiting_for_response (some started) now = leb rekey_timeout (elapsed now started)
timed_out waiting_for_response none now = false
timed_out idle started now = false
timed_out complete started now = false

unfoldable pub handshake_timed_out : SessionManager → ℕ → Bool
unfolding timed_out
handshake_timed_out m now = timed_out m.handshake_state m.handshake_started now

unfoldable pub cancel_handshake : SessionManager → SessionManager
cancel_handshake m = record m {
  handshake_state = idle;
  handshake_started = none;
  pending_sender_index = none;
}

unfoldable pub establish_session : SessionManager → Session → SessionManager
establish_session m session = record {
  current_session = some session;
  previous_session = displaced m.current_session m.previous_session;
  handshake_state = complete;
  handshake_started = none;
  pending_sender_index = none;
}

unfoldable pub clear_previous : SessionManager → SessionManager
clear_previous m = record m { previous_session = none }

unfoldable pub find_by_index : SessionManager → ℕ → ℕ → Option (Place × Session)
find_by_index m index now = find_in m.current_session m.previous_session index now

-- The write through the reference that `find_by_index` returns.
unfoldable pub set_at : SessionManager → Place → Session → SessionManager
set_at m at_current s = record m { current_session = some s }
set_at m at_previous s = record m { previous_session = some s }

unfoldable pub needs_rekey : SessionManager → ℕ → Bool
needs_rekey m now = elim m.current_session [
  | none ↦ false
  | some s ↦ Session.needs_rekey s now && is_idle m.handshake_state
]

unfoldable pub needs_keepalive : SessionManager → ℕ → ℕ → Bool
needs_keepalive m interval now = elim m.current_session [
  | none ↦ false
  | some s ↦ Session.needs_keepalive s interval now && not (is_expired s now)
]

unfoldable pub endpoint : SessionManager → Option SocketAddr
endpoint m = Option.map (λ s. s.endpoint) m.current_session

unfoldable pub update_endpoint : SessionManager → SocketAddr → SessionManager
update_endpoint m e = record m {
  current_session = Option.map {A = Session} (λ s. record s { endpoint = e }) m.current_session;
}

unfoldable pub clear : SessionManager → SessionManager
clear m = record {
  current_session = none;
  previous_session = none;
  handshake_state = idle;
  handshake_started = none;
  pending_sender_index = none;
}
