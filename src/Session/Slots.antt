-- ===== src/Session/Slots.antt =====
-- src/protocol/session.rs: the pair of a current and a previous session, which the client's
-- `SessionManager` and the server's `PeerState` both hold and search in the same words.
pub mod Found
use mathlib.Core.Option
use secure_guard.Base.{ℕ, Bool, false, not, ◌&&◌, ◌==◌, if◌then◌else◌, Option, none, some}
use secure_guard.Session.{Session, is_expired}

-- The session if it has not expired.
abbrev pub unexpired : Option Session → ℕ → Option Session
unexpired none now = none
unexpired (some s) now = if is_expired s now then none else some s

-- The current session, if there is one, becomes the previous one.
abbrev pub displaced : Option Session → Option Session → Option Session
displaced none previous = previous
displaced (some s) previous = some s

-- Which of the two sessions an index names.
pub data Place : Type 0 where
  at_current at_previous : Place

abbrev pub answers : Option Session → ℕ → ℕ → Bool
answers none index now = false
answers (some s) index now = s.local_index == index && not (is_expired s now)

unfoldable pub find_in : Option Session → Option Session → ℕ → ℕ → Option (Place × Session)
find_in current previous index now =
    if answers current index now
    then Option.map (λ s. (at_current, s)) current
    else if answers previous index now
    then Option.map (λ s. (at_previous, s)) previous
    else none
