-- ===== src/Session/Slots/Found.antt =====
-- What `find_in` finds: a session that is in its place, has the index and has not expired.
use secure_guard.Base.{ℕ, false, Option, none, some, ◌≡◌, arith}
use secure_guard.Session.{Session, is_expired}
use secure_guard.Session.Slots.{Place, at_current, at_previous, find_in, unexpired}

-- The slot of a place.
abbrev pub slot : Option Session → Option Session → Place → Option Session
slot current previous at_current = current
slot current previous at_previous = previous

-- A session that is found is in the slot of the place that comes with it, has the index that
-- was asked for, and has not expired.
pub find_in_sound :
    (current previous : Option Session) (index now : ℕ) (place : Place) (s : Session)
    → find_in current previous index now ≡ some (place, s)
    → (slot current previous place ≡ some s) × (s.local_index ≡ index) × (is_expired s now ≡ false)
unfolding find_in
find_in_sound none none index now place s h = absurd (ground arith)
find_in_sound none (some b) index now at_current s h = ground arith
find_in_sound none (some b) index now at_previous s h = ground arith
find_in_sound (some a) none index now at_current s h = ground arith
find_in_sound (some a) none index now at_previous s h = ground arith
find_in_sound (some a) (some b) index now at_current s h = ground arith
find_in_sound (some a) (some b) index now at_previous s h = ground arith

-- The current session is found by its index while it has not expired.
pub find_in_current :
    (s : Session) (previous : Option Session) (now : ℕ)
    → is_expired s now ≡ false
    → find_in (some s) previous s.local_index now ≡ some (at_current, s)
unfolding find_in
find_in_current s previous now h = ground arith

-- What `unexpired` lets through is there, and has not expired.
pub unexpired-some :
    (o : Option Session) (now : ℕ) (s : Session)
    → unexpired o now ≡ some s
    → (o ≡ some s) × (is_expired s now ≡ false)
unexpired-some none now s h = absurd (ground arith)
unexpired-some (some x) now s h = (ground arith, ground arith)
