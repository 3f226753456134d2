-- ===== src/Session/Manager/Rekey.antt =====
-- The client's rekey check over the life of a `SessionManager`.
use secure_guard.Base.{ℕ, false, List, [], ◌∷◌, ◌≡◌, refl, arith}
use secure_guard.Session.{Session}
use secure_guard.Session.Slots.{Place, at_current, at_previous}
use secure_guard.Session.Manager.{
  SessionManager, is_idle, start_handshake, establish_session, set_at, needs_rekey,
}

-- The calls that src/client.rs makes on its `sessions`: a handshake starts and is finished, a
-- found session is written back.
pub data Call : Type 0 where
  starts : ℕ → ℕ → Call
  establishes : Session → Call
  writes : Place → Session → Call

unfoldable pub perform : SessionManager → Call → SessionManager
perform m (starts index now) = start_handshake m index now
perform m (establishes s) = establish_session m s
perform m (writes place s) = set_at m place s

unfoldable pub perform_all : SessionManager → List Call → SessionManager
perform_all m [] = m
perform_all m (c ∷ cs) = perform_all (perform m c) cs

perform-busy :
    (m : SessionManager) (c : Call)
    → is_idle m.handshake_state ≡ false
    → is_idle (perform m c).handshake_state ≡ false
unfolding perform start_handshake establish_session set_at
perform-busy m (starts index now) h = refl
perform-busy m (establishes s) h = refl
perform-busy m (writes at_current s) h = h
perform-busy m (writes at_previous s) h = h

busy-needs_rekey :
    (m : SessionManager) (now : ℕ) → is_idle m.handshake_state ≡ false → needs_rekey m now ≡ false
unfolding needs_rekey
busy-needs_rekey m now h = ground arith

perform_all-busy :
    (m : SessionManager) (cs : List Call)
    → is_idle m.handshake_state ≡ false
    → is_idle (perform_all m cs).handshake_state ≡ false
unfolding perform_all
perform_all-busy m [] h = h
perform_all-busy m (c ∷ cs) h = perform_all-busy (perform m c) cs (perform-busy m c h)

-- Once a session was established, no calls of the client bring the manager to ask for a rekey,
-- however old the session gets and however many packets it has sent.
pub needs_rekey-perform_all :
    (m : SessionManager) (s : Session) (cs : List Call) (now : ℕ)
    → needs_rekey (perform_all (establish_session m s) cs) now ≡ false
unfolding establish_session
needs_rekey-perform_all m s cs now =
    busy-needs_rekey (perform_all (establish_session m s) cs) now
      (perform_all-busy (establish_session m s) cs refl)
