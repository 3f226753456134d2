-- ===== src/Cookie/Validity.antt =====
-- How long a received cookie is used.
use secure_guard.Base.{
  ℕ, ◌+◌, ◌≤◌, ltb, if◌then◌else◌, List, length, none, some, ◌≡◌, inl, inr, arith,
}
use secure_guard.Base.Result.{ok, Result-cases}
use secure_guard.Messages.CookieReply.{CookieReply}
use secure_guard.Crypto.{Primitives, xdecrypt}
use secure_guard.Crypto.Noise.{cookie_key}
use secure_guard.Session.{from_secs}
use secure_guard.Cookie.{CookieState, process_cookie_reply, get_cookie, has_valid_cookie}

-- A reply that is taken in leaves the sixteen bytes that it decrypts to, under the key made of
-- the peer's public key and bound to the MAC1 that was sent last, and `get_cookie` hands them
-- out for 120 seconds from then on and no longer.
pub process_cookie_reply-get_cookie :
    (p : Primitives) (s s' : CookieState) (reply : CookieReply) (mac1 peer_public : List ℕ)
    (now later : ℕ)
    → process_cookie_reply p s reply mac1 peer_public now ≡ ok s'
    → now ≤ later
    → (cookie : List ℕ) × (xdecrypt p
          (cookie_key p peer_public)
          reply.nonce
          reply.encrypted_cookie
          mac1
        ≡ ok cookie)
      × (length cookie ≡ 16)
      × (get_cookie s' later ≡ (if ltb later (now + from_secs 120) then some cookie else none))
unfolding process_cookie_reply get_cookie has_valid_cookie
process_cookie_reply-get_cookie p s s' reply mac1 peer_public now later h after =
    elim (Result-cases
      (xdecrypt p (cookie_key p peer_public) reply.nonce reply.encrypted_cookie mac1)) [
        | inr (e, failed) ↦ absurd (ground arith)
        | inl (cookie, e) ↦ (cookie, e, ground arith, ground arith)
      ]
