-- ===== src/Cookie.antt =====
-- src/protocol/cookie.rs: the cookie that a loaded server sent, and how long it is good.
pub mod Validity
use secure_guard.Base.{
  ℕ, ◌/◌, Bool, false, not, ltb, ◌==◌, if◌then◌else◌, List, length, Option, none, some,
}
use secure_guard.Base.Result.{Result, ok, ◌>>=◌, ◌>>◌, map_err, fail_if}
use secure_guard.Error.{MinnowVpnError, crypto, decryption}
use secure_guard.Messages.CookieReply.{CookieReply}
use secure_guard.Crypto.{Primitives, xdecrypt}
use secure_guard.Crypto.Noise.{cookie_key}
use secure_guard.Session.{elapsed}

abbrev pub cookie_validity_secs : ℕ
cookie_validity_secs = 120

pub record CookieState : Type 0 where
  pub cookie : Option (List ℕ)
  pub received_at : Option ℕ

unfoldable pub new : CookieState
new = record { cookie = none; received_at = none }

valid : Option (List ℕ) → Option ℕ → ℕ → Bool
valid (some c) (some received) now = ltb (elapsed now received / 1_000_000_000) cookie_validity_secs
valid (some c) none now = false
valid none received now = false

unfoldable pub has_valid_cookie : CookieState → ℕ → Bool
unfolding valid
has_valid_cookie s now = valid s.cookie s.received_at now

unfoldable pub get_cookie : CookieState → ℕ → Option (List ℕ)
get_cookie s now = if has_valid_cookie s now then s.cookie else none

-- The new state where the reply decrypts to sixteen bytes; otherwise the state stays.
unfoldable pub process_cookie_reply :
    Primitives → CookieState → CookieReply → List ℕ → List ℕ → ℕ → Result CookieState MinnowVpnError
process_cookie_reply p s reply our_last_mac1 peer_public now = do
  let key = cookie_key p peer_public
  decrypted ←
      map_err (λ _. crypto decryption)
        (xdecrypt p key reply.nonce reply.encrypted_cookie our_last_mac1)
  fail_if (not (length decrypted == 16)) (crypto decryption)
  ok (record { cookie = some decrypted; received_at = some now })

unfoldable pub clear : CookieState → CookieState
clear s = record { cookie = none; received_at = none }
