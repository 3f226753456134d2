-- ===== src/Tests/Handshakes.antt =====
-- A handshake between two parties with the toy primitives.
use secure_guard.Base.{
  ℕ, List, none, some, replicate, refl, ◌≡◌, ◌+◌, length, ltb, if◌then◌else◌, arith,
}
use secure_guard.Handshake.Parties.{Parties}
use secure_guard.Handshake.Agreement.{Completes, handshake-Completes}
use secure_guard.Base.Result.{ok}
use secure_guard.Messages.CookieReply.{CookieReply}
use secure_guard.Crypto.{xdecrypt}
use secure_guard.Crypto.Noise.{cookie_key}
use secure_guard.Session.{from_secs}
use secure_guard.Cookie
use secure_guard.Cookie.{CookieState, process_cookie_reply, get_cookie}
use secure_guard.Cookie.Validity.{process_cookie_reply-get_cookie}
use secure_guard.Tests.Toy.{toy, toy_laws}

abbrev parties : Parties
parties = record {
  initiator_static = replicate 32 1;
  responder_static = replicate 32 2;
  psk = some (replicate 32 3);
  initiator_index = 11;
  responder_index = 12;
  initiator_ephemeral = replicate 32 4;
  responder_ephemeral = replicate 32 5;
  timestamp = replicate 12 6;
  initiator_cookie = none;
  responder_cookie = some (replicate 16 7);
}

handshake-Completes_example : Completes toy parties
handshake-Completes_example = handshake-Completes toy toy_laws parties refl

abbrev reply : CookieReply
reply = record { receiver_index = 11; nonce = replicate 24 1; encrypted_cookie = replicate 32 8 }

abbrev taken : CookieState
taken = record { cookie = some (replicate 16 8); received_at = some 5 }

is_taken : process_cookie_reply toy Cookie.new reply (replicate 16 2) (replicate 32 3) 5 ≡ ok taken
unfolding process_cookie_reply xdecrypt
is_taken = refl

process_cookie_reply-get_cookie_example :
    (cookie : List ℕ) × (xdecrypt toy
        (cookie_key toy (replicate 32 3))
        reply.nonce
        reply.encrypted_cookie
        (replicate 16 2)
      ≡ ok cookie)
    × (length cookie ≡ 16)
    × (get_cookie taken 100 ≡ (if ltb 100 (5 + from_secs 120) then some cookie else none))
process_cookie_reply-get_cookie_example =
    process_cookie_reply-get_cookie toy Cookie.new taken reply (replicate 16 2) (replicate 32 3) 5
      100 is_taken (omega arith)
