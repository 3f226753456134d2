-- ===== src/Messages/CookieReply.antt =====
-- src/protocol/messages.rs: `CookieReply`, 64 bytes, which the program only reads.
use secure_guard.Base.{ℕ, List, slice}
use secure_guard.Base.Result.{Result, ok, ◌>>◌}
use secure_guard.Error.{ProtocolError}
use secure_guard.Messages.{cookie_reply, check_header, u32_at}

pub record CookieReply : Type 0 where
  pub receiver_index : ℕ
  pub nonce : List ℕ
  pub encrypted_cookie : List ℕ

abbrev pub size : ℕ
size = 64

unfoldable pub from_bytes : List ℕ → Result CookieReply ProtocolError
from_bytes packet = do
  check_header size cookie_reply packet
  ok (record {
    receiver_index = u32_at packet 4;
    nonce = slice packet 8 32;
    encrypted_cookie = slice packet 32 64;
  })
