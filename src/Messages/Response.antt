-- ===== src/Messages/Response.antt =====
-- src/protocol/messages.rs: `HandshakeResponse`, 92 bytes.
pub mod RoundTrip
use secure_guard.Base.{ℕ, List, ◌++◌, take, slice, replicate}
use secure_guard.Base.Words.{to_le_bytes}
use secure_guard.Base.Result.{Result, ok, ◌>>◌}
use secure_guard.Error.{ProtocolError}
use secure_guard.Messages.{handshake_response, check_header, u32_at, type_bytes}

pub record HandshakeResponse : Type 0 where
  pub sender_index : ℕ
  pub receiver_index : ℕ
  pub ephemeral_public : List ℕ
  pub encrypted_nothing : List ℕ
  pub mac1 : List ℕ
  pub mac2 : List ℕ

abbrev pub size : ℕ
size = 92

unfoldable pub new : ℕ → ℕ → List ℕ → List ℕ → HandshakeResponse
new sender_index receiver_index ephemeral_public encrypted_nothing = record {
  sender_index = sender_index;
  receiver_index = receiver_index;
  ephemeral_public = ephemeral_public;
  encrypted_nothing = encrypted_nothing;
  mac1 = replicate 16 0;
  mac2 = replicate 16 0;
}

unfoldable pub to_bytes : HandshakeResponse → List ℕ
to_bytes m =
    type_bytes handshake_response
    ++ (to_le_bytes 4 m.sender_index
        ++ (to_le_bytes 4 m.receiver_index
            ++ (m.ephemeral_public ++ (m.encrypted_nothing ++ (m.mac1 ++ m.mac2)))))

unfoldable pub bytes_for_mac1_owned : HandshakeResponse → List ℕ
bytes_for_mac1_owned m = take 60 (to_bytes m)

unfoldable pub bytes_for_mac2_owned : HandshakeResponse → List ℕ
bytes_for_mac2_owned m = take 76 (to_bytes m)

unfoldable pub from_bytes : List ℕ → Result HandshakeResponse ProtocolError
from_bytes packet = do
  check_header size handshake_response packet
  ok (record {
    sender_index = u32_at packet 4;
    receiver_index = u32_at packet 8;
    ephemeral_public = slice packet 12 44;
    encrypted_nothing = slice packet 44 60;
    mac1 = slice packet 60 76;
    mac2 = slice packet 76 92;
  })

-- `&packet[..60]`, which the callers take of a packet of at least 92 bytes.
unfoldable pub bytes_for_mac1 : List ℕ → List ℕ
bytes_for_mac1 packet = take 60 packet
