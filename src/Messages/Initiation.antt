-- ===== src/Messages/Initiation.antt =====
-- src/protocol/messages.rs: `HandshakeInitiation`, 148 bytes.
pub mod RoundTrip
use secure_guard.Base.{ℕ, List, ◌++◌, take, slice, replicate}
use secure_guard.Base.Words.{to_le_bytes}
use secure_guard.Base.Result.{Result, ok, ◌>>◌}
use secure_guard.Error.{ProtocolError}
use secure_guard.Messages.{handshake_initiation, check_header, u32_at, type_bytes}

pub record HandshakeInitiation : Type 0 where
  pub sender_index : ℕ
  pub ephemeral_public : List ℕ
  pub encrypted_static : List ℕ
  pub encrypted_timestamp : List ℕ
  pub mac1 : List ℕ
  pub mac2 : List ℕ

abbrev pub size : ℕ
size = 148

unfoldable pub new : ℕ → List ℕ → List ℕ → List ℕ → HandshakeInitiation
new sender_index ephemeral_public encrypted_static encrypted_timestamp = record {
  sender_index = sender_index;
  ephemeral_public = ephemeral_public;
  encrypted_static = encrypted_static;
  encrypted_timestamp = encrypted_timestamp;
  mac1 = replicate 16 0;
  mac2 = replicate 16 0;
}

-- The fields are copied to consecutive places of the buffer and fill it.
unfoldable pub to_bytes : HandshakeInitiation → List ℕ
to_bytes m =
    type_bytes handshake_initiation
    ++ (to_le_bytes 4 m.sender_index
        ++ (m.ephemeral_public
            ++ (m.encrypted_static ++ (m.encrypted_timestamp ++ (m.mac1 ++ m.mac2)))))

unfoldable pub bytes_for_mac1 : HandshakeInitiation → List ℕ
bytes_for_mac1 m = take 116 (to_bytes m)

unfoldable pub bytes_for_mac2 : HandshakeInitiation → List ℕ
bytes_for_mac2 m = take 132 (to_bytes m)

unfoldable pub from_bytes : List ℕ → Result HandshakeInitiation ProtocolError
from_bytes packet = do
  check_header size handshake_initiation packet
  ok (record {
    sender_index = u32_at packet 4;
    ephemeral_public = slice packet 8 40;
    encrypted_static = slice packet 40 88;
    encrypted_timestamp = slice packet 88 116;
    mac1 = slice packet 116 132;
    mac2 = slice packet 132 148;
  })
