-- ===== src/Messages/Header.antt =====
-- src/protocol/messages.rs: `TransportHeader`, 16 bytes before the encrypted payload.
pub mod RoundTrip
use secure_guard.Base.{ℕ, List, ◌++◌, ◌+◌, drop}
use secure_guard.Base.Words.{to_le_bytes}
use secure_guard.Base.Result.{Result, ok, ◌>>◌}
use secure_guard.Error.{ProtocolError}
use secure_guard.Messages.{transport_data, check_header, u32_at, u64_at, type_bytes}

pub record TransportHeader : Type 0 where
  pub receiver_index : ℕ
  pub counter : ℕ

abbrev pub size : ℕ
size = 16

abbrev pub min_size : ℕ
min_size = size + 16

unfoldable pub build_message : ℕ → ℕ → List ℕ → List ℕ
build_message receiver_index counter encrypted_payload =
    type_bytes transport_data
    ++ (to_le_bytes 4 receiver_index ++ (to_le_bytes 8 counter ++ encrypted_payload))

unfoldable pub from_bytes : List ℕ → Result TransportHeader ProtocolError
from_bytes packet = do
  check_header size transport_data packet
  ok (record { receiver_index = u32_at packet 4; counter = u64_at packet 8 })

-- `&packet[16..]`; the callers have checked that the packet has a header.
unfoldable pub payload : List ℕ → List ℕ
payload packet = drop size packet
