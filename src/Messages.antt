-- ===== src/Messages.antt =====
-- src/protocol/messages.rs: the message types and the type byte. The four messages are in
-- the children. A byte slice is a list of numbers, a fixed array the list of its bytes.
pub mod Initiation
pub mod Response
pub mod CookieReply
pub mod Header
pub mod Layout
use secure_guard.Base.{ℕ, ◌+◌, List, [], ◌∷◌, ◌==◌, if◌then◌else◌, not, ltb, length, get_or, slice}
use secure_guard.Base.Words.{from_le_bytes}
use secure_guard.Base.Result.{Result, ok, err, ◌>>◌, fail_if}
use secure_guard.Error.{ProtocolError, invalid_message_type, invalid_message_length}

pub data MessageType : Type 0 where
  handshake_initiation handshake_response cookie_reply transport_data : MessageType

-- `MessageType::X as u8`.
abbrev pub to_u8 : MessageType → ℕ
to_u8 handshake_initiation = 1
to_u8 handshake_response = 2
to_u8 cookie_reply = 3
to_u8 transport_data = 4

unfoldable pub try_from : ℕ → Result MessageType ProtocolError
try_from value =
    if value == 1
    then ok handshake_initiation
    else if value == 2
    then ok handshake_response
    else if value == 3
    then ok cookie_reply
    else if value == 4
    then ok transport_data
    else err (invalid_message_type value)

unfoldable pub get_message_type : List ℕ → Result MessageType ProtocolError
get_message_type [] = err (invalid_message_length 1 0)
get_message_type (b ∷ bs) = try_from b

-- The guards that open every `from_bytes`: the length, then the type byte.
abbrev pub check_header : ℕ → MessageType → List ℕ → Result (Unit {0}) ProtocolError
check_header size t packet = do
  fail_if (ltb (length packet) size) (invalid_message_length size (length packet))
  fail_if (not (get_or packet 0 0 == to_u8 t)) (invalid_message_type (get_or packet 0 0))

-- `u32::from_le_bytes(packet[lo..lo + 4])`.
abbrev pub u32_at : List ℕ → ℕ → ℕ
u32_at packet lo = from_le_bytes (slice packet lo (lo + 4))

abbrev pub u64_at : List ℕ → ℕ → ℕ
u64_at packet lo = from_le_bytes (slice packet lo (lo + 8))

-- The type byte and the three reserved bytes.
abbrev pub type_bytes : MessageType → List ℕ
type_bytes t = to_u8 t ∷ 0 ∷ 0 ∷ 0 ∷ []
