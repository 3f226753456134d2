-- ===== src/Error.antt =====
-- src/error.rs: the error types. Texts that only a person reads are `String`s; an
-- `std::io::Error` is known by its text. (`From` conversions are the constructors of
-- `MinnowVpnError`.) The variant for Windows alone is left out.
pub mod Codes
use secure_guard.Base.{ℕ, String}

pub data ConfigError : Type 0 where
  file_not_found : String → ConfigError
  parse_error : ℕ → String → ConfigError
  invalid_key : String → ConfigError
  invalid_address : String → ConfigError
  missing_field : String → ConfigError
  invalid_cidr : String → ConfigError
  io : String → ConfigError

pub data CryptoError : Type 0 where
  key_derivation encryption decryption : CryptoError
  invalid_key_length : ℕ → ℕ → CryptoError
  invalid_nonce diffie_hellman : CryptoError

-- The arguments of `invalid_message_length` are `expected` and `got`.
pub data ProtocolError : Type 0 where
  handshake_timeout : ℕ → ProtocolError
  handshake_failed : String → ProtocolError
  invalid_message_type : ℕ → ProtocolError
  invalid_message_length : ℕ → ℕ → ProtocolError
  mac_verification_failed : ProtocolError
  replay_detected : ℕ → ProtocolError
  session_expired no_session : ProtocolError
  invalid_sender_index : ℕ → ProtocolError
  cookie_required : ProtocolError

pub data NetworkError : Type 0 where
  connection_refused network_unreachable dns_resolution_failed : String → NetworkError
  bind_failed : String → String → NetworkError
  send_failed receive_failed : String → NetworkError
  no_endpoint : NetworkError
  io : String → NetworkError

pub data TunnelError : Type 0 where
  create_failed read_failed write_failed : String → TunnelError
  route_setup_failed route_cleanup_failed : String → String → TunnelError
  insufficient_privileges unsupported_platform : String → TunnelError
  io : String → TunnelError

pub data MinnowVpnError : Type 0 where
  config : ConfigError → MinnowVpnError
  crypto : CryptoError → MinnowVpnError
  protocol : ProtocolError → MinnowVpnError
  network : NetworkError → MinnowVpnError
  tunnel : TunnelError → MinnowVpnError
  system : String → MinnowVpnError
