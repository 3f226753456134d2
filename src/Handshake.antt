-- ===== src/Handshake.antt =====
-- src/protocol/handshake.rs: both sides of the handshake and the checks of MAC1. A method
-- returns the new state with its result; where it fails the state is gone, as its callers drop
-- it. The random private key and the time stamp are arguments.
pub mod Initiator
pub mod Responder
pub mod Parties
pub mod Sealing
pub mod InitiationMac
pub mod ResponseMac
pub mod FirstHalf
pub mod SecondHalf
pub mod Agreement
use secure_guard.Base.{
  ℕ, List, length, ltb, ◌==◌, take, slice, not, bytes_eq, if◌then◌else◌, Option, none, some,
}
use secure_guard.Base.Result.{Result, ok, err, ◌>>◌, fail_if}
use secure_guard.Error.{
  MinnowVpnError, CryptoError, crypto, protocol, invalid_message_length, mac_verification_failed,
}
use secure_guard.Messages.Initiation
use secure_guard.Messages.Response
use secure_guard.Crypto.{Primitives, mac}
use secure_guard.Crypto.Noise.{mac1_key}

pub record HandshakeResult : Type 0 where
  pub local_index : ℕ
  pub remote_index : ℕ
  pub sending_key : List ℕ
  pub receiving_key : List ℕ

-- `bytes.try_into().map_err(|_| e)?` into an array of `n` bytes.
abbrev pub try_array : ℕ → CryptoError → List ℕ → Result (List ℕ) MinnowVpnError
try_array n e bytes = if length bytes == n then ok bytes else err (crypto e)

module _ (p : Primitives) where
  unfoldable pub verify_initiation_mac1 : List ℕ → List ℕ → Result (Unit {0}) MinnowVpnError
  verify_initiation_mac1 initiation_bytes our_public_key = do
    fail_if (ltb (length initiation_bytes) Initiation.size)
        (protocol (invalid_message_length Initiation.size (length initiation_bytes)))
    let expected_mac1 = mac p (mac1_key p our_public_key) (take 116 initiation_bytes)
    let actual_mac1 = slice initiation_bytes 116 132
    fail_if (not (bytes_eq actual_mac1 expected_mac1)) (protocol mac_verification_failed)

  unfoldable pub verify_response_mac1 : List ℕ → List ℕ → Result (Unit {0}) MinnowVpnError
  verify_response_mac1 response_bytes our_public_key = do
    fail_if (ltb (length response_bytes) Response.size)
        (protocol (invalid_message_length Response.size (length response_bytes)))
    let expected_mac1 = mac p (mac1_key p our_public_key) (Response.bytes_for_mac1 response_bytes)
    let actual_mac1 = slice response_bytes 60 76
    fail_if (not (bytes_eq actual_mac1 expected_mac1)) (protocol mac_verification_failed)
