-- ===== src/Handshake/Initiator.antt =====
-- src/protocol/handshake.rs: `InitiatorHandshake`.
use secure_guard.Base.{ℕ, List, ◌==◌, not, replicate, Option, none, some}
use secure_guard.Base.Result.{Result, ok, ◌>>=◌, ◌>>◌, map_err, fail_if}
use secure_guard.Error.{MinnowVpnError, crypto, protocol, encryption, invalid_sender_index}
use secure_guard.Messages.Initiation
use secure_guard.Messages.Initiation.{HandshakeInitiation}
use secure_guard.Messages.Response.{HandshakeResponse}
use secure_guard.Crypto.{Primitives, mac, mac_with_cookie, kdf1, generate_keypair, public_key, dh}
use secure_guard.Crypto.Noise.{
  HandshakeState, new_initiator, mix_hash, mix_key, mix_key_and_hash, encrypt_and_hash,
  decrypt_and_hash, derive_initiator, mac1_key,
}
use secure_guard.Handshake.{HandshakeResult, try_array}

pub record InitiatorHandshake : Type 0 where
  pub static_private : List ℕ
  pub static_public : List ℕ
  pub peer_static : List ℕ
  pub psk : List ℕ
  pub sender_index : ℕ
  pub ephemeral_private : List ℕ
  pub noise_state : HandshakeState
  pub last_mac1 : List ℕ

-- `psk.unwrap_or([0u8; 32])`.
abbrev pub psk_or_zeros : Option (List ℕ) → List ℕ
psk_or_zeros none = replicate 32 0
psk_or_zeros (some psk) = psk

module _ (p : Primitives) where
  -- Mixes an ephemeral key into the hash and then into the chaining key.
  abbrev pub mix_ephemeral : HandshakeState → List ℕ → HandshakeState
  mix_ephemeral s ephemeral_public =
      let s' = mix_hash p s ephemeral_public in
      record s' { chaining_key = kdf1 p s'.chaining_key ephemeral_public }

  unfoldable pub new : List ℕ → List ℕ → Option (List ℕ) → ℕ → InitiatorHandshake
  new static_private peer_static psk sender_index = record {
    static_private = static_private;
    static_public = public_key p static_private;
    peer_static = peer_static;
    psk = psk_or_zeros psk;
    sender_index = sender_index;
    ephemeral_private = replicate 32 0;
    noise_state = new_initiator p peer_static;
    last_mac1 = replicate 16 0;
  }

  -- MAC2 is computed if there is a cookie, and stays zero otherwise.
  unfoldable pub add_mac2 : Option (List ℕ) → HandshakeInitiation → HandshakeInitiation
  add_mac2 none m = m
  add_mac2 (some c) m = record m { mac2 = mac_with_cookie p c (Initiation.bytes_for_mac2 m) }

  -- The MACs of a new message: MAC1 under a key of the peer's public key, then MAC2.
  unfoldable pub add_macs : List ℕ → Option (List ℕ) → HandshakeInitiation → HandshakeInitiation
  add_macs peer_static cookie msg =
      let mac1 = mac p (mac1_key p peer_static) (Initiation.bytes_for_mac1 msg) in
      add_mac2 cookie (record msg { mac1 = mac1 })

  -- `secret` is the new ephemeral private key, `timestamp` is `Tai64N::now()` in bytes.
  unfoldable pub create_initiation :
      InitiatorHandshake
      → List ℕ
      → List ℕ
      → Option (List ℕ)
      → Result (InitiatorHandshake × HandshakeInitiation) MinnowVpnError
  create_initiation h secret timestamp cookie = do
    let (ephemeral_private, ephemeral_public) = generate_keypair p secret
    let s1 = mix_ephemeral h.noise_state ephemeral_public
    let (s2, key_es) = mix_key p s1 (dh p ephemeral_private h.peer_static)
    (s3, sealed_static) ← map_err crypto (encrypt_and_hash p s2 key_es h.static_public)
    encrypted_static ← try_array 48 encryption sealed_static
    let (s4, key_ss) = mix_key p s3 (dh p h.static_private h.peer_static)
    (s5, sealed_timestamp) ← map_err crypto (encrypt_and_hash p s4 key_ss timestamp)
    encrypted_timestamp ← try_array 28 encryption sealed_timestamp
    let msg =
        add_macs h.peer_static cookie
          (Initiation.new h.sender_index ephemeral_public encrypted_static encrypted_timestamp)
    ok (
      record h { ephemeral_private = ephemeral_private; noise_state = s5; last_mac1 = msg.mac1 },
      msg,
    )

  unfoldable pub process_response :
      InitiatorHandshake
      → HandshakeResponse
      → Result (InitiatorHandshake × HandshakeResult) MinnowVpnError
  process_response h response = do
    fail_if (not (response.receiver_index == h.sender_index))
        (protocol (invalid_sender_index response.receiver_index))
    let s1 = mix_ephemeral h.noise_state response.ephemeral_public
    let (s2, key_ee) = mix_key p s1 (dh p h.ephemeral_private response.ephemeral_public)
    let (s3, key_se) = mix_key p s2 (dh p h.static_private response.ephemeral_public)
    let (s4, key) = mix_key_and_hash p s3 h.psk
    (s5, empty) ← map_err crypto (decrypt_and_hash p s4 key response.encrypted_nothing)
    let keys = derive_initiator p s5.chaining_key
    ok (
      record h { noise_state = s5 },
      record {
        local_index = h.sender_index;
        remote_index = response.sender_index;
        sending_key = keys.sending_key;
        receiving_key = keys.receiving_key;
      },
    )
