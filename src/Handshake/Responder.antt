-- ===== src/Handshake/Responder.antt =====
-- src/protocol/handshake.rs: `ResponderHandshake`.
use secure_guard.Base.{ℕ, List, [], replicate, Option, none, some}
use secure_guard.Base.Result.{Result, ok, ◌>>=◌, map_err}
use secure_guard.Error.{MinnowVpnError, crypto, encryption, decryption}
use secure_guard.Messages.Initiation.{HandshakeInitiation}
use secure_guard.Messages.Response
use secure_guard.Messages.Response.{HandshakeResponse}
use secure_guard.Crypto.{Primitives, mac, mac_with_cookie, generate_keypair, public_key, dh}
use secure_guard.Crypto.Noise.{
  HandshakeState, new_responder, mix_key, mix_key_and_hash, encrypt_and_hash, decrypt_and_hash,
  derive_responder, mac1_key,
}
use secure_guard.Handshake.{HandshakeResult, try_array}
use secure_guard.Handshake.Initiator.{mix_ephemeral, psk_or_zeros}

pub record ResponderHandshake : Type 0 where
  pub static_private : List ℕ
  pub static_public : List ℕ
  pub sender_index : ℕ
  pub noise_state : HandshakeState
  pub initiator_ephemeral : List ℕ
  pub initiator_static : List ℕ
  pub initiator_index : ℕ
  pub last_mac1 : List ℕ

module _ (p : Primitives) where
  unfoldable pub new : List ℕ → ℕ → ResponderHandshake
  new static_private sender_index =
      let static_public = public_key p static_private in
      record {
        static_private = static_private;
        static_public = static_public;
        sender_index = sender_index;
        noise_state = new_responder p static_public;
        initiator_ephemeral = replicate 32 0;
        initiator_static = replicate 32 0;
        initiator_index = 0;
        last_mac1 = replicate 16 0;
      }

  -- The time stamp is decrypted and then dropped, as in the source.
  unfoldable pub process_initiation :
      ResponderHandshake → HandshakeInitiation → Result (ResponderHandshake × List ℕ) MinnowVpnError
  process_initiation h initiation = do
    let s1 = mix_ephemeral p h.noise_state initiation.ephemeral_public
    let (s2, key_es) = mix_key p s1 (dh p h.static_private initiation.ephemeral_public)
    (s3, static_bytes) ← map_err crypto (decrypt_and_hash p s2 key_es initiation.encrypted_static)
    initiator_static ← try_array 32 decryption static_bytes
    let (s4, key_ss) = mix_key p s3 (dh p h.static_private initiator_static)
    (s5, timestamp) ← map_err crypto (decrypt_and_hash p s4 key_ss initiation.encrypted_timestamp)
    ok (
      record h {
        noise_state = s5;
        initiator_ephemeral = initiation.ephemeral_public;
        initiator_static = initiator_static;
        initiator_index = initiation.sender_index;
      },
      initiator_static,
    )

  unfoldable pub add_mac2 : Option (List ℕ) → HandshakeResponse → HandshakeResponse
  add_mac2 none m = m
  add_mac2 (some c) m = record m { mac2 = mac_with_cookie p c (Response.bytes_for_mac2_owned m) }

  unfoldable pub add_macs : List ℕ → Option (List ℕ) → HandshakeResponse → HandshakeResponse
  add_macs initiator_static cookie response =
      let mac1 = mac p (mac1_key p initiator_static) (Response.bytes_for_mac1_owned response) in
      add_mac2 cookie (record response { mac1 = mac1 })

  unfoldable pub create_response :
      ResponderHandshake
      → Option (List ℕ)
      → List ℕ
      → Option (List ℕ)
      → Result (ResponderHandshake × HandshakeResponse × HandshakeResult) MinnowVpnError
  create_response h psk secret cookie = do
    let (ephemeral_private, ephemeral_public) = generate_keypair p secret
    let s1 = mix_ephemeral p h.noise_state ephemeral_public
    let (s2, key_ee) = mix_key p s1 (dh p ephemeral_private h.initiator_ephemeral)
    let (s3, key_se) = mix_key p s2 (dh p ephemeral_private h.initiator_static)
    let (s4, key) = mix_key_and_hash p s3 (psk_or_zeros psk)
    (s5, sealed) ← map_err crypto (encrypt_and_hash p s4 key [])
    encrypted_nothing ← try_array 16 encryption sealed
    let response =
        add_macs h.initiator_static cookie
          (Response.new h.sender_index h.initiator_index ephemeral_public encrypted_nothing)
    let keys = derive_responder p s5.chaining_key
    ok (
      record h { noise_state = s5; last_mac1 = response.mac1 },
      response,
      record {
        local_index = h.sender_index;
        remote_index = h.initiator_index;
        sending_key = keys.sending_key;
        receiving_key = keys.receiving_key;
      },
    )
