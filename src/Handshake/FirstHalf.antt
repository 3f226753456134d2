-- ===== src/Handshake/FirstHalf.antt =====
-- From `create_initiation` to `process_initiation`.
use secure_guard.Base.{ℕ, ◌+◌, List, length, Option, none, some, ◌≡◌, refl, ◌∙◌, arith}
use secure_guard.Base.Result.{ok}
use secure_guard.Messages.Initiation
use secure_guard.Messages.Initiation.{HandshakeInitiation}
use secure_guard.Crypto.{Primitives, PrimitiveLaws, dh, public_key, generate_keypair}
use secure_guard.Crypto.Noise.{
  HandshakeState, new_initiator, new_responder, mix_key, encrypt_and_hash, decrypt_and_hash,
}
use secure_guard.Handshake.Initiator
use secure_guard.Handshake.Initiator.{
  InitiatorHandshake, mix_ephemeral, create_initiation, process_response, psk_or_zeros,
}
use secure_guard.Handshake.Responder
use secure_guard.Handshake.Responder.{ResponderHandshake, process_initiation, create_response}
use secure_guard.Handshake.Parties.{Parties}
use secure_guard.Handshake.Sealing.{dh_swap, decrypt_and_hash-encrypt_and_hash}

-- The MACs are checked before, and not read by the handshake itself.
process_initiation-add_macs :
    (p : Primitives) (r : ResponderHandshake) (k : List ℕ) (cookie : Option (List ℕ))
    (m : HandshakeInitiation)
    → process_initiation p r (Initiator.add_macs p k cookie m) ≡ process_initiation p r m
unfolding process_initiation Initiator.add_macs Initiator.add_mac2
process_initiation-add_macs p r k none m = refl
process_initiation-add_macs p r k (some c) m = refl

module _ (p : Primitives) (laws : PrimitiveLaws p) (q : Parties)
    (len : length q.timestamp ≡ 12) where
  open q use {
    initiator_static as si, responder_static as sr, initiator_ephemeral as ei, timestamp, psk,
    initiator_cookie as cookie, initiator_index as index_i, responder_index as index_r,
  }

  abbrev pub start_i : InitiatorHandshake
  start_i = Initiator.new p si (p.derive_public sr) psk index_i

  abbrev pub start_r : ResponderHandshake
  start_r = Responder.new p sr index_r

  abbrev pub s1 : HandshakeState
  s1 = mix_ephemeral p (new_initiator p (p.derive_public sr)) (p.derive_public ei)

  abbrev pub s2 : HandshakeState × List ℕ
  s2 = mix_key p s1 (dh p ei (p.derive_public sr))

  pub sealed_static :
      (s' : HandshakeState) × (sealed : List ℕ) × (length sealed ≡ length (p.derive_public si) + 16)
      × (encrypt_and_hash p s2.0 s2.1 (p.derive_public si) ≡ ok (s', sealed))
      × (decrypt_and_hash p s2.0 s2.1 sealed ≡ ok (s', p.derive_public si))
  sealed_static =
      decrypt_and_hash-encrypt_and_hash p laws s2.0 s2.1 (p.derive_public si)
        (omega (arith, laws.length-derive_public si))

  abbrev pub s4 : HandshakeState × List ℕ
  s4 = mix_key p sealed_static.0 (dh p si (p.derive_public sr))

  pub sealed_timestamp :
      (s' : HandshakeState) × (sealed : List ℕ) × (length sealed ≡ length timestamp + 16)
      × (encrypt_and_hash p s4.0 s4.1 timestamp ≡ ok (s', sealed))
      × (decrypt_and_hash p s4.0 s4.1 sealed ≡ ok (s', timestamp))
  sealed_timestamp = decrypt_and_hash-encrypt_and_hash p laws s4.0 s4.1 timestamp (omega arith)

  abbrev pub message : HandshakeInitiation
  message =
      Initiator.add_macs p (p.derive_public sr) cookie
        (Initiation.new index_i (p.derive_public ei) sealed_static.1 sealed_timestamp.1)

  abbrev pub after_i : InitiatorHandshake
  after_i = record start_i {
    ephemeral_private = ei;
    noise_state = sealed_timestamp.0;
    last_mac1 = message.mac1;
  }

  pub static_48 : length sealed_static.1 ≡ 48
  static_48 = omega (arith, sealed_static.2, laws.length-derive_public si)

  pub timestamp_28 : length sealed_timestamp.1 ≡ 28
  timestamp_28 = omega (arith, sealed_timestamp.2)

  pub created : create_initiation p start_i ei timestamp cookie ≡ ok (after_i, message)
  unfolding create_initiation Initiator.new generate_keypair public_key
  created = rw (sealed_static.3, static_48, sealed_timestamp.3, timestamp_28)

  abbrev pub after_r : ResponderHandshake
  after_r = record start_r {
    noise_state = sealed_timestamp.0;
    initiator_ephemeral = p.derive_public ei;
    initiator_static = p.derive_public si;
    initiator_index = index_i;
  }

  processed_plain :
      process_initiation p start_r
        (Initiation.new index_i (p.derive_public ei) sealed_static.1 sealed_timestamp.1)
      ≡ ok (after_r, p.derive_public si)
  unfolding process_initiation Responder.new Initiation.new new_initiator new_responder public_key
  processed_plain = rw (
    dh_swap p laws ei sr,
    sealed_static.4,
    laws.length-derive_public si,
    dh_swap p laws si sr,
    sealed_timestamp.4,
  )

  pub processed : process_initiation p start_r message ≡ ok (after_r, p.derive_public si)
  processed = process_initiation-add_macs p start_r (p.derive_public sr) cookie _ ∙ processed_plain
