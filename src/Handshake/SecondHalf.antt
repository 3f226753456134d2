-- ===== src/Handshake/SecondHalf.antt =====
-- From `create_response` to `process_response`.
use secure_guard.Base.{ℕ, ◌+◌, List, [], length, Option, none, some, ◌≡◌, refl, ◌∙◌, ==_iff, arith}
use secure_guard.Base.Result.{ok}
use secure_guard.Messages.Response
use secure_guard.Messages.Response.{HandshakeResponse}
use secure_guard.Crypto.{Primitives, PrimitiveLaws, dh, generate_keypair}
use secure_guard.Crypto.Noise.{
  HandshakeState, mix_key, mix_key_and_hash, encrypt_and_hash, decrypt_and_hash, derive_initiator,
  derive_responder,
}
use secure_guard.Handshake.{HandshakeResult}
use secure_guard.Handshake.Initiator.{
  InitiatorHandshake, mix_ephemeral, process_response, psk_or_zeros,
}
use secure_guard.Handshake.Responder
use secure_guard.Handshake.Responder.{ResponderHandshake, process_initiation, create_response}
use secure_guard.Handshake.Parties.{Parties}
use secure_guard.Handshake.Sealing.{dh_swap, decrypt_and_hash-encrypt_and_hash}

process_response-add_macs :
    (p : Primitives) (i : InitiatorHandshake) (k : List ℕ) (cookie : Option (List ℕ))
    (m : HandshakeResponse)
    → process_response p i (Responder.add_macs p k cookie m) ≡ process_response p i m
unfolding process_response Responder.add_macs Responder.add_mac2
process_response-add_macs p i k none m = refl
process_response-add_macs p i k (some c) m = refl

-- The second half, from states that agree on the symmetric state and on each other's keys.
module _ (p : Primitives) (laws : PrimitiveLaws p) (q : Parties) (i : InitiatorHandshake)
    (r : ResponderHandshake) where
  open q use {psk, responder_ephemeral as er, responder_cookie as cookie}

  -- The states that the first half leaves behind, in terms of the initiator's.
  abbrev pub meet_r : ResponderHandshake
  meet_r = record r {
    noise_state = i.noise_state;
    initiator_ephemeral = p.derive_public i.ephemeral_private;
    initiator_static = p.derive_public i.static_private;
    initiator_index = i.sender_index;
  }

  abbrev pub meet_i : InitiatorHandshake
  meet_i = record i { psk = psk_or_zeros psk }

  abbrev pub t2 : HandshakeState × List ℕ
  t2 =
      mix_key p (mix_ephemeral p i.noise_state (p.derive_public er))
        (dh p er (p.derive_public i.ephemeral_private))

  abbrev pub t3 : HandshakeState × List ℕ
  t3 = mix_key p t2.0 (dh p er (p.derive_public i.static_private))

  abbrev pub t4 : HandshakeState × List ℕ
  t4 = mix_key_and_hash p t3.0 (psk_or_zeros psk)

  pub sealed_nothing :
      (s' : HandshakeState) × (sealed : List ℕ) × (length sealed ≡ 0 + 16)
      × (encrypt_and_hash p t4.0 t4.1 [] ≡ ok (s', sealed))
      × (decrypt_and_hash p t4.0 t4.1 sealed ≡ ok (s', []))
  sealed_nothing = decrypt_and_hash-encrypt_and_hash p laws t4.0 t4.1 [] (omega arith)

  abbrev pub plain_response : HandshakeResponse
  plain_response = Response.new r.sender_index i.sender_index (p.derive_public er) sealed_nothing.1

  abbrev pub response : HandshakeResponse
  response = Responder.add_macs p (p.derive_public i.static_private) cookie plain_response

  abbrev pub result_r : HandshakeResult
  result_r =
      let keys = derive_responder p sealed_nothing.0.chaining_key in
      record {
        local_index = r.sender_index;
        remote_index = i.sender_index;
        sending_key = keys.sending_key;
        receiving_key = keys.receiving_key;
      }

  abbrev pub final_r : ResponderHandshake
  final_r = record meet_r { noise_state = sealed_nothing.0; last_mac1 = response.mac1 }

  pub responded : create_response p meet_r psk er cookie ≡ ok (final_r, response, result_r)
  unfolding create_response generate_keypair
  responded = rw (sealed_nothing.3, sealed_nothing.2)

  abbrev pub final_i : InitiatorHandshake
  final_i = record meet_i { noise_state = sealed_nothing.0 }

  abbrev pub result_i : HandshakeResult
  result_i =
      let keys = derive_initiator p sealed_nothing.0.chaining_key in
      record {
        local_index = i.sender_index;
        remote_index = r.sender_index;
        sending_key = keys.sending_key;
        receiving_key = keys.receiving_key;
      }

  finished_plain : process_response p meet_i plain_response ≡ ok (final_i, result_i)
  unfolding process_response Response.new
  finished_plain = rw (
    (==_iff i.sender_index i.sender_index).1 refl,
    dh_swap p laws er i.ephemeral_private,
    dh_swap p laws er i.static_private,
    sealed_nothing.4,
  )

  pub finished : process_response p meet_i response ≡ ok (final_i, result_i)
  finished =
      process_response-add_macs p meet_i (p.derive_public i.static_private) cookie plain_response
      ∙ finished_plain

  pub mirrored :
      (result_i.sending_key ≡ result_r.receiving_key)
      × (result_i.receiving_key ≡ result_r.sending_key)
  unfolding derive_initiator derive_responder
  mirrored = (refl, refl)
