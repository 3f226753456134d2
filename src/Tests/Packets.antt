-- ===== src/Tests/Packets.antt =====
-- Packets, messages and windows.
use secure_guard.Base.{
  ℕ, ◌≤◌, true, List, [], ◌∷◌, map, ◌++◌, slice, replicate, none, ◌≡◌, refl, inr, arith,
}
use secure_guard.Base.Result.{ok, err}
use secure_guard.Error.{protocol, replay_detected, invalid_message_length}
use secure_guard.Replay.{ReplayWindow, check_and_update, would_accept, verdicts, look_back}
use secure_guard.Replay
use secure_guard.Replay.Refinement.{spec_verdicts, verdicts-new, passed, count, no_replay}
use secure_guard.Messages.Header
use secure_guard.Messages.Header.{TransportHeader}
use secure_guard.Messages.Initiation
use secure_guard.Messages.Initiation.{HandshakeInitiation}
use secure_guard.Messages.Initiation.RoundTrip.{IsInitiation, from_bytes-to_bytes}
use secure_guard.Messages.Response.{HandshakeResponse}
use secure_guard.Messages.Response.RoundTrip.{IsResponse}
use secure_guard.Handshake.{verify_initiation_mac1}
use secure_guard.Handshake.Initiator
use secure_guard.Handshake.InitiationMac.{verify_initiation_mac1-to_bytes}
use secure_guard.Transport
use secure_guard.Transport.{
  TransportState, encrypt_packet, decrypt_packet, decrypt, reject_after_messages, encrypt,
}
use secure_guard.Transport.Delivery.{received, decrypt_again}
use secure_guard.Transport.Counters.{stream, stream-eq-map}
use secure_guard.Tests.Toy.{toy, toy_laws}
use secure_guard.Crypto
use secure_guard.Base.Words.{to_le_bytes, from_le_bytes}
use secure_guard.Messages.{get_message_type, try_from}

verdicts-new_example :
    verdicts Replay.new (5 ∷ 3 ∷ 5 ∷ 200 ∷ []) ≡ spec_verdicts [] (5 ∷ 3 ∷ 5 ∷ 200 ∷ [])
verdicts-new_example = verdicts-new (5 ∷ 3 ∷ 5 ∷ 200 ∷ [])

no_replay_example : count 5 (passed Replay.new (5 ∷ 3 ∷ 5 ∷ 200 ∷ 5 ∷ [])) ≤ 1
no_replay_example = no_replay (5 ∷ 3 ∷ 5 ∷ 200 ∷ 5 ∷ []) 5

abbrev window : ReplayWindow
window = record { highest = 9; bitmap = 5 }

window_takes : (check_and_update window 8).1 ≡ true
unfolding check_and_update look_back
window_takes = refl

abbrev an_initiation : HandshakeInitiation
an_initiation = record {
  sender_index = 70000;
  ephemeral_public = replicate 32 1;
  encrypted_static = replicate 48 2;
  encrypted_timestamp = replicate 28 3;
  mac1 = replicate 16 4;
  mac2 = replicate 16 5;
}

an_initiation-IsInitiation : IsInitiation an_initiation
an_initiation-IsInitiation = record {
  sender_index = omega arith;
  ephemeral_public = refl;
  encrypted_static = refl;
  encrypted_timestamp = refl;
  mac1 = refl;
  mac2 = refl;
}

from_bytes-to_bytes_example :
    Initiation.from_bytes (Initiation.to_bytes an_initiation) ≡ ok an_initiation
from_bytes-to_bytes_example = from_bytes-to_bytes an_initiation an_initiation-IsInitiation

abbrev a_response : HandshakeResponse
a_response = record {
  sender_index = 70000;
  receiver_index = 5;
  ephemeral_public = replicate 32 1;
  encrypted_nothing = replicate 16 2;
  mac1 = replicate 16 4;
  mac2 = replicate 16 5;
}

a_response-IsResponse : IsResponse a_response
a_response-IsResponse = record {
  sender_index = omega arith;
  receiver_index = omega arith;
  ephemeral_public = refl;
  encrypted_nothing = refl;
  mac1 = refl;
  mac2 = refl;
}

abbrev a_key : List ℕ
a_key = replicate 32 9

verify_initiation_mac1-to_bytes_example :
    verify_initiation_mac1 toy
      (Initiation.to_bytes (Initiator.add_macs toy a_key none an_initiation))
      a_key
    ≡ ok tt
verify_initiation_mac1-to_bytes_example =
    verify_initiation_mac1-to_bytes toy toy_laws a_key none an_initiation an_initiation-IsInitiation

abbrev a_text : List ℕ
a_text = 69 ∷ 1 ∷ 2 ∷ []

abbrev sender : TransportState
sender = record {
  sending_key = a_key;
  receiving_key = replicate 32 8;
  sending_counter = 12;
  replay_window = record { highest = 0; bitmap = 0 };
}

abbrev receiver : TransportState
receiver = record {
  sending_key = replicate 32 8;
  receiving_key = a_key;
  sending_counter = 0;
  replay_window = record { highest = 9; bitmap = 5 };
}

abbrev a_packet : List ℕ
a_packet = Header.build_message 7 12 (a_text ++ replicate 16 9)

abbrev fresh : TransportState
fresh = record receiver { replay_window = Replay.new }

a_packet_opens : (decrypt toy (received toy fresh []) a_packet).1 ≡ ok a_text
unfolding received decrypt decrypt_packet Header.build_message Header.from_bytes Header.payload
    Crypto.decrypt Crypto.nonce_bytes Transport.admit check_and_update look_back Replay.advance
    Replay.new to_le_bytes from_le_bytes slice get_message_type try_from
a_packet_opens = refl

decrypt_again_example :
    let r' = received toy fresh (a_packet ∷ a_packet ∷ []) in
    (counter : ℕ) × (decrypt toy r' a_packet ≡ (r', err (protocol (replay_detected counter))))
decrypt_again_example =
    decrypt_again toy fresh [] (a_packet ∷ []) a_packet a_text refl a_packet_opens

too_short : (decrypt toy receiver a_text).1 ≡ err (protocol (invalid_message_length 32 3))
unfolding decrypt decrypt_packet
too_short = refl

stream-eq-map_example : stream toy sender receiver 7 (a_text ∷ [] ∷ []) ≡ map ok (a_text ∷ [] ∷ [])
stream-eq-map_example =
    stream-eq-map toy toy_laws sender receiver 7 (a_text ∷ [] ∷ []) refl (inr (omega arith))
      (omega arith) (omega arith) (omega arith)
