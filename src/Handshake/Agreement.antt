-- ===== src/Handshake/Agreement.antt =====
-- The two sides of the handshake fit: from the laws of the primitives alone, every handshake
-- between two parties that know each other's keys and share a pre-shared key completes.
use secure_guard.Base.{length, ◌≡◌, refl}
use secure_guard.Base.Result.{ok}
use secure_guard.Messages.Initiation.{HandshakeInitiation}
use secure_guard.Messages.Response.{HandshakeResponse}
use secure_guard.Crypto.{Primitives, PrimitiveLaws}
use secure_guard.Handshake.{HandshakeResult}
use secure_guard.Handshake.Initiator
use secure_guard.Handshake.Initiator.{InitiatorHandshake, create_initiation, process_response}
use secure_guard.Handshake.Responder
use secure_guard.Handshake.Responder.{ResponderHandshake, process_initiation, create_response}
use secure_guard.Handshake.Parties.{Parties}
use secure_guard.Handshake.FirstHalf
use secure_guard.Handshake.SecondHalf

-- A handshake in which each of the four steps succeeds on what the other side sent, the
-- responder learns who the initiator is, and both end with the same keys, one's sending key
-- the other's receiving key.
pub record Completes (p : Primitives) (q : Parties) : Type 0 where
  pub initiation : HandshakeInitiation
  pub response : HandshakeResponse
  pub waiting : InitiatorHandshake
  pub answering : ResponderHandshake
  pub final_i : InitiatorHandshake
  pub final_r : ResponderHandshake
  pub result_i : HandshakeResult
  pub result_r : HandshakeResult
  pub created :
      create_initiation p
        (Initiator.new p q.initiator_static
          (p.derive_public q.responder_static)
          q.psk
          q.initiator_index)
        q.initiator_ephemeral
        q.timestamp
        q.initiator_cookie
      ≡ ok (waiting, initiation)
  pub processed :
      process_initiation p (Responder.new p q.responder_static q.responder_index) initiation
      ≡ ok (answering, p.derive_public q.initiator_static)
  pub responded :
      create_response p answering q.psk q.responder_ephemeral q.responder_cookie
      ≡ ok (final_r, response, result_r)
  pub finished : process_response p waiting response ≡ ok (final_i, result_i)
  pub sending : result_i.sending_key ≡ result_r.receiving_key
  pub receiving : result_i.receiving_key ≡ result_r.sending_key
  pub initiator_index :
      (result_i.local_index ≡ q.initiator_index) × (result_r.remote_index ≡ q.initiator_index)
  pub responder_index :
      (result_r.local_index ≡ q.responder_index) × (result_i.remote_index ≡ q.responder_index)

-- With primitives that keep their laws and a time stamp of twelve bytes, every handshake
-- completes, whatever the keys, the random values, the indices and the cookies.
pub handshake-Completes :
    (p : Primitives) → PrimitiveLaws p → (q : Parties) → length q.timestamp ≡ 12 → Completes p q
unfolding Initiator.new Responder.new
handshake-Completes p laws q len = record {
  initiation = FirstHalf.message p laws q len;
  response = SecondHalf.response p laws q waiting answering;
  waiting = waiting;
  answering = answering;
  final_i = SecondHalf.final_i p laws q waiting answering;
  final_r = SecondHalf.final_r p laws q waiting answering;
  result_i = SecondHalf.result_i p laws q waiting answering;
  result_r = SecondHalf.result_r p laws q waiting answering;
  created = FirstHalf.created p laws q len;
  processed = FirstHalf.processed p laws q len;
  responded = SecondHalf.responded p laws q waiting answering;
  finished = SecondHalf.finished p laws q waiting answering;
  sending = (SecondHalf.mirrored p laws q waiting answering).0;
  receiving = (SecondHalf.mirrored p laws q waiting answering).1;
  initiator_index = (refl, refl);
  responder_index = (refl, refl);
}
  where
    waiting : InitiatorHandshake
    waiting = FirstHalf.after_i p laws q len

    answering : ResponderHandshake
    answering = FirstHalf.after_r p laws q len
