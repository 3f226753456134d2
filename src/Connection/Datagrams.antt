-- ===== src/Connection/Datagrams.antt =====
-- The two datagrams of a handshake, as the client and the server make them.
use secure_guard.Base.{◌<◌, ◌^◌, length, ◌≡◌, refl, arith}
use secure_guard.Base.Result.{ok}
use secure_guard.Messages.Initiation
use secure_guard.Messages.Initiation.RoundTrip.{IsInitiation, from_bytes-to_bytes}
use secure_guard.Messages.Response
use secure_guard.Messages.Response.{HandshakeResponse}
use secure_guard.Messages.Response.RoundTrip.{IsResponse, from_bytes-to_bytes_response}
use secure_guard.Crypto.{Primitives, PrimitiveLaws}
use secure_guard.Handshake.{verify_initiation_mac1, verify_response_mac1}
use secure_guard.Handshake.Initiator.{InitiatorHandshake}
use secure_guard.Handshake.Responder.{ResponderHandshake}
use secure_guard.Handshake.Parties.{Parties}
use secure_guard.Handshake.InitiationMac.{add_macs-IsInitiation, verify_initiation_mac1-to_bytes}
use secure_guard.Handshake.ResponseMac.{add_macs-IsResponse, verify_response_mac1-to_bytes}
use secure_guard.Handshake.FirstHalf
use secure_guard.Handshake.SecondHalf

module _ (p : Primitives) (laws : PrimitiveLaws p) (q : Parties)
    (len : length q.timestamp ≡ 12) where
  plain-IsInitiation :
      q.initiator_index < 2 ^ 32
      → IsInitiation (
          Initiation.new q.initiator_index
            (p.derive_public q.initiator_ephemeral)
            (FirstHalf.sealed_static p laws q len).1
            (FirstHalf.sealed_timestamp p laws q len).1)
  unfolding Initiation.new
  plain-IsInitiation small = record {
    sender_index = small;
    ephemeral_public = laws.length-derive_public q.initiator_ephemeral;
    encrypted_static = FirstHalf.static_48 p laws q len;
    encrypted_timestamp = FirstHalf.timestamp_28 p laws q len;
    mac1 = refl;
    mac2 = refl;
  }

  -- The server parses the initiation and accepts its MAC1.
  pub initiation_accepted :
      q.initiator_index < 2 ^ 32
      → let m = FirstHalf.message p laws q len in
        (Initiation.from_bytes (Initiation.to_bytes m) ≡ ok m)
        × (verify_initiation_mac1 p (Initiation.to_bytes m) (p.derive_public q.responder_static)
            ≡ ok tt)
  initiation_accepted small =
      let v = plain-IsInitiation small in
      let k = p.derive_public q.responder_static in
      (
        from_bytes-to_bytes _ (add_macs-IsInitiation p laws k q.initiator_cookie _ v),
        verify_initiation_mac1-to_bytes p laws k q.initiator_cookie _ v,
      )

module _ (p : Primitives) (laws : PrimitiveLaws p) (q : Parties) (i : InitiatorHandshake)
    (r : ResponderHandshake) where
  plain-IsResponse :
      i.sender_index < 2 ^ 32
      → r.sender_index < 2 ^ 32
      → IsResponse (SecondHalf.plain_response p laws q i r)
  unfolding Response.new
  plain-IsResponse small_i small_r = record {
    sender_index = small_r;
    receiver_index = small_i;
    ephemeral_public = laws.length-derive_public q.responder_ephemeral;
    encrypted_nothing = omega (arith, (SecondHalf.sealed_nothing p laws q i r).2);
    mac1 = refl;
    mac2 = refl;
  }

  -- The client parses the response and accepts its MAC1.
  pub response_accepted :
      i.sender_index < 2 ^ 32
      → r.sender_index < 2 ^ 32
      → let m = SecondHalf.response p laws q i r in
        (Response.from_bytes (Response.to_bytes m) ≡ ok m)
        × (verify_response_mac1 p (Response.to_bytes m) (p.derive_public i.static_private) ≡ ok tt)
  response_accepted small_i small_r =
      let v = plain-IsResponse small_i small_r in
      let k = p.derive_public i.static_private in
      (
        from_bytes-to_bytes_response _ (add_macs-IsResponse p laws k q.responder_cookie _ v),
        verify_response_mac1-to_bytes p laws k q.responder_cookie _ v,
      )
