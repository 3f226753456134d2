-- ===== src/Server/Handshake/Replayed.antt =====
-- A recorded initiation, sent again to a server that answered it.
use secure_guard.Base.{
  ℕ, List, [], ◌∷◌, length, ◌==◌, ==_iff, true, if◌then◌else◌, Option, none, ◌≡◌, refl, ap, ◌∙◌,
  inl, inr, Option-cases, Bool-cases, arith,
}
use secure_guard.Base.Result.{ok, Result-cases}
use secure_guard.Base.HashMap.{key_eq}
use secure_guard.Net.{SocketAddr}
use secure_guard.Crypto.{Primitives, PrimitiveLaws, generate_keypair, dh}
use secure_guard.Crypto.Noise.{mix_key, mix_key_and_hash, decrypt_and_hash}
use secure_guard.Messages.Initiation
use secure_guard.Messages.Initiation.{HandshakeInitiation}
use secure_guard.Messages.Response
use secure_guard.Messages.Response.{HandshakeResponse}
use secure_guard.Handshake.{HandshakeResult, verify_initiation_mac1}
use secure_guard.Handshake.Initiator.{mix_ephemeral, psk_or_zeros}
use secure_guard.Handshake.Responder
use secure_guard.Handshake.Responder.{ResponderHandshake, process_initiation, create_response}
use secure_guard.Handshake.Sealing.{decrypt_and_hash-encrypt_and_hash}
use secure_guard.Peer.Manager
use secure_guard.Server.{
  WireGuardServer, Effect, send_udp, connected, active_peers, is_daemon, event,
}
use secure_guard.Server.Inputs.{Inputs}
use secure_guard.Server.Handshake.{prepare_response, handle_handshake_initiation}
use secure_guard.Server.Handshake.Repeated.{prepare_response-handle_handshake_initiation}
use secure_guard.Server.Handshake.Answered.{Entered, handle_handshake_initiation-Entered}

module _ (p : Primitives) where
  -- The index of the responder plays no part in how an initiation is taken in.
  process_initiation-sender_index :
      (h r : ResponderHandshake) (initiation : HandshakeInitiation) (peer_public : List ℕ)
      (index : ℕ)
      → process_initiation p h initiation ≡ ok (r, peer_public)
      → process_initiation p (record h { sender_index = index }) initiation
        ≡ ok (record r { sender_index = index }, peer_public)
  unfolding process_initiation
  process_initiation-sender_index h r initiation peer_public index e =
      let s1 = mix_ephemeral p h.noise_state initiation.ephemeral_public in
      let m2 = mix_key p s1 (dh p h.static_private initiation.ephemeral_public) in
      elim (Result-cases (decrypt_and_hash p m2.0 m2.1 initiation.encrypted_static)) [
        | inr (f, bad) ↦ absurd (cc (rw bad at e))
        | inl ((s3, static_bytes), good) ↦ elim (Bool-cases (length static_bytes == 32)) [
          | inr long ↦ absurd (cc (rw (good, long) at e))
          | inl short ↦
              let m4 = mix_key p s3 (dh p h.static_private static_bytes) in
              elim (Result-cases (decrypt_and_hash p m4.0 m4.1 initiation.encrypted_timestamp)) [
                | inr (f, bad) ↦ absurd (cc (rw (good, short, bad) at e))
                | inl ((s5, timestamp), stamped) ↦ ground (arith, good, short, stamped)
              ]
        ]
      ]

module _ (p : Primitives) (laws : PrimitiveLaws p) where
  create_response_total :
      (h : ResponderHandshake) (psk : Option (List ℕ)) (secret : List ℕ)
      → (h' : ResponderHandshake) × (response : HandshakeResponse) × (result : HandshakeResult)
        × (create_response p h psk secret none ≡ ok (h', response, result))
  unfolding create_response generate_keypair
  create_response_total h psk secret =
      let public = p.derive_public secret in
      let m2 =
        mix_key p (mix_ephemeral p h.noise_state public) (dh p secret h.initiator_ephemeral) in
      let m3 = mix_key p m2.0 (dh p secret h.initiator_static) in
      let m4 = mix_key_and_hash p m3.0 (psk_or_zeros psk) in
      let (s5, sealed, len, done, opened) =
        decrypt_and_hash-encrypt_and_hash p laws m4.0 m4.1 [] (omega arith) in
      elim (Result-cases (create_response p h psk secret none)) [
        | inl ((h', response, result), e) ↦ (h', response, result, e)
        | inr (f, e) ↦
            let sized : (length sealed == 16) ≡ true =
              (==_iff (length sealed) 16).1 (omega arith) in
            absurd (cc (rw (done, sized) at e))
      ]

  -- What is prepared for an initiation is prepared for it with any other random values.
  prepare_response-again :
      (s : WireGuardServer) (packet : List ℕ) (inp inp' : Inputs) (key : List ℕ)
      (response : HandshakeResponse) (result : HandshakeResult)
      → prepare_response p s packet inp ≡ ok (key, response, result)
      → (response' : HandshakeResponse) × (result' : HandshakeResult) × (prepare_response p s packet
            inp'
          ≡ ok (key, response', result'))
  unfolding prepare_response Responder.new
  prepare_response-again s packet inp inp' key response result h =
      elim (Result-cases (Initiation.from_bytes packet)) [
        | inr (f, e) ↦ absurd (ground arith)
        | inl (initiation, e) ↦
            elim (Result-cases (verify_initiation_mac1 p packet s.static_public)) [
              | inr (f, v) ↦ absurd (ground arith)
              | inl (done, v) ↦
                  elim (Result-cases (
                    process_initiation p (Responder.new p s.static_private inp.sender_index)
                      initiation)) [
                        | inr (f, r) ↦ absurd (ground arith)
                        | inl ((responder, peer_public), r) ↦
                            let r' =
                              process_initiation-sender_index p
                                (Responder.new p s.static_private inp.sender_index) responder
                                initiation peer_public inp'.sender_index r in
                            elim (Option-cases (Manager.get_peer (active_peers s) peer_public)) [
                              | inl g ↦ absurd (ground arith)
                              | inr (peer, g) ↦
                                  let (h', response', result', made) =
                                    create_response_total
                                      (record responder { sender_index = inp'.sender_index })
                                      peer.psk inp'.secret in
                                  let same : peer_public ≡ key =
                                    elim (Result-cases
                                      (create_response p responder peer.psk inp.secret none)) [
                                        | inr (f, c) ↦ absurd (ground arith)
                                        | inl (done, c) ↦ ground arith
                                      ] in
                                  (
                                    response',
                                    result',
                                    rw (e, v, r', g, made, prepare_response)
                                        (ap (λ k. ok (k, response', result')) same),
                                  )
                            ]
                      ]
            ]
      ]

-- The server answers an initiation: the response that is prepared is sent to where the packet came
-- from, the handler ends well, and the session is entered under the peer.
pub record Answers (p : Primitives) (s : WireGuardServer) (packet : List ℕ) (from : SocketAddr)
    (inp : Inputs) (key : List ℕ) : Type 0 where
  pub response : HandshakeResponse
  pub result : HandshakeResult
  pub more : List Effect
  pub replied :
      (handle_handshake_initiation p s packet from inp).1
      ≡ send_udp (Response.to_bytes response) from ∷ more
  pub handled : (handle_handshake_initiation p s packet from inp).2 ≡ ok tt
  pub entered :
      Entered
        (active_peers (handle_handshake_initiation p s packet from inp).0)
        key
        result
        from
        inp.now

handle_handshake_initiation-Answers :
    (p : Primitives) (s : WireGuardServer) (packet : List ℕ) (from : SocketAddr) (inp : Inputs)
    (key : List ℕ) (response : HandshakeResponse) (result : HandshakeResult)
    → prepare_response p s packet inp ≡ ok (key, response, result)
    → inp.send_error ≡ none
    → Answers p s packet from inp key
unfolding handle_handshake_initiation
handle_handshake_initiation-Answers p s packet from inp key response result prepared sent =
    let (handled, entered) =
      handle_handshake_initiation-Entered p s packet from inp key response result prepared sent in
    record {
      response = response;
      result = result;
      more = if is_daemon s then event s (connected key from) else [];
      replied = rw (prepared, sent, handle_handshake_initiation) refl;
      handled = handled;
      entered = entered;
    }

-- There is no protection against replayed initiations: an initiation for which the server prepares
-- a response, and sends it, is answered, and when it is sent again, at any time, from whatever
-- address and met with whatever other random values, it is answered again: a response goes to that
-- address, and a new session is entered under the same peer, which is then reached there. The
-- primitives keep their laws, and sending does not fail.
pub handle_handshake_initiation_twice :
    (p : Primitives) (laws : PrimitiveLaws p) (s : WireGuardServer) (packet : List ℕ)
    (from elsewhere : SocketAddr) (inp inp' : Inputs) (key : List ℕ) (response : HandshakeResponse)
    (result : HandshakeResult)
    → prepare_response p s packet inp ≡ ok (key, response, result)
    → inp.send_error ≡ none
    → inp'.send_error ≡ none
    → Answers p s packet from inp key
      × Answers p (handle_handshake_initiation p s packet from inp).0 packet elsewhere inp' key
handle_handshake_initiation_twice p laws s packet from elsewhere inp inp' key response result
      prepared sent sent' =
    let (response', result', again) =
      prepare_response-again p laws s packet inp inp' key response result prepared in
    (
      handle_handshake_initiation-Answers p s packet from inp key response result prepared sent,
      handle_handshake_initiation-Answers p (handle_handshake_initiation p s packet from inp).0
          packet elsewhere inp' key response' result'
          (prepare_response-handle_handshake_initiation p s packet from inp packet inp' ∙ again)
          sent',
    )
