-- ===== src/Transport/Delivery.antt =====
-- What one session encrypts the session at the other end decrypts, once.
use secure_guard.Base.{
  ℕ, ◌<◌, ◌^◌, true, false, inl, inr, List, [], ◌∷◌, ◌++◌, Bool-cases, sym, ◌∙◌, length, ltb, leb,
  ◌≡◌, refl, le→ltb_false, arith,
}
use secure_guard.Base.Result.{ok, err, Result-cases}
use secure_guard.Error.{MinnowVpnError, protocol, replay_detected}
use secure_guard.Messages.Header
use secure_guard.Messages.Header.RoundTrip.{
  length-build_message, from_bytes-build_message, payload-build_message,
}
use secure_guard.Crypto.{Primitives, PrimitiveLaws, nonce_bytes}
use secure_guard.Crypto
use secure_guard.Replay.{check_and_update}
use secure_guard.Replay
use secure_guard.Replay.Tracking.{Tracks, accepts, contains, check_and_update-Tracks}
use secure_guard.Replay.Refinement.{remember, remember-contains, accepted-contains}
use secure_guard.Replay.Twice.{check_and_update_refused}
use secure_guard.Transport.{
  TransportState, reject_after_messages, encrypt_packet, decrypt_packet, admit, decrypt,
}

module _ (p : Primitives) (laws : PrimitiveLaws p) where
  -- Below the message limit a text of less than 2^37 bytes is encrypted for an index below 2^32,
  -- and the same key opens the packet to its counter and text.
  pub decrypt_packet-encrypt_packet :
      (key : List ℕ) (counter index : ℕ) (text : List ℕ)
      → counter < reject_after_messages
      → index < 2 ^ 32
      → length text < 2 ^ 37
      → (packet : List ℕ) × (encrypt_packet p key counter index text ≡ ok packet)
        × (decrypt_packet p key packet ≡ ok (counter, text))
  unfolding encrypt_packet decrypt_packet Crypto.encrypt Crypto.decrypt
  decrypt_packet-encrypt_packet key counter index text low small short =
      let (sealed, e) = laws.seal_total key (nonce_bytes counter) text [] short in
      let len = laws.length-seal key (nonce_bytes counter) text [] sealed e in
      let below : leb reject_after_messages counter ≡ false = ground arith in
      let long : ltb (length (Header.build_message index counter sealed)) 32 ≡ false =
        le→ltb_false _ _ (omega (arith, length-build_message index counter sealed)) in
      let tagged : ltb (length sealed) 16 ≡ false = le→ltb_false _ _ (omega arith) in
      (
        Header.build_message index counter sealed,
        rw (below, e) refl,
        rw
            (
              long,
              from_bytes-build_message index counter sealed small (omega arith),
              payload-build_message index counter sealed,
              tagged,
              laws.unseal-seal key (nonce_bytes counter) text [] sealed e,
            )
            refl,
      )

module _ (p : Primitives) where
  -- A packet is delivered exactly when it decrypts and the window lets its counter through.
  decrypt-eq-ok :
      (t : TransportState) (packet text : List ℕ)
      → (decrypt p t packet).1 ≡ ok text
      → (counter : ℕ) × (decrypt_packet p t.receiving_key packet ≡ ok (counter, text))
        × ((check_and_update t.replay_window counter).1 ≡ true)
        × ((decrypt p t packet).0
            ≡ record t { replay_window = (check_and_update t.replay_window counter).0 })
  unfolding decrypt admit
  decrypt-eq-ok t packet text h = elim (Result-cases (decrypt_packet p t.receiving_key packet)) [
    | inl ((c, plain), e) ↦ (c, ground arith, ground arith, ground arith)
    | inr (f, e) ↦ absurd (ground arith)
  ]

  -- What a refused counter does.
  decrypt_refused :
      (t : TransportState) (packet text : List ℕ) (counter : ℕ)
      → decrypt_packet p t.receiving_key packet ≡ ok (counter, text)
      → (check_and_update t.replay_window counter).1 ≡ false
      → decrypt p t packet ≡ (t, err (protocol (replay_detected counter)))
  unfolding decrypt admit
  decrypt_refused t packet text counter e h =
      ground (arith, check_and_update_refused t.replay_window counter)

  -- The session after a sequence of packets came in.
  unfoldable pub received : TransportState → List (List ℕ) → TransportState
  received t [] = t
  received t (packet ∷ packets) = received (decrypt p t packet).0 packets

  received-append :
      (t : TransportState) (front back : List (List ℕ))
      → received t (front ++ back) ≡ received (received t front) back
  unfolding received
  received-append t [] back = refl
  received-append t (packet ∷ front) back = received-append (decrypt p t packet).0 front back

  -- A packet leaves the session's key, and its window stands for all counters that it stood for.
  record Grows (t t' : TransportState) (seen : List ℕ) : Type 0 where
    more : List ℕ
    same_key : t'.receiving_key ≡ t.receiving_key
    tracks : Tracks t'.replay_window more
    kept : (c : ℕ) → contains c seen ≡ true → contains c more ≡ true

  decrypt-Grows :
      (t : TransportState) (packet : List ℕ) (seen : List ℕ)
      → Tracks t.replay_window seen
      → Grows t (decrypt p t packet).0 seen
  unfolding decrypt admit remember
  decrypt-Grows t packet seen tracks =
      elim (Result-cases (decrypt_packet p t.receiving_key packet)) [
        | inr (f, e) ↦
            rw (e, decrypt)
              (record { more = seen; same_key = refl; tracks = tracks; kept = λ c h. h })
        | inl ((c, plain), e) ↦ elim (Bool-cases (check_and_update t.replay_window c).1) [
          | inr stale ↦
              rw (e, stale, decrypt, admit)
                (record {
                  more = seen;
                  same_key = refl;
                  tracks = rw (check_and_update_refused t.replay_window c stale) tracks;
                  kept = λ k h. h;
                })
          | inl fresh ↦
              rw (e, fresh, decrypt, admit)
                (record {
                  more = remember seen c;
                  same_key = refl;
                  tracks = (check_and_update-Tracks t.replay_window seen c tracks).1;
                  kept = λ k h. remember-contains seen c k h;
                })
        ]
      ]

  received-Grows :
      (t : TransportState) (packets : List (List ℕ)) (seen : List ℕ)
      → Tracks t.replay_window seen
      → Grows t (received t packets) seen
  unfolding received
  received-Grows t [] seen tracks = record {
    more = seen;
    same_key = refl;
    tracks = tracks;
    kept = λ c h. h;
  }
  received-Grows t (packet ∷ packets) seen tracks =
      let first = decrypt-Grows t packet seen tracks in
      let rest = received-Grows (decrypt p t packet).0 packets first.more first.tracks in
      record {
        more = rest.more;
        same_key = rest.same_key ∙ first.same_key;
        tracks = rest.tracks;
        kept = λ c h. rest.kept c (first.kept c h);
      }

  -- A counter that was let through is not let through again.
  known_refused :
      (t : TransportState) (counter : ℕ) (seen : List ℕ)
      → Tracks t.replay_window seen
      → contains counter seen ≡ true
      → (check_and_update t.replay_window counter).1 ≡ false
  unfolding accepts
  known_refused t counter seen tracks known =
      (check_and_update-Tracks t.replay_window seen counter tracks).0 ∙ rw known refl

  -- Where a session starts with an empty window, whatever packets come before and between, a
  -- packet that it decrypted once is refused as a replay whenever it comes again, and the copy
  -- changes nothing.
  pub decrypt_again :
      (t : TransportState) (before between : List (List ℕ)) (packet text : List ℕ)
      → t.replay_window ≡ Replay.new
      → (decrypt p (received t before) packet).1 ≡ ok text
      → let t' = received t (before ++ packet ∷ between) in
        (counter : ℕ) × (decrypt p t' packet ≡ (t', err (protocol (replay_detected counter))))
  unfolding received remember
  decrypt_again t before between packet text empty h =
      let s = received t before in
      let start = received-Grows t before [] (inl (empty, refl)) in
      let (counter, opened, fresh, next) = decrypt-eq-ok s packet text h in
      let (verdict, tracks) =
        check_and_update-Tracks s.replay_window start.more counter start.tracks in
      let s' = (decrypt p s packet).0 in
      let known = accepted-contains start.more counter counter (sym verdict ∙ fresh, refl) in
      let tracks' : Tracks s'.replay_window (remember start.more counter) = rw next tracks in
      let rest = received-Grows s' between (remember start.more counter) tracks' in
      let key : s'.receiving_key ≡ s.receiving_key = rw next refl in
      (
        counter,
        rw (received-append t before (packet ∷ between)) (
            decrypt_refused (received s' between) packet text counter
              (rw (rest.same_key ∙ key) opened)
              (known_refused (received s' between) counter rest.more rest.tracks
                (rest.kept counter known))),
      )

  -- A packet that is not delivered leaves the session as it was.
  pub decrypt-eq-err :
      (t : TransportState) (packet : List ℕ) {e : MinnowVpnError}
      → (decrypt p t packet).1 ≡ err e
      → (decrypt p t packet).0 ≡ t
  unfolding decrypt admit
  decrypt-eq-err t packet h = elim (Result-cases (decrypt_packet p t.receiving_key packet)) [
    | inl ((c, plain), e) ↦ ground (arith, check_and_update_refused t.replay_window c)
    | inr (f, e) ↦ ground arith
  ]
