-- ===== src/Transport/Counters.antt =====
-- A session over many packets: its counters, and a stream that arrives in order.
use secure_guard.Base.{
  ℕ, ◌+◌, ◌≤◌, ◌<◌, ◌^◌, true, List, [], ◌∷◌, map, length, leb, ◌≡◌, refl, ap, ap₂, ◌∙◌, inr, arith,
}
use secure_guard.Base.Words.{wrap_u64}
use secure_guard.Base.Result.{Result, ok, err}
use secure_guard.Error.{MinnowVpnError, protocol, session_expired}
use secure_guard.Crypto.{Primitives, PrimitiveLaws}
use secure_guard.Replay.{check_and_update}
use secure_guard.Replay.Order.{Before, Before-fresh}
use secure_guard.Transport.{
  TransportState, reject_after_messages, encrypt_packet, decrypt_packet, admit, encrypt, decrypt,
}
use secure_guard.Transport.Delivery.{decrypt_packet-encrypt_packet}

module _ (p : Primitives) where
  -- The session encrypts one text after the other for the peer's session `index`.
  pub sends : TransportState → ℕ → List (List ℕ) → List (Result (List ℕ) MinnowVpnError)
  sends t index [] = []
  sends t index (x ∷ xs) = (encrypt p t index x).1 ∷ sends (encrypt p t index x).0 index xs

  -- The same with the counters written out: n, n + 1, n + 2, and so on.
  pub numbered : List ℕ → ℕ → ℕ → List (List ℕ) → List (Result (List ℕ) MinnowVpnError)
  numbered key n index [] = []
  numbered key n index (x ∷ xs) = encrypt_packet p key n index x ∷ numbered key (n + 1) index xs

  -- As long as the u64 does not wrap, every packet gets a counter of its own: the first the
  -- session's counter, each other one more than the packet before it.
  pub sends-eq-numbered :
      (t : TransportState) (index : ℕ) (texts : List (List ℕ))
      → t.sending_counter + length texts < 2 ^ 64
      → sends t index texts ≡ numbered t.sending_key t.sending_counter index texts
  unfolding sends numbered encrypt
  sends-eq-numbered t index [] h = refl
  sends-eq-numbered t index (x ∷ xs) h =
      let small : wrap_u64 (t.sending_counter + 1) ≡ t.sending_counter + 1 = omega arith in
      ap (◌∷◌ (encrypt_packet p t.sending_key t.sending_counter index x)) (
        sends-eq-numbered (record t { sending_counter = wrap_u64 (t.sending_counter + 1) }) index xs
          (omega arith)
        ∙ ap (λ n. numbered t.sending_key n index xs) small)

  -- From the limit on every packet is refused, with no call of the cipher, until the counter wraps.
  pub encrypt_expired :
      (t : TransportState) (index : ℕ) (text : List ℕ)
      → reject_after_messages ≤ t.sending_counter
      → (encrypt p t index text).1 ≡ err (protocol session_expired)
  unfolding encrypt encrypt_packet
  encrypt_expired t index text h =
      let over : leb reject_after_messages t.sending_counter ≡ true = ground arith in rw over refl

  -- Sender and receiver joined by a line that keeps the order; what the receiver hands on.
  pub relay :
      TransportState → TransportState → ℕ → List ℕ → TransportState × Result (List ℕ) MinnowVpnError
  relay t r index text = elim (encrypt p t index text).1 [
    | err e ↦ (r, err e)
    | ok packet ↦ decrypt p r packet
  ]

  pub stream :
      TransportState → TransportState → ℕ → List (List ℕ) → List (Result (List ℕ) MinnowVpnError)
  stream t r index [] = []
  stream t r index (x ∷ xs) =
      (relay t r index x).1 ∷ stream (encrypt p t index x).0 (relay t r index x).0 index xs

abbrev pub AllShort : List (List ℕ) → Type 0
AllShort [] = Unit
AllShort (x ∷ xs) = (length x < 2 ^ 37) × AllShort xs

module _ (p : Primitives) (laws : PrimitiveLaws p) where
  pub decrypt_fresh :
      (r : TransportState) (packet text : List ℕ) (counter : ℕ)
      → decrypt_packet p r.receiving_key packet ≡ ok (counter, text)
      → (check_and_update r.replay_window counter).1 ≡ true
      → decrypt p r packet
        ≡ (record r { replay_window = (check_and_update r.replay_window counter).0 }, ok text)
  unfolding decrypt admit
  decrypt_fresh r packet text counter e h = ground arith

  relay_lem :
      (t r : TransportState) (index : ℕ) (text : List ℕ)
      → r.receiving_key ≡ t.sending_key
      → Before r.replay_window t.sending_counter
      → t.sending_counter < reject_after_messages
      → index < 2 ^ 32
      → length text < 2 ^ 37
      → relay p t r index text ≡ (
        record r { replay_window = (check_and_update r.replay_window t.sending_counter).0 },
        ok text,
      )
  unfolding relay encrypt
  relay_lem t r index text same before low small short =
      let (packet, sealed, opened) =
        decrypt_packet-encrypt_packet p laws t.sending_key t.sending_counter index text low small
          short in
      rw (sealed, relay)
        (decrypt_fresh r packet text t.sending_counter (rw same opened)
          (Before-fresh r.replay_window t.sending_counter before).0)

  -- A stream of texts that one session encrypts and that reaches the other in order is handed on
  -- whole: every text, in order, each once. The receiver opens with the sender's key and has let
  -- through no counter from the sender's on, the message limit is not passed, the index is below
  -- 2^32, each text is shorter than 2^37 bytes, and the primitives keep their laws.
  pub stream-eq-map :
      (t r : TransportState) (index : ℕ) (texts : List (List ℕ))
      → r.receiving_key ≡ t.sending_key
      → Before r.replay_window t.sending_counter
      → t.sending_counter + length texts ≤ reject_after_messages
      → index < 2 ^ 32
      → AllShort texts
      → stream p t r index texts ≡ map ok texts
  unfolding stream encrypt
  stream-eq-map t r index [] same before room small short = refl
  stream-eq-map t r index (x ∷ xs) same before room small short =
      let fresh = Before-fresh r.replay_window t.sending_counter before in
      let step = relay_lem t r index x same before (omega arith) small short.0 in
      ap₂ ◌∷◌ (ap (λ s. s.1) step) (
        ap
          (λ s.
            stream p (record t { sending_counter = wrap_u64 (t.sending_counter + 1) }) s.0 index xs)
          step
        ∙ stream-eq-map (record t { sending_counter = wrap_u64 (t.sending_counter + 1) })
            (record r { replay_window = (check_and_update r.replay_window t.sending_counter).0 })
            index xs same (inr (omega (arith, fresh.1))) (omega arith) small short.1)
