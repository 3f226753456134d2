-- ===== src/Transport.antt =====
-- src/protocol/transport.rs: encryption of packets and the transport state of a session. (Its
-- replay window is the module `Replay`.) A method returns the new state and its result; the
-- counter is a u64, whose `+= 1` wraps.
pub mod Delivery
pub mod Counters
use secure_guard.Base.{
  ℕ, ◌+◌, ◌-◌, ◌^◌, Bool, true, false, List, [], length, ltb, leb, if◌then◌else◌,
}
use secure_guard.Base.Words.{wrap_u64}
use secure_guard.Base.Result.{Result, ok, err, ◌>>=◌, ◌>>◌, map_err, fail_if}
use secure_guard.Error.{
  MinnowVpnError, crypto, protocol, decryption, session_expired, replay_detected,
  invalid_message_length,
}
use secure_guard.Messages.Header
use secure_guard.Replay
use secure_guard.Replay.{ReplayWindow}
use secure_guard.Crypto.{Primitives}
use secure_guard.Crypto

-- `u64::MAX - 8192`.
abbrev pub reject_after_messages : ℕ
reject_after_messages = 2 ^ 64 - 1 - 8192

pub record TransportState : Type 0 where
  pub sending_key : List ℕ
  pub receiving_key : List ℕ
  pub sending_counter : ℕ
  pub replay_window : ReplayWindow

unfoldable pub new : List ℕ → List ℕ → TransportState
new sending_key receiving_key = record {
  sending_key = sending_key;
  receiving_key = receiving_key;
  sending_counter = 0;
  replay_window = Replay.new;
}

-- Rekey well before the limit.
unfoldable pub needs_rekey_by_counter : TransportState → Bool
needs_rekey_by_counter t = leb (reject_after_messages - 1000) t.sending_counter

-- The end of `decrypt`: the window decides.
unfoldable pub admit : TransportState → ℕ → List ℕ → TransportState × Result (List ℕ) MinnowVpnError
admit t counter plaintext =
    let (window, fresh) = Replay.check_and_update t.replay_window counter in
    let t' = record t { replay_window = window } in
    if fresh then (t', ok plaintext) else (t', err (protocol (replay_detected counter)))

module _ (p : Primitives) where
  unfoldable pub encrypt_packet : List ℕ → ℕ → ℕ → List ℕ → Result (List ℕ) MinnowVpnError
  encrypt_packet key counter receiver_index plaintext = do
    fail_if (leb reject_after_messages counter) (protocol session_expired)
    ciphertext ← map_err crypto (Crypto.encrypt p key counter plaintext [])
    ok (Header.build_message receiver_index counter ciphertext)

  unfoldable pub decrypt_packet : List ℕ → List ℕ → Result (ℕ × List ℕ) MinnowVpnError
  decrypt_packet key packet = do
    fail_if (ltb (length packet) Header.min_size)
        (protocol (invalid_message_length Header.min_size (length packet)))
    header ← map_err protocol (Header.from_bytes packet)
    let ciphertext = Header.payload packet
    fail_if (ltb (length ciphertext) 16) (crypto decryption)
    plaintext ← map_err crypto (Crypto.decrypt p key header.counter ciphertext [])
    ok (header.counter, plaintext)

  -- The counter moves on also where the packet is refused.
  unfoldable pub encrypt :
      TransportState → ℕ → List ℕ → TransportState × Result (List ℕ) MinnowVpnError
  encrypt t receiver_index plaintext = (
    record t { sending_counter = wrap_u64 (t.sending_counter + 1) },
    encrypt_packet t.sending_key t.sending_counter receiver_index plaintext,
  )

  unfoldable pub decrypt : TransportState → List ℕ → TransportState × Result (List ℕ) MinnowVpnError
  unfolding admit
  decrypt t packet = elim (decrypt_packet t.receiving_key packet) [
    | err e ↦ (t, err e)
    | ok (counter, plaintext) ↦ admit t counter plaintext
  ]
