-- ===== src/Crypto/Noise.antt =====
-- src/crypto/noise.rs: the symmetric state of the Noise IKpsk2 handshake and its keys.
use secure_guard.Base.{ℕ, List, [], ◌∷◌}
use secure_guard.Base.Result.{Result, ok, ◌>>=◌}
use secure_guard.Error.{CryptoError}
use Prim.Native.Char.{code}
use secure_guard.Base.{String}
use secure_guard.Crypto.{Primitives, hash, hash_two, mac, kdf2, kdf3, encrypt, decrypt}

pub record HandshakeState : Type 0 where
  pub chaining_key : List ℕ
  pub hash : List ℕ

abbrev pub codes : String → List ℕ
codes String.[] = []
codes (String.◌∷◌ c s) = code c ∷ codes s

abbrev pub construction : List ℕ
construction = codes "Noise_IKpsk2_25519_ChaChaPoly_BLAKE2s"

abbrev pub identifier : List ℕ
identifier = codes "WireGuard v1 zx2c4 Jason@zx2c4.com"

abbrev pub label_mac1 : List ℕ
label_mac1 = codes "mac1----"

abbrev pub label_cookie : List ℕ
label_cookie = codes "cookie--"

module _ (p : Primitives) where
  unfoldable pub initial_chain_key : List ℕ
  initial_chain_key = hash p construction

  unfoldable pub initial_hash : List ℕ → List ℕ
  initial_hash responder_static =
      let ck = initial_chain_key in
      let h1 = hash_two p ck identifier in hash_two p h1 responder_static

  unfoldable pub new_initiator : List ℕ → HandshakeState
  new_initiator responder_static = record {
    chaining_key = initial_chain_key;
    hash = initial_hash responder_static;
  }

  unfoldable pub new_responder : List ℕ → HandshakeState
  new_responder our_static_public = record {
    chaining_key = initial_chain_key;
    hash = initial_hash our_static_public;
  }

  -- The methods return the new state, with the derived key where there is one.
  unfoldable pub mix_hash : HandshakeState → List ℕ → HandshakeState
  mix_hash s bytes = record s { hash = hash_two p s.hash bytes }

  unfoldable pub mix_key : HandshakeState → List ℕ → HandshakeState × List ℕ
  mix_key s input =
      let (new_ck, key) = kdf2 p s.chaining_key input in (record s { chaining_key = new_ck }, key)

  unfoldable pub mix_key_and_hash : HandshakeState → List ℕ → HandshakeState × List ℕ
  mix_key_and_hash s psk =
      let (new_ck, temp_h, key) = kdf3 p s.chaining_key psk in
      (mix_hash (record s { chaining_key = new_ck }) temp_h, key)

  unfoldable pub encrypt_and_hash :
      HandshakeState → List ℕ → List ℕ → Result (HandshakeState × List ℕ) CryptoError
  encrypt_and_hash s key plaintext = do
    ciphertext ← encrypt p key 0 plaintext s.hash
    ok (mix_hash s ciphertext, ciphertext)

  unfoldable pub decrypt_and_hash :
      HandshakeState → List ℕ → List ℕ → Result (HandshakeState × List ℕ) CryptoError
  decrypt_and_hash s key ciphertext = do
    plaintext ← decrypt p key 0 ciphertext s.hash
    ok (mix_hash s ciphertext, plaintext)

pub record TransportKeys : Type 0 where
  pub sending_key : List ℕ
  pub receiving_key : List ℕ

module _ (p : Primitives) where
  unfoldable pub derive_initiator : List ℕ → TransportKeys
  derive_initiator chaining_key =
      let (t_send, t_recv) = kdf2 p chaining_key [] in
      record { sending_key = t_send; receiving_key = t_recv }

  unfoldable pub derive_responder : List ℕ → TransportKeys
  derive_responder chaining_key =
      let (t_recv, t_send) = kdf2 p chaining_key [] in
      record { sending_key = t_send; receiving_key = t_recv }

  unfoldable pub mac1_key : List ℕ → List ℕ
  mac1_key peer_public = hash_two p label_mac1 peer_public

  unfoldable pub compute_mac1 : List ℕ → List ℕ → List ℕ
  compute_mac1 peer_public message = let key = mac1_key peer_public in mac p key message

  unfoldable pub cookie_key : List ℕ → List ℕ
  cookie_key peer_public = hash_two p label_cookie peer_public
