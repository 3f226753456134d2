-- ===== src/Handshake/Sealing.antt =====
-- What one side of the handshake encrypts the other decrypts, in the same symmetric state.
use secure_guard.Base.{ℕ, ◌+◌, ◌<◌, ◌^◌, List, length, false, ◌≡◌, refl, ltb, le→ltb_false, arith}
use secure_guard.Base.Result.{ok}
use secure_guard.Crypto.{Primitives, PrimitiveLaws, encrypt, decrypt, nonce_bytes, dh}
use secure_guard.Crypto.Noise.{HandshakeState, mix_hash, encrypt_and_hash, decrypt_and_hash}

module _ (p : Primitives) (laws : PrimitiveLaws p) where
  pub dh_swap : (a b : List ℕ) → dh p b (p.derive_public a) ≡ dh p a (p.derive_public b)
  unfolding dh
  dh_swap a b = laws.dh_comm b a

  -- What one side encrypts and hashes, the other decrypts in the same state, and both go on in
  -- the same state.
  pub decrypt_and_hash-encrypt_and_hash :
      (s : HandshakeState) (key text : List ℕ)
      → length text < 2 ^ 37
      → (s' : HandshakeState) × (sealed : List ℕ) × (length sealed ≡ length text + 16)
        × (encrypt_and_hash p s key text ≡ ok (s', sealed))
        × (decrypt_and_hash p s key sealed ≡ ok (s', text))
  unfolding encrypt_and_hash decrypt_and_hash encrypt decrypt
  decrypt_and_hash-encrypt_and_hash s key text short =
      let (sealed, e) = laws.seal_total key (nonce_bytes 0) text s.hash short in
      let len = laws.length-seal key (nonce_bytes 0) text s.hash sealed e in
      let long : ltb (length sealed) 16 ≡ false = le→ltb_false _ _ (omega arith) in
      (
        mix_hash p s sealed,
        sealed,
        len,
        rw e refl,
        rw (long, laws.unseal-seal key (nonce_bytes 0) text s.hash sealed e) refl,
      )
