-- ===== src/Crypto.antt =====
-- src/crypto/: BLAKE2s, the AEADs and X25519 as the program calls them. The crates blake2,
-- hmac, chacha20poly1305 and x25519-dalek are not part of the repository: their functions are
-- the record `Primitives`, a parameter of all that uses them, and what the proofs need of them
-- is the record `PrimitiveLaws`.
pub mod Noise
use secure_guard.Base.{
  ℕ, ◌+◌, ◌<◌, ◌^◌, Bool, true, false, not, ltb, ◌==◌, ◌&&◌, if◌then◌else◌, List, [], ◌∷◌, ◌++◌,
  length, Option, some, replicate, ◌≡◌,
}
use secure_guard.Base.Words.{to_le_bytes}
use secure_guard.Base.Result.{Result, ok_or, ◌>>◌, fail_if}
use secure_guard.Error.{CryptoError, encryption, decryption}

-- `seal key nonce plaintext aad` and `unseal` are `encrypt` and `decrypt` of
-- ChaCha20Poly1305, `xseal` and `xunseal` those of XChaCha20Poly1305.
pub record Primitives : Type 0 where
  pub blake2s : List ℕ → List ℕ
  pub blake2s_mac : List ℕ → List ℕ → List ℕ
  pub hmac_blake2s : List ℕ → List ℕ → List ℕ
  pub seal : List ℕ → List ℕ → List ℕ → List ℕ → Option (List ℕ)
  pub unseal : List ℕ → List ℕ → List ℕ → List ℕ → Option (List ℕ)
  pub xseal : List ℕ → List ℕ → List ℕ → List ℕ → Option (List ℕ)
  pub xunseal : List ℕ → List ℕ → List ℕ → List ℕ → Option (List ℕ)
  pub derive_public : List ℕ → List ℕ
  pub diffie_hellman : List ℕ → List ℕ → List ℕ

-- Documented behaviour: the AEAD opens what it sealed under the same key, nonce and
-- associated data, adds a tag of 16 bytes, and refuses no plaintext below its limit; both
-- sides of X25519 compute one secret; outputs have their fixed lengths.
pub record PrimitiveLaws (p : Primitives) : Type 0 where
  pub unseal-seal :
      (key nonce text aad sealed : List ℕ)
      → p.seal key nonce text aad ≡ some sealed
      → p.unseal key nonce sealed aad ≡ some text
  pub length-seal :
      (key nonce text aad sealed : List ℕ)
      → p.seal key nonce text aad ≡ some sealed
      → length sealed ≡ length text + 16
  pub seal_total :
      (key nonce text aad : List ℕ)
      → length text < 2 ^ 37
      → (sealed : List ℕ) × (p.seal key nonce text aad ≡ some sealed)
  pub dh_comm :
      (a b : List ℕ)
      → p.diffie_hellman a (p.derive_public b) ≡ p.diffie_hellman b (p.derive_public a)
  pub length-derive_public : (a : List ℕ) → length (p.derive_public a) ≡ 32
  pub length-blake2s_mac : (key bytes : List ℕ) → length (p.blake2s_mac key bytes) ≡ 16

abbrev pub tag_len : ℕ
tag_len = 16

-- aead.rs: four zero bytes, then the counter.
unfoldable pub nonce_bytes : ℕ → List ℕ
nonce_bytes counter = replicate 4 0 ++ to_le_bytes 8 counter

module _ (p : Primitives) where
  -- blake2s.rs
  unfoldable pub hash : List ℕ → List ℕ
  hash bytes = p.blake2s bytes

  unfoldable pub hash_two : List ℕ → List ℕ → List ℕ
  hash_two a b = p.blake2s (a ++ b)

  unfoldable pub mac : List ℕ → List ℕ → List ℕ
  mac key bytes = p.blake2s_mac key bytes

  unfoldable pub mac_with_cookie : List ℕ → List ℕ → List ℕ
  mac_with_cookie key bytes = p.blake2s_mac key bytes

  unfoldable pub hmac : List ℕ → List ℕ → List ℕ
  hmac key bytes = p.hmac_blake2s key bytes

  unfoldable pub kdf1 : List ℕ → List ℕ → List ℕ
  kdf1 key input = let temp = hmac key input in hmac temp (0x01 ∷ [])

  unfoldable pub kdf2 : List ℕ → List ℕ → List ℕ × List ℕ
  kdf2 key input =
      let temp = hmac key input in
      let t1 = hmac temp (0x01 ∷ []) in let t2 = hmac temp (t1 ++ 0x02 ∷ []) in (t1, t2)

  unfoldable pub kdf3 : List ℕ → List ℕ → List ℕ × List ℕ × List ℕ
  kdf3 key input =
      let temp = hmac key input in
      let t1 = hmac temp (0x01 ∷ []) in
      let t2 = hmac temp (t1 ++ 0x02 ∷ []) in let t3 = hmac temp (t2 ++ 0x03 ∷ []) in (t1, t2, t3)

  -- aead.rs
  unfoldable pub encrypt : List ℕ → ℕ → List ℕ → List ℕ → Result (List ℕ) CryptoError
  encrypt key counter plaintext aad =
      ok_or (p.seal key (nonce_bytes counter) plaintext aad) encryption

  unfoldable pub decrypt : List ℕ → ℕ → List ℕ → List ℕ → Result (List ℕ) CryptoError
  decrypt key counter ciphertext aad = do
    fail_if (ltb (length ciphertext) tag_len) decryption
    ok_or (p.unseal key (nonce_bytes counter) ciphertext aad) decryption

  unfoldable pub xencrypt : List ℕ → List ℕ → List ℕ → List ℕ → Result (List ℕ) CryptoError
  xencrypt key nonce plaintext aad = ok_or (p.xseal key nonce plaintext aad) encryption

  unfoldable pub xdecrypt : List ℕ → List ℕ → List ℕ → List ℕ → Result (List ℕ) CryptoError
  xdecrypt key nonce ciphertext aad = do
    fail_if (ltb (length ciphertext) tag_len) decryption
    ok_or (p.xunseal key nonce ciphertext aad) decryption

  -- x25519.rs; the random private key of `generate_keypair` is an argument.
  unfoldable pub generate_keypair : List ℕ → List ℕ × List ℕ
  generate_keypair secret = (secret, p.derive_public secret)

  unfoldable pub public_key : List ℕ → List ℕ
  public_key private_key = p.derive_public private_key

  unfoldable pub dh : List ℕ → List ℕ → List ℕ
  dh private_key other_public = p.diffie_hellman private_key other_public

all_zero : List ℕ → Bool
all_zero [] = true
all_zero (b ∷ bs) = b == 0 && all_zero bs

unfoldable pub is_valid_public_key : List ℕ → Bool
unfolding all_zero
is_valid_public_key key = if all_zero key then false else true
