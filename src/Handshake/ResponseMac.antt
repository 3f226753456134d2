-- ===== src/Handshake/ResponseMac.antt =====
-- A response that one side makes passes the other side's check of MAC1.
use secure_guard.Base.{
  ℕ, List, [], ◌∷◌, ◌++◌, take, Option, none, some, ◌≡◌, refl, ◌∙◌, sym, bytes_eq_iff, arith,
}
use secure_guard.Base.Words.{to_le_bytes, length-to_le_bytes}
use secure_guard.Base.Result.{ok}
use secure_guard.Messages.{type_bytes, handshake_response}
use secure_guard.Messages.Layout.{join, take-join}
use secure_guard.Messages.Response.{
  HandshakeResponse, to_bytes, bytes_for_mac1_owned, bytes_for_mac1,
}
use secure_guard.Messages.Response.RoundTrip.{IsResponse, length-to_bytes, slice-to_bytes_mac1}
use secure_guard.Crypto.{Primitives, PrimitiveLaws, mac, mac_with_cookie}
use secure_guard.Crypto.Noise.{mac1_key}
use secure_guard.Handshake.{verify_response_mac1}
use secure_guard.Handshake.Responder.{add_macs, add_mac2}

-- The bytes under MAC1 are those before it.
take-to_bytes :
    (m : HandshakeResponse)
    → IsResponse m
    → take 60 (to_bytes m)
      ≡ join
          (type_bytes handshake_response
            ∷ to_le_bytes 4 m.sender_index
            ∷ to_le_bytes 4 m.receiver_index
            ∷ m.ephemeral_public
            ∷ m.encrypted_nothing
            ∷ [])
          []
unfolding to_bytes
take-to_bytes m v =
    take-join
      (type_bytes handshake_response
        ∷ to_le_bytes 4 m.sender_index
        ∷ to_le_bytes 4 m.receiver_index
        ∷ m.ephemeral_public
        ∷ m.encrypted_nothing
        ∷ [])
      (m.mac1 ++ m.mac2) 60
      (omega (
        arith,
        v.ephemeral_public,
        v.encrypted_nothing,
        length-to_le_bytes 4 m.sender_index,
        length-to_le_bytes 4 m.receiver_index,
      ))

module _ (p : Primitives) (laws : PrimitiveLaws p) (k : List ℕ) where
  -- Filling in the MACs keeps the widths.
  pub add_macs-IsResponse :
      (cookie : Option (List ℕ)) (m : HandshakeResponse)
      → IsResponse m
      → IsResponse (add_macs p k cookie m)
  unfolding add_macs add_mac2 mac mac_with_cookie
  add_macs-IsResponse none m v = omega (arith, v, laws.length-blake2s_mac)
  add_macs-IsResponse (some c) m v = omega (arith, v, laws.length-blake2s_mac)

  take-add_macs :
      (cookie : Option (List ℕ)) (m : HandshakeResponse)
      → IsResponse m
      → take 60 (to_bytes (add_macs p k cookie m)) ≡ take 60 (to_bytes m)
  unfolding add_macs add_mac2
  take-add_macs none m v = take-to_bytes _ (add_macs-IsResponse none m v) ∙ sym (take-to_bytes m v)
  take-add_macs (some c) m v =
      take-to_bytes _ (add_macs-IsResponse (some c) m v) ∙ sym (take-to_bytes m v)

  mac1-add_macs :
      (cookie : Option (List ℕ)) (m : HandshakeResponse)
      → (add_macs p k cookie m).mac1 ≡ mac p (mac1_key p k) (take 60 (to_bytes m))
  unfolding add_macs add_mac2 bytes_for_mac1_owned
  mac1-add_macs none m = refl
  mac1-add_macs (some c) m = refl

  -- The other side, which owns the public key `k`, accepts MAC1 of the bytes that are sent, for a
  -- response whose fields have their widths, with and without a cookie.
  pub verify_response_mac1-to_bytes :
      (cookie : Option (List ℕ)) (m : HandshakeResponse)
      → IsResponse m
      → verify_response_mac1 p (to_bytes (add_macs p k cookie m)) k ≡ ok tt
  unfolding verify_response_mac1 bytes_for_mac1
  verify_response_mac1-to_bytes cookie m v = rw (
    length-to_bytes _ (add_macs-IsResponse cookie m v),
    slice-to_bytes_mac1 _ (add_macs-IsResponse cookie m v),
    take-add_macs cookie m v,
    mac1-add_macs cookie m,
    (bytes_eq_iff (mac p (mac1_key p k) (take 60 (to_bytes m))) _).1 refl,
  )
