-- ===== src/Messages/Response/RoundTrip.antt =====
-- Parsing gives back the response that was serialized.
use secure_guard.Base.{ℕ, ◌<◌, ◌^◌, List, [], ◌∷◌, length, slice, ◌≡◌, refl, ap, ◌∙◌, arith}
use secure_guard.Base.Words.{to_le_bytes, length-to_le_bytes}
use secure_guard.Base.Result.{ok}
use secure_guard.Messages.{type_bytes, u32_at, handshake_response}
use secure_guard.Messages.Layout.{join, slice-join, slice-join_last, u32_join, length-join}
use secure_guard.Messages.Response.{HandshakeResponse, to_bytes, from_bytes}

-- The widths that the Rust types give the fields.
pub record IsResponse (m : HandshakeResponse) : Type 0 where
  pub sender_index : m.sender_index < 2 ^ 32
  pub receiver_index : m.receiver_index < 2 ^ 32
  pub ephemeral_public : length m.ephemeral_public ≡ 32
  pub encrypted_nothing : length m.encrypted_nothing ≡ 16
  pub mac1 : length m.mac1 ≡ 16
  pub mac2 : length m.mac2 ≡ 16

module _ (m : HandshakeResponse) (v : IsResponse m) where
  abbrev t : List ℕ
  t = type_bytes handshake_response

  abbrev u0 : List ℕ
  u0 = to_le_bytes 4 m.sender_index

  abbrev u1 : List ℕ
  u1 = to_le_bytes 4 m.receiver_index

  abbrev bytes : List ℕ
  bytes = join (t ∷ u0 ∷ u1 ∷ m.ephemeral_public ∷ m.encrypted_nothing ∷ m.mac1 ∷ []) m.mac2

  pub length-to_bytes : length (to_bytes m) ≡ 92
  unfolding to_bytes
  length-to_bytes =
      length-join (t ∷ u0 ∷ u1 ∷ m.ephemeral_public ∷ m.encrypted_nothing ∷ m.mac1 ∷ []) m.mac2
      ∙ omega (
        arith,
        v.ephemeral_public,
        v.encrypted_nothing,
        v.mac1,
        v.mac2,
        length-to_le_bytes 4 m.sender_index,
        length-to_le_bytes 4 m.receiver_index,
      )

  fields :
      ◌≡◌ {A = HandshakeResponse}
        (record {
          sender_index = u32_at bytes 4;
          receiver_index = u32_at bytes 8;
          ephemeral_public = slice bytes 12 44;
          encrypted_nothing = slice bytes 44 60;
          mac1 = slice bytes 60 76;
          mac2 = slice bytes 76 92;
        })
        m
  fields = λ i. record {
    sender_index =
        u32_join (t ∷ []) m.sender_index
          (join (u1 ∷ m.ephemeral_public ∷ m.encrypted_nothing ∷ m.mac1 ∷ []) m.mac2) 4 refl
          v.sender_index i;
    receiver_index =
        u32_join (t ∷ u0 ∷ []) m.receiver_index
          (join (m.ephemeral_public ∷ m.encrypted_nothing ∷ m.mac1 ∷ []) m.mac2) 8
          (omega (arith, length-to_le_bytes 4 m.sender_index)) v.receiver_index i;
    ephemeral_public =
        slice-join (t ∷ u0 ∷ u1 ∷ []) m.ephemeral_public
          (join (m.encrypted_nothing ∷ m.mac1 ∷ []) m.mac2) 12 44
          (omega (
            arith,
            v.ephemeral_public,
            length-to_le_bytes 4 m.sender_index,
            length-to_le_bytes 4 m.receiver_index,
          ))
          (omega (arith, v.ephemeral_public)) i;
    encrypted_nothing =
        slice-join (t ∷ u0 ∷ u1 ∷ m.ephemeral_public ∷ []) m.encrypted_nothing
          (join (m.mac1 ∷ []) m.mac2) 44 60
          (omega (
            arith,
            v.ephemeral_public,
            v.encrypted_nothing,
            length-to_le_bytes 4 m.sender_index,
            length-to_le_bytes 4 m.receiver_index,
          ))
          (omega (arith, v.ephemeral_public, v.encrypted_nothing)) i;
    mac1 =
        slice-join (t ∷ u0 ∷ u1 ∷ m.ephemeral_public ∷ m.encrypted_nothing ∷ []) m.mac1 m.mac2 60 76
          (omega (
            arith,
            v.ephemeral_public,
            v.encrypted_nothing,
            v.mac1,
            length-to_le_bytes 4 m.sender_index,
            length-to_le_bytes 4 m.receiver_index,
          ))
          (omega (arith, v.ephemeral_public, v.encrypted_nothing, v.mac1)) i;
    mac2 =
        slice-join_last (t ∷ u0 ∷ u1 ∷ m.ephemeral_public ∷ m.encrypted_nothing ∷ m.mac1 ∷ [])
          m.mac2 76 92
          (omega (
            arith,
            v.ephemeral_public,
            v.encrypted_nothing,
            v.mac1,
            v.mac2,
            length-to_le_bytes 4 m.sender_index,
            length-to_le_bytes 4 m.receiver_index,
          ))
          (omega (arith, v.ephemeral_public, v.encrypted_nothing, v.mac1, v.mac2)) i;
  }

  pub slice-to_bytes_mac1 : slice (to_bytes m) 60 76 ≡ m.mac1
  unfolding to_bytes
  slice-to_bytes_mac1 = ap (λ r. r.mac1) fields

  -- The parser reads a well-formed response back from its 92 bytes.
  pub from_bytes-to_bytes_response : from_bytes (to_bytes m) ≡ ok m
  unfolding from_bytes to_bytes
  from_bytes-to_bytes_response = rw length-to_bytes (ap ok fields)
