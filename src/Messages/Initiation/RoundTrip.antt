-- ===== src/Messages/Initiation/RoundTrip.antt =====
-- Parsing gives back the initiation that was serialized.
use secure_guard.Base.{ℕ, ◌<◌, ◌^◌, List, [], ◌∷◌, length, slice, ◌≡◌, refl, ap, ◌∙◌, arith}
use secure_guard.Base.Words.{to_le_bytes, length-to_le_bytes}
use secure_guard.Base.Result.{ok}
use secure_guard.Messages.{type_bytes, u32_at, handshake_initiation}
use secure_guard.Messages.Layout.{join, slice-join, slice-join_last, u32_join, length-join}
use secure_guard.Messages.Initiation.{HandshakeInitiation, to_bytes, from_bytes}

-- The widths that the Rust types give the fields.
pub record IsInitiation (m : HandshakeInitiation) : Type 0 where
  pub sender_index : m.sender_index < 2 ^ 32
  pub ephemeral_public : length m.ephemeral_public ≡ 32
  pub encrypted_static : length m.encrypted_static ≡ 48
  pub encrypted_timestamp : length m.encrypted_timestamp ≡ 28
  pub mac1 : length m.mac1 ≡ 16
  pub mac2 : length m.mac2 ≡ 16

module _ (m : HandshakeInitiation) (v : IsInitiation m) where
  abbrev t : List ℕ
  t = type_bytes handshake_initiation

  abbrev u0 : List ℕ
  u0 = to_le_bytes 4 m.sender_index

  abbrev bytes : List ℕ
  bytes =
      join (t ∷ u0 ∷ m.ephemeral_public ∷ m.encrypted_static ∷ m.encrypted_timestamp ∷ m.mac1 ∷ [])
        m.mac2

  pub length-to_bytes : length (to_bytes m) ≡ 148
  unfolding to_bytes
  length-to_bytes =
      length-join
        (t ∷ u0 ∷ m.ephemeral_public ∷ m.encrypted_static ∷ m.encrypted_timestamp ∷ m.mac1 ∷ [])
        m.mac2
      ∙ omega (
        arith,
        v.ephemeral_public,
        v.encrypted_static,
        v.encrypted_timestamp,
        v.mac1,
        v.mac2,
        length-to_le_bytes 4 m.sender_index,
      )

  fields :
      ◌≡◌ {A = HandshakeInitiation}
        (record {
          sender_index = u32_at bytes 4;
          ephemeral_public = slice bytes 8 40;
          encrypted_static = slice bytes 40 88;
          encrypted_timestamp = slice bytes 88 116;
          mac1 = slice bytes 116 132;
          mac2 = slice bytes 132 148;
        })
        m
  fields = λ i. record {
    sender_index =
        u32_join (t ∷ []) m.sender_index
          (join (m.ephemeral_public ∷ m.encrypted_static ∷ m.encrypted_timestamp ∷ m.mac1 ∷ [])
            m.mac2)
          4 refl v.sender_index i;
    ephemeral_public =
        slice-join (t ∷ u0 ∷ []) m.ephemeral_public
          (join (m.encrypted_static ∷ m.encrypted_timestamp ∷ m.mac1 ∷ []) m.mac2) 8 40
          (omega (arith, v.ephemeral_public, length-to_le_bytes 4 m.sender_index))
          (omega (arith, v.ephemeral_public)) i;
    encrypted_static =
        slice-join (t ∷ u0 ∷ m.ephemeral_public ∷ []) m.encrypted_static
          (join (m.encrypted_timestamp ∷ m.mac1 ∷ []) m.mac2) 40 88
          (omega
            (arith, v.ephemeral_public, v.encrypted_static, length-to_le_bytes 4 m.sender_index))
          (omega (arith, v.ephemeral_public, v.encrypted_static)) i;
    encrypted_timestamp =
        slice-join (t ∷ u0 ∷ m.ephemeral_public ∷ m.encrypted_static ∷ []) m.encrypted_timestamp
          (join (m.mac1 ∷ []) m.mac2) 88 116
          (omega (
            arith,
            v.ephemeral_public,
            v.encrypted_static,
            v.encrypted_timestamp,
            length-to_le_bytes 4 m.sender_index,
          ))
          (omega (arith, v.ephemeral_public, v.encrypted_static, v.encrypted_timestamp)) i;
    mac1 =
        slice-join (t ∷ u0 ∷ m.ephemeral_public ∷ m.encrypted_static ∷ m.encrypted_timestamp ∷ [])
          m.mac1 m.mac2 116 132
          (omega (
            arith,
            v.ephemeral_public,
            v.encrypted_static,
            v.encrypted_timestamp,
            v.mac1,
            length-to_le_bytes 4 m.sender_index,
          ))
          (omega (arith, v.ephemeral_public, v.encrypted_static, v.encrypted_timestamp, v.mac1)) i;
    mac2 =
        slice-join_last
          (t ∷ u0 ∷ m.ephemeral_public ∷ m.encrypted_static ∷ m.encrypted_timestamp ∷ m.mac1 ∷ [])
          m.mac2 132 148
          (omega (
            arith,
            v.ephemeral_public,
            v.encrypted_static,
            v.encrypted_timestamp,
            v.mac1,
            v.mac2,
            length-to_le_bytes 4 m.sender_index,
          ))
          (omega
            (arith, v.ephemeral_public, v.encrypted_static, v.encrypted_timestamp, v.mac1, v.mac2))
          i;
  }

  pub slice-to_bytes_mac1 : slice (to_bytes m) 116 132 ≡ m.mac1
  unfolding to_bytes
  slice-to_bytes_mac1 = ap (λ r. r.mac1) fields

  -- The parser reads a well-formed initiation back from its 148 bytes.
  pub from_bytes-to_bytes : from_bytes (to_bytes m) ≡ ok m
  unfolding from_bytes to_bytes
  from_bytes-to_bytes = rw length-to_bytes (ap ok fields)
