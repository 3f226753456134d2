-- ===== src/Messages/Header/RoundTrip.antt =====
-- A transport message is read back: its header by `from_bytes`, its payload by `payload`.
use secure_guard.Base.{
  ℕ, ◌+◌, ◌<◌, ◌^◌, List, [], ◌∷◌, ◌++◌, length, ◌≡◌, refl, ap, ◌∙◌, arith, le→ltb_false,
}
use secure_guard.Base.Words.{to_le_bytes, length-to_le_bytes}
use secure_guard.Base.Result.{ok}
use secure_guard.Messages.{type_bytes, u32_at, u64_at, transport_data}
use secure_guard.Messages.Layout.{join, u32_join, u64_join, length-join}
use secure_guard.Messages.Header.{TransportHeader, build_message, from_bytes, payload}

module _ (r c : ℕ) (p : List ℕ) where
  abbrev t : List ℕ
  t = type_bytes transport_data

  abbrev parts : List (List ℕ)
  parts = t ∷ to_le_bytes 4 r ∷ to_le_bytes 8 c ∷ []

  pub length-build_message : length (build_message r c p) ≡ 16 + length p
  unfolding build_message
  length-build_message =
      length-join parts p ∙ omega (arith, length-to_le_bytes 4 r, length-to_le_bytes 8 c)

  -- The header of a built message is the index and the counter that it was built with, if they
  -- are a u32 and a u64.
  pub from_bytes-build_message :
      r < 2 ^ 32
      → c < 2 ^ 64
      → from_bytes (build_message r c p) ≡ ok (record { receiver_index = r; counter = c })
  unfolding from_bytes build_message
  from_bytes-build_message hr hc =
      rw (le→ltb_false (length (build_message r c p)) 16 (omega (arith, length-build_message)))
        (ap ok fields)
    where
      fields :
          ◌≡◌ {A = TransportHeader}
            (record { receiver_index = u32_at (join parts p) 4; counter = u64_at (join parts p) 8 })
            (record { receiver_index = r; counter = c })
      fields = λ i. record {
        receiver_index = u32_join (t ∷ []) r (to_le_bytes 8 c ++ p) 4 refl hr i;
        counter =
            u64_join (t ∷ to_le_bytes 4 r ∷ []) c p 8 (omega (arith, length-to_le_bytes 4 r)) hc i;
      }

  pub payload-build_message : payload (build_message r c p) ≡ p
  unfolding payload build_message to_le_bytes
  payload-build_message = refl
