-- ===== src/Handshake/Parties.antt =====
-- The inputs of a handshake.
use secure_guard.Base.{ℕ, List, Option}

-- The keys of the parties, the pre-shared key, the indices, and what is drawn at random.
pub record Parties : Type 0 where
  pub initiator_static : List ℕ
  pub responder_static : List ℕ
  pub psk : Option (List ℕ)
  pub initiator_index : ℕ
  pub responder_index : ℕ
  pub initiator_ephemeral : List ℕ
  pub responder_ephemeral : List ℕ
  pub timestamp : List ℕ
  pub initiator_cookie : Option (List ℕ)
  pub responder_cookie : Option (List ℕ)
