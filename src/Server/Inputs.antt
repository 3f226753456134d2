-- ===== src/Server/Inputs.antt =====
-- src/server.rs: what the outside answers.
use secure_guard.Base.{ℕ, List, Option, none, some, String}
use secure_guard.Base.Result.{Result, ok, err}
use secure_guard.Error.{MinnowVpnError, network, tunnel, send_failed, write_failed}

-- What the outside supplies to one call: the clock, the random index and ephemeral key, and
-- the reason for which sending or writing fails, if it does.
pub record Inputs : Type 0 where
  pub now : ℕ
  pub sender_index : ℕ
  pub secret : List ℕ
  pub send_error : Option String
  pub write_error : Option String

abbrev pub sent : Option String → Result (Unit {0}) MinnowVpnError
sent none = ok tt
sent (some reason) = err (network (send_failed reason))

abbrev pub written : Option String → Result (Unit {0}) MinnowVpnError
written none = ok tt
written (some reason) = err (tunnel (write_failed reason))
