-- ===== src/CommandLine.antt =====
-- src/main.rs: what the program is started as. The parser of the arguments is clap's, which sees
-- to it that at most one of the modes is asked for, and that a configuration is named unless the
-- program runs as the daemon.
pub mod Detection
use secure_guard.Base.{
  ℕ, Bool, true, false, not, ◌&&◌, ◌||◌, if◌then◌else◌, List, [], ◌∷◌, Option, none, some, String,
}
use secure_guard.Base.Result.{Result, ok, err, ◌>>=◌, map_err}
use secure_guard.Error.{MinnowVpnError, config, parse_error}
use secure_guard.Config.{PeerConfig, WireGuardConfig}
use secure_guard.Config.Parser.{Syntax, ReadError, from_file}

pub data Mode : Type 0 where
  client server : Mode

-- The path of the configuration and the verbosity are left out.
pub record Args : Type 0 where
  pub server : Bool
  pub client : Bool
  pub daemon : Bool
  pub http_port : Option ℕ
  pub token_path : Option String

unfoldable pub has_value {ℓ} : {A : Type ℓ} → Option A → Bool
has_value none = false
has_value (some a) = true

-- `peers.iter().all(|p| p.endpoint.is_none())` and `peers.iter().any(|p| p.endpoint.is_some())`.
unfoldable pub all_peers_no_endpoint : List PeerConfig → Bool
all_peers_no_endpoint [] = true
all_peers_no_endpoint (p ∷ ps) = not (has_value p.endpoint) && all_peers_no_endpoint ps

unfoldable pub any_peer_has_endpoint : List PeerConfig → Bool
any_peer_has_endpoint [] = false
any_peer_has_endpoint (p ∷ ps) = has_value p.endpoint || any_peer_has_endpoint ps

abbrev pub undetermined : MinnowVpnError
undetermined = config (parse_error 0 "Cannot determine mode. Use --server or --client flag.")

unfoldable pub determine_mode : Args → WireGuardConfig → Result Mode MinnowVpnError
determine_mode args c =
    if args.server
    then ok server
    else if args.client
    then ok client
    else if has_value c.interface.listen_port && all_peers_no_endpoint c.peers
    then ok server
    else if any_peer_has_endpoint c.peers
    then ok client
    else err undetermined

-- What runs, until it ends or is told to stop: the daemon at a port, a client or a server.
pub data Service : Type 0 where
  daemon_service : ℕ → Option String → Service
  client_service server_service : WireGuardConfig → Service

abbrev pub http_port_or_default : Option ℕ → ℕ
http_port_or_default none = 51820
http_port_or_default (some port) = port

abbrev pub service_of : WireGuardConfig → Mode → Service
service_of c client = client_service c
service_of c server = server_service c

-- `path` names the configuration, which reads as `read`.
unfoldable pub run :
    Syntax → Args → String → Result String ReadError → Result Service MinnowVpnError
run x args path read =
    if args.daemon
    then ok (daemon_service (http_port_or_default args.http_port) args.token_path)
    else do
      c ← map_err config (from_file x path read)
      mode ← determine_mode args c
      ok (service_of c mode)
