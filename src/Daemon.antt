-- ===== src/Daemon.antt =====
-- src/daemon/mod.rs, src/daemon/ipc.rs and src/daemon/persistence.rs: the state that the HTTP
-- handlers share, and the file that outlives the daemon. The handlers of src/daemon/routes.rs
-- are in Routes, made of the sections that hold the lock, which are in Sections.
pub mod Sections
pub mod Routes
pub mod Coherence
pub mod Races
pub mod Lifecycle
pub mod Update
pub mod Hosting
pub mod Auth
use secure_guard.Base.{ℕ, Bool, if◌then◌else◌, List, [], Option, none, some, String}
use secure_guard.Config.{WireGuardConfig}
use secure_guard.Session.{TrafficStats, no_traffic}

pub data ConnectionState : Type 0 where
  disconnected connecting connected disconnecting error : ConnectionState

-- The channel and the peers of a server belong to its task, which is not modelled here.
pub data VpnMode : Type 0 where
  client : String → String → WireGuardConfig → Option WireGuardConfig → VpnMode
  server : ℕ → String → VpnMode

-- `shutdown_tx` is the number of the task that listens at the other end.
pub record DaemonState : Type 0 where
  pub connection_state : ConnectionState
  pub mode : Option VpnMode
  pub started_at : Option String
  pub traffic_stats : TrafficStats
  pub error_message : Option String
  pub shutdown_tx : Option ℕ

abbrev pub default_state : DaemonState
default_state = record {
  connection_state = disconnected;
  mode = none;
  started_at = none;
  traffic_stats = no_traffic;
  error_message = none;
  shutdown_tx = none;
}

pub data DesiredState : Type 0 where
  be_connected be_disconnected : DesiredState

pub record ConnectionStateFile : Type 0 where
  pub schema_version : ℕ
  pub desired_state : DesiredState
  pub config : Option String
  pub vpn_ip : Option String
  pub server_endpoint : Option String
  pub last_connected_at : Option String
  pub last_updated_at : String
  pub retry_count : ℕ

abbrev pub default_file : String → ConnectionStateFile
default_file now = record {
  schema_version = 1;
  desired_state = be_disconnected;
  config = none;
  vpn_ip = none;
  server_endpoint = none;
  last_connected_at = none;
  last_updated_at = now;
  retry_count = 0;
}

-- The daemon with its surroundings: what the state file parses to; the tasks that run, those that a
-- handler is yet to spawn although their channel is made, those that were told to stop, and the
-- number of the next one; and the messages of the tasks that were spawned to report an invalid
-- configuration, each of which runs the section `fail` some time later.
pub record World : Type 0 where
  pub state : DaemonState
  pub file : Option ConnectionStateFile
  pub tasks : List ℕ
  pub unspawned : List ℕ
  pub signalled : List ℕ
  pub next_task : ℕ
  pub resets : List String

-- The error codes of ipc.rs, without those for requests that are no JSON-RPC.
pub data Code : Type 0 where
  invalid_params internal_error not_connected already_connected connection_failed : Code
  invalid_config config_validation_failed update_failed server_not_running already_running : Code
  peer_not_found peer_already_exists invalid_public_key invalid_allowed_ips : Code

-- The HTTP status of the answer to an error, by `into_response`.
unfoldable pub status_code : Code → ℕ
status_code not_connected = 409
status_code already_connected = 409
status_code already_running = 409
status_code invalid_config = 400
status_code invalid_params = 400
status_code peer_not_found = 404
status_code peer_already_exists = 409
status_code internal_error = 500
status_code connection_failed = 500
status_code config_validation_failed = 500
status_code update_failed = 500
status_code server_not_running = 500
status_code invalid_public_key = 500
status_code invalid_allowed_ips = 500

pub record ApiError : Type 0 where
  pub code : Code
  pub message : String

-- `save_connection_state`; the flag says whether the file can be written, which stays as it was
-- if not.
unfoldable pub save_connection_state : Bool → ConnectionStateFile → World → World
save_connection_state writable file w = if writable then record w { file = some file } else w

-- `load_connection_state().unwrap_or_default()`.
abbrev pub file_or_default : String → Option ConnectionStateFile → ConnectionStateFile
file_or_default now none = default_file now
file_or_default now (some file) = file

unfoldable pub update_desired_state : Bool → String → DesiredState → World → World
update_desired_state writable now desired w =
    let old = file_or_default now w.file in
    save_connection_state writable (record old { desired_state = desired; last_updated_at = now }) w

unfoldable pub update_last_connected : Bool → String → World → World
update_last_connected writable now w = elim w.file [
  | none ↦ w
  | some file ↦
      save_connection_state writable
        (record file { last_connected_at = some now; retry_count = 0; last_updated_at = now }) w
]

unfoldable pub update_retry_count : Bool → String → ℕ → World → World
update_retry_count writable now count w = elim w.file [
  | none ↦ w
  | some file ↦
      save_connection_state writable (record file { retry_count = count; last_updated_at = now }) w
]
