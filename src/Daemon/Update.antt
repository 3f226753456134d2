-- ===== src/Daemon/Update.antt =====
-- src/daemon/routes.rs: `handle_update_config`, and what others do while it waits.
pub mod Stored
use Prim.Native.String.{◌++◌}
use secure_guard.Base.{
  ℕ, Bool, true, false, if◌then◌else◌, List, [], ◌∷◌, Option, none, some, String, ◌≡◌, refl, subst,
  ◌∙◌, inl, inr, Bool-cases,
}
use secure_guard.Base.Result.{Result, ok, err, ◌>>=◌, ◌>>◌, map_err, Result-cases}
use secure_guard.Error.{MinnowVpnError}
use secure_guard.Config.{WireGuardConfig, PeerConfig}
use secure_guard.Config.Parser.{Syntax, from_string}
use secure_guard.Client as Client
use secure_guard.Daemon.{
  World, ApiError, ConnectionState, disconnected, connecting, connected, disconnecting, error,
  ConnectionStateFile, DesiredState, be_connected, update_desired_state, update_last_connected,
  VpnMode, client, server, invalid_config, not_connected, update_failed, save_connection_state,
}
use secure_guard.Daemon.Sections.{
  Section, begins, fails, establishes, re_establishes, drops, signals, disconnects, stops, ends,
  begin, fail, re_establish, establish, drop_mode, request_stop, disconnect_section, stop_section,
  task_ended, spawn_task, perform, perform_all,
}
use secure_guard.Daemon.Routes.{Texts, Inputs, server_endpoint, bad_config}

abbrev pub is_connected : ConnectionState → Bool
is_connected connected = true
is_connected disconnected = false
is_connected connecting = false
is_connected disconnecting = false
is_connected error = false

-- What a client needs, beyond what the parser asks for.
unfoldable pub check_client : List PeerConfig → Result (Unit {0}) ApiError
check_client [] =
    err (record { code = invalid_config; message = "Config must have at least one peer" })
check_client (peer ∷ peers) = elim peer.endpoint [
  | some endpoint ↦ ok tt
  | none ↦
      err (record { code = invalid_config; message = "Peer must have an endpoint for client mode" })
]

-- The configuration to return to: that of the client mode.
unfoldable pub current_config : Option VpnMode → Result WireGuardConfig ApiError
current_config none = err (record {
  code = not_connected;
  message = "Not in client mode. Use /api/v1/connect to start a new connection.";
})
current_config (some (client ip endpoint current previous)) = ok current
current_config (some (server port address)) =
    err (record { code = invalid_config; message = "Cannot update config in server mode" })

-- Here the address is written without its prefix length.
abbrev bare_ip : Texts → List (ℕ × ℕ) → String
bare_ip texts [] = ""
bare_ip texts ((addr, prefix_len) ∷ nets) = texts.show_ip addr

-- What other handlers and tasks do while this one waits: their sections, and what they write to the
-- state file, which they do without the lock; each write, with what it reads first, is one step.
pub data Event : Type 0 where
  section : Section → Event
  saves : Bool → ConnectionStateFile → Event
  desires : Bool → String → DesiredState → Event
  connects : Bool → String → Event

unfoldable pub happen : Event → World → World
happen (section x) w = perform x w
happen (saves writable file) w = save_connection_state writable file w
happen (desires writable now desired) w = update_desired_state writable now desired w
happen (connects writable now) w = update_last_connected writable now w

unfoldable pub happen_all : List Event → World → World
happen_all [] w = w
happen_all (e ∷ es) w = happen_all es (happen e w)

-- The points at which others run: before the old task is told to stop, until the first attempt to
-- make a client has come to its end, until the second has, and while the outcome is notified.
pub record Meanwhile : Type 0 where
  pub before : List Event
  pub pausing : List Event
  pub retrying : List Event
  pub notifying : List Event

-- Step 3, and the wait for the new client; `running` was read before.
unfoldable pub pause : Bool → Meanwhile → World → World
pause running m w =
    let w' = happen_all m.before w in happen_all m.pausing (if running then request_stop w' else w')

module _ (x : Syntax) (texts : Texts) where
  abbrev pub mode_of : WireGuardConfig → Option WireGuardConfig → VpnMode
  mode_of config previous =
      client (bare_ip texts config.interface.address) (server_endpoint texts config.peers) config
        previous

  unfoldable pub updated_file : String → WireGuardConfig → Inputs → ConnectionStateFile
  updated_file content config inp = record {
    schema_version = 1;
    desired_state = be_connected;
    config = some content;
    vpn_ip = some (bare_ip texts config.interface.address);
    server_endpoint = some (server_endpoint texts config.peers);
    last_connected_at = some inp.now;
    last_updated_at = inp.now;
    retry_count = 0;
  }

  abbrev pub created :
      WireGuardConfig → Inputs → World → Result Client.WireGuardClient MinnowVpnError
  created config inp w = (Client.new config (some w.state.traffic_stats) inp.tun inp.bind_error).1

  -- The new client could not be made; `again` is what the outside gives the second time.
  unfoldable pub roll_back :
      WireGuardConfig
      → MinnowVpnError
      → Inputs
      → Meanwhile
      → World
      → World × Result (Unit {0}) ApiError
  roll_back previous e again m w =
      let w' = happen_all m.retrying w in
      elim (created previous again w') [
        | ok made ↦ (
          spawn_task w'.next_task
              (happen_all m.notifying (re_establish (mode_of previous none) again.now w')),
          err (record {
            code = update_failed;
            message = "Config update failed but rolled back: " ++ texts.show_error e;
          }),
        )
        | err e' ↦ (
          happen_all m.notifying (
              drop_mode
                ("Update failed: "
                  ++ (texts.show_error e ++ (". Rollback failed: " ++ texts.show_error e')))
                w'),
          err (record {
            code = update_failed;
            message =
                "Config update failed and rollback failed: "
                ++ (texts.show_error e ++ (" / " ++ texts.show_error e'));
          }),
        )
      ]

  -- The file is written after the notification, and the task spawned after that.
  unfoldable pub reconnect :
      String
      → WireGuardConfig
      → WireGuardConfig
      → Inputs
      → Inputs
      → Meanwhile
      → World
      → World × Result (Unit {0}) ApiError
  reconnect content config previous inp again m w = elim (created config inp w) [
    | err e ↦ roll_back previous e again m w
    | ok made ↦
        let w' = happen_all m.notifying (re_establish (mode_of config (some previous)) inp.now w) in
        (
          spawn_task w.next_task
              (save_connection_state inp.writable (updated_file content config inp) w'),
          ok tt,
        )
  ]

  -- Steps 1 and 2: nothing has changed yet.
  unfoldable pub prepare_update :
      String → World → Result (WireGuardConfig × WireGuardConfig) ApiError
  prepare_update content w = do
    config ← map_err (bad_config x texts) (from_string x content)
    check_client config.peers
    previous ← current_config w.state.mode
    ok (config, previous)

  unfoldable pub handle_update_config :
      String → Inputs → Inputs → Meanwhile → World → World × Result (Unit {0}) ApiError
  handle_update_config content inp again m w = elim (prepare_update content w) [
    | err e ↦ (w, err e)
    | ok (config, previous) ↦
        reconnect content config previous inp again m
          (pause (is_connected w.state.connection_state) m w)
  ]
