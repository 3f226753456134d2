-- ===== src/Daemon/Routes.antt =====
-- src/daemon/routes.rs: the handlers that nothing interrupts. Notifications are left out.
use Prim.Native.String.{◌++◌}
use secure_guard.Base.{ℕ, Bool, List, [], ◌∷◌, Option, none, some, String}
use secure_guard.Base.Result.{Result, ok, err}
use secure_guard.Error.{MinnowVpnError, ConfigError}
use secure_guard.Net.{SocketAddr}
use secure_guard.Config.{WireGuardConfig, PeerConfig}
use secure_guard.Config.Parser.{Syntax, from_string}
use secure_guard.Client as Client
use secure_guard.Daemon.{
  World, ApiError, ConnectionStateFile, be_connected, be_disconnected, client, server,
  invalid_config, connection_failed, save_connection_state, update_last_connected,
  update_desired_state,
}
use secure_guard.Daemon.Sections.{
  connect_check, start_check, begin, fail, establish, spawn_task, spawn_reset, disconnect_section,
  stop_section,
}

-- How values are written, by `to_string` and `format!`.
pub record Texts : Type 0 where
  pub show_error : MinnowVpnError → String
  pub show_config_error : ConfigError → String
  pub show_net : ℕ × ℕ → String
  pub show_ip : ℕ → String
  pub show_addr : SocketAddr → String

-- What a handler takes from outside: the clock, whether the state file can be written, and what
-- making the TUN device, the socket or the server gives.
pub record Inputs : Type 0 where
  pub now : String
  pub writable : Bool
  pub tun : Result (Unit {0}) MinnowVpnError
  pub bind_error : Option String
  pub server_created : Result (Unit {0}) MinnowVpnError

abbrev pub vpn_ip : Texts → List (ℕ × ℕ) → String
vpn_ip texts [] = ""
vpn_ip texts (net ∷ nets) = texts.show_net net

abbrev show_endpoint : Texts → Option SocketAddr → String
show_endpoint texts none = ""
show_endpoint texts (some addr) = texts.show_addr addr

abbrev pub server_endpoint : Texts → List PeerConfig → String
server_endpoint texts [] = ""
server_endpoint texts (peer ∷ peers) = show_endpoint texts peer.endpoint

abbrev port_or_default : Option ℕ → ℕ
port_or_default none = 51820
port_or_default (some port) = port

abbrev failed : Texts → String → MinnowVpnError → World → World × Result (Unit {0}) ApiError
failed texts what e w = (
  fail (texts.show_error e) w,
  err (record { code = connection_failed; message = what ++ texts.show_error e }),
)

module _ (x : Syntax) (texts : Texts) where
  abbrev pub bad_config : ConfigError → ApiError
  bad_config e = record {
    code = invalid_config;
    message = "Invalid config: " ++ texts.show_config_error e;
  }

  abbrev pub connect_file : String → WireGuardConfig → Inputs → ConnectionStateFile
  connect_file content config inp = record {
    schema_version = 1;
    desired_state = be_connected;
    config = some content;
    vpn_ip = some (vpn_ip texts config.interface.address);
    server_endpoint = some (server_endpoint texts config.peers);
    last_connected_at = none;
    last_updated_at = inp.now;
    retry_count = 0;
  }

  -- The client is created; `w` is the world after the state file was saved.
  unfoldable pub connect_client :
      WireGuardConfig → Inputs → World → World × Result (Unit {0}) ApiError
  connect_client config inp w =
      elim (Client.new config (some w.state.traffic_stats) inp.tun inp.bind_error).1 [
        | err e ↦ failed texts "Connection failed: " e w
        | ok made ↦
            let mode =
              client (vpn_ip texts config.interface.address) (server_endpoint texts config.peers)
                config none in
            (
              spawn_task w.next_task
                  (update_last_connected inp.writable inp.now (establish mode inp.now w)),
              ok tt,
            )
      ]

  unfoldable pub handle_connect : String → Inputs → World → World × Result (Unit {0}) ApiError
  handle_connect content inp w = elim (connect_check w) [
    | err e ↦ (w, err e)
    | ok free ↦ elim (from_string x content) [
      | err e ↦ (
        spawn_reset ("Invalid config: " ++ texts.show_config_error e) (begin w),
        err (bad_config e),
      )
      | ok config ↦
          connect_client config inp
            (save_connection_state inp.writable (connect_file content config inp) (begin w))
    ]
  ]

  unfoldable pub handle_disconnect : Inputs → World → World × Result (Unit {0}) ApiError
  handle_disconnect inp w =
      let (w', result) = disconnect_section w in
      elim result [
        | err e ↦ (w', err e)
        | ok done ↦ (update_desired_state inp.writable inp.now be_disconnected w', ok tt)
      ]

  -- The configuration is parsed before the state changes.
  unfoldable pub handle_start_server : String → Inputs → World → World × Result (Unit {0}) ApiError
  handle_start_server content inp w = elim (start_check w) [
    | err e ↦ (w, err e)
    | ok free ↦ elim (from_string x content) [
      | err e ↦ (w, err (bad_config e))
      | ok config ↦ elim inp.server_created [
        | err e ↦ failed texts "Failed to start server: " e (begin w)
        | ok made ↦
            let mode =
              server (port_or_default config.interface.listen_port)
                (vpn_ip texts config.interface.address) in
            (spawn_task w.next_task (establish mode inp.now (begin w)), ok tt)
      ]
    ]
  ]

unfoldable pub handle_stop_server : World → World × Result (Unit {0}) ApiError
handle_stop_server w = stop_section w
