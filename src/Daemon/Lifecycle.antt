-- ===== src/Daemon/Lifecycle.antt =====
-- src/daemon/routes.rs: a client from `connect` to the end of its task.
use secure_guard.Base.{ℕ, true, ◌∷◌, none, some, String, ◌≡◌, refl, sym, ap, ◌∙◌, inl, inr, arith}
use secure_guard.Base.Result.{ok, Result-cases}
use secure_guard.Config.{WireGuardConfig}
use secure_guard.Config.Parser.{Syntax, from_string}
use secure_guard.Client as Client
use secure_guard.Daemon.{
  World, ConnectionStateFile, client, disconnected, be_disconnected, save_connection_state,
  update_last_connected, update_desired_state,
}
use secure_guard.Daemon.Sections.{
  connect_check, begin, re_establish, establish, spawn_task, request_stop, disconnect_section,
  task_ended,
}
use secure_guard.Daemon.Routes.{
  Texts, Inputs, vpn_ip, server_endpoint, connect_file, connect_client, handle_connect,
  handle_disconnect,
}

module _ (x : Syntax) (texts : Texts) (content : String) (inp : Inputs) (w : World) where
  -- The world after a connect that went well.
  abbrev connected_world : WireGuardConfig → World
  connected_world config =
      let saved =
        save_connection_state inp.writable (connect_file x texts content config inp) (begin w) in
      spawn_task saved.next_task (
        update_last_connected inp.writable inp.now (
          establish
            (client (vpn_ip texts config.interface.address) (server_endpoint texts config.peers)
              config none)
            inp.now saved))

  connect_client-ok :
      (config : WireGuardConfig) (w' : World)
      → (connect_client x texts config inp w').1 ≡ ok tt
      → (connect_client x texts config inp w').0
        ≡ spawn_task w'.next_task (
            update_last_connected inp.writable inp.now (
              establish
                (client
                  (vpn_ip texts config.interface.address)
                  (server_endpoint texts config.peers)
                  config
                  none)
                inp.now
                w'))
  unfolding connect_client
  connect_client-ok config w' h =
      elim (Result-cases
        (Client.new config (some w'.state.traffic_stats) inp.tun inp.bind_error).1) [
          | inr (e, bad) ↦ absurd (ground arith)
          | inl (made, good) ↦ rw (good, connect_client) refl
        ]

  handle_connect-eq :
      (config : WireGuardConfig)
      → connect_check w ≡ ok tt
      → from_string x content ≡ ok config
      → handle_connect x texts content inp w
        ≡ connect_client x texts config inp
            (save_connection_state inp.writable (connect_file x texts content config inp) (begin w))
  unfolding handle_connect
  handle_connect-eq config checked parsed = rw (checked, parsed, handle_connect) refl

  handle_connect-ok :
      (handle_connect x texts content inp w).1 ≡ ok tt
      → (config : WireGuardConfig) × ((handle_connect x texts content inp w).0
          ≡ connected_world config)
  unfolding handle_connect
  handle_connect-ok h = elim (Result-cases (connect_check w)) [
    | inr (e, busy) ↦ absurd (ground arith)
    | inl (free, checked) ↦ elim (Result-cases (from_string x content)) [
      | inr (e, bad) ↦ absurd (ground arith)
      | inl (config, parsed) ↦
          let whole = handle_connect-eq config checked parsed in
          (config, ap (λ r. r.0) whole ∙ connect_client-ok config _ (sym (ap (λ r. r.1) whole) ∙ h))
    ]
  ]

-- The daemon at rest, with the configuration kept for the next time.
pub record IsAtRest (content : String) (w : World) : Type 0 where
  pub file : ConnectionStateFile
  pub state : w.state.connection_state ≡ disconnected
  pub no_mode : w.state.mode ≡ none
  pub no_channel : w.state.shutdown_tx ≡ none
  pub stored : w.file ≡ some file
  pub config : file.config ≡ some content
  pub desired : file.desired_state ≡ be_disconnected

-- What a disconnect after a connect does: it succeeds, tells the client's task to stop, and once
-- that task has ended the daemon is at rest.
pub record Disconnects (x : Syntax) (texts : Texts) (content : String) (inp' : Inputs) (id : ℕ)
    (connected : World) : Type 0 where
  pub answer : (handle_disconnect x texts inp' connected).1 ≡ ok tt
  pub told : (handle_disconnect x texts inp' connected).0.signalled ≡ id ∷ connected.signalled
  pub rest : IsAtRest content (task_ended id none (handle_disconnect x texts inp' connected).0)

connected_world-Disconnects :
    (x : Syntax) (texts : Texts) (content : String) (inp inp' : Inputs) (w : World)
    (config : WireGuardConfig)
    → inp.writable ≡ true
    → inp'.writable ≡ true
    → Disconnects x texts content inp' w.next_task (connected_world x texts content inp w config)
unfolding handle_disconnect disconnect_section request_stop task_ended update_desired_state
    update_last_connected save_connection_state re_establish establish spawn_task begin
connected_world-Disconnects x texts content inp inp' w config writable writable' =
    rw (writable, writable')
      (record {
        answer = refl;
        told = refl;
        rest = record {
          file = _;
          state = refl;
          no_mode = refl;
          no_channel = refl;
          stored = refl;
          config = refl;
          desired = refl;
        };
      })

-- A connect that went well is undone by a disconnect and the end of the client's task, while
-- the state file can be written: the daemon is back at rest, and the file keeps the
-- configuration but no longer asks for a connection.
pub handle_disconnect-handle_connect :
    (x : Syntax) (texts : Texts) (content : String) (inp inp' : Inputs) (w : World)
    → inp.writable ≡ true
    → inp'.writable ≡ true
    → (handle_connect x texts content inp w).1 ≡ ok tt
    → Disconnects x texts content inp' w.next_task (handle_connect x texts content inp w).0
handle_disconnect-handle_connect x texts content inp inp' w writable writable' h =
    let (config, e) = handle_connect-ok x texts content inp w h in
    rw e (connected_world-Disconnects x texts content inp inp' w config writable writable')
