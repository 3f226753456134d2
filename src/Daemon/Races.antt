-- ===== src/Daemon/Races.antt =====
-- Handlers that run at the same time.
use secure_guard.Base.{ℕ, ◌+◌, true, List, [], ◌∷◌, none, String, ◌≡◌, refl, arith}
use secure_guard.Base.Result.{ok, err}
use secure_guard.Daemon.{World, VpnMode, server, not_connected, server_not_running}
use secure_guard.Daemon.Sections.{
  Section, begins, establishes, spawns, stops, ends, begin, re_establish, establish, spawn_task,
  request_stop, start_check, disconnect_section, stop_section, task_ended, remove_task, perform,
  perform_all,
}
use secure_guard.Daemon.Coherence.{is_running}

-- The task is out of reach: it runs, was not told to stop beyond those that were told in `before`, and
-- neither `disconnect` nor `stop` finds anything to stop.
pub record IsStranded (id : ℕ) (before : World) (w : World) : Type 0 where
  pub runs : is_running id w.tasks ≡ true
  pub untold : w.signalled ≡ (before.next_task + 1) ∷ before.signalled
  pub no_disconnect :
      (disconnect_section w).1 ≡ err (record { code = not_connected; message = "Not connected" })
  pub no_stop :
      (stop_section w).1
      ≡ err (record { code = server_not_running; message = "Server not running" })

-- `start` comes while `connect` makes its client, and `stop` later ends the server.
abbrev pub start_within_connect : World → VpnMode → String → ℕ → String → String → List Section
start_within_connect w mode now port address later =
    begins
    ∷ begins
    ∷ establishes mode now
    ∷ spawns w.next_task
    ∷ establishes (server port address) later
    ∷ spawns (w.next_task + 1)
    ∷ stops
    ∷ ends (w.next_task + 1) none
    ∷ []

-- The server's handler does not see that a client is being connected: its check passes then, and
-- when the server is stopped again the client's task goes on running, with nothing left by which
-- to stop it.
pub start_within_connect-IsStranded :
    (w : World) (mode : VpnMode) (now : String) (port : ℕ) (address later : String)
    → (start_check (begin w) ≡ ok tt)
      × IsStranded w.next_task w
          (perform_all (start_within_connect w mode now port address later) w)
unfolding perform_all perform begin start_check re_establish establish spawn_task stop_section
    request_stop task_ended remove_task disconnect_section
start_within_connect-IsStranded w mode now port address later =
    (refl, record { runs = ground arith; untold = refl; no_disconnect = refl; no_stop = refl })
