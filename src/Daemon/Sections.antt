-- ===== src/Daemon/Sections.antt =====
-- src/daemon/routes.rs: the sections of the handlers and of the tasks. A section holds the lock
-- on the state, so it runs as a whole; between two sections of a handler others may run.
use secure_guard.Base.{ℕ, ◌+◌, ◌==◌, if◌then◌else◌, List, [], ◌∷◌, Option, none, some, String}
use secure_guard.Base.Result.{Result, ok, err}
use secure_guard.Session.{reset}
use secure_guard.Daemon.{
  World, DaemonState, disconnected, connecting, connected, disconnecting, error, VpnMode, client,
  server, ApiError, Code, not_connected, already_connected, server_not_running, already_running,
}

abbrev refuse {ℓ} : {A : Type ℓ} → Code → String → Result A ApiError
refuse code message = err (record { code = code; message = message })

-- `connect`, and `start` of the server, look first whether something runs.
unfoldable pub connect_check : World → Result (Unit {0}) ApiError
connect_check w = elim w.state.connection_state [
  | disconnected ↦ ok tt
  | connecting ↦ refuse already_connected "Already connected or connecting"
  | connected ↦ refuse already_connected "Already connected or connecting"
  | disconnecting ↦ ok tt
  | error ↦ ok tt
]

unfoldable pub start_check : World → Result (Unit {0}) ApiError
start_check w = elim w.state.connection_state [
  | disconnected ↦ ok tt
  | connecting ↦ ok tt
  | connected ↦ refuse already_running "Server or client already running"
  | disconnecting ↦ ok tt
  | error ↦ ok tt
]

unfoldable pub begin : World → World
begin w = record w {
  state = record w.state { connection_state = connecting; error_message = none };
}

-- What every failure does.
unfoldable pub fail : String → World → World
fail message w = record w {
  state = record w.state { connection_state = error; error_message = some message };
}

-- A new channel and the new mode. The task at the channel's other end is spawned later, when the
-- lock is released and the notification is sent.
unfoldable pub re_establish : VpnMode → String → World → World
re_establish mode now w = record w {
  state = record w.state {
    connection_state = connected;
    mode = some mode;
    started_at = some now;
    shutdown_tx = some w.next_task;
  };
  unspawned = w.next_task ∷ w.unspawned;
  next_task = w.next_task + 1;
}

-- The same for a connection that is not an update: the counters start again.
unfoldable pub establish : VpnMode → String → World → World
establish mode now w =
    re_establish mode now
      (record w { state = record w.state { traffic_stats = reset w.state.traffic_stats } })

-- An update that failed for good; the channel stays.
unfoldable pub drop_mode : String → World → World
drop_mode message w = record w {
  state = record w.state { connection_state = error; error_message = some message; mode = none };
}

abbrev signal : Option ℕ → List ℕ → List ℕ
signal none ids = ids
signal (some id) ids = id ∷ ids

-- `shutdown_tx.send(true)`.
unfoldable pub request_stop : World → World
request_stop w = record w {
  state = record w.state { connection_state = disconnecting };
  signalled = signal w.state.shutdown_tx w.signalled;
}

unfoldable pub disconnect_section : World → World × Result (Unit {0}) ApiError
disconnect_section w = elim w.state.mode [
  | none ↦ (w, refuse not_connected "Not connected")
  | some mode ↦ elim mode [
    | client ip endpoint current previous ↦ (request_stop w, ok tt)
    | server port address ↦ (w, refuse not_connected "Use /api/v1/server/stop to stop server mode")
  ]
]

unfoldable pub stop_section : World → World × Result (Unit {0}) ApiError
stop_section w = elim w.state.mode [
  | none ↦ (w, refuse server_not_running "Server not running")
  | some mode ↦ elim mode [
    | client ip endpoint current previous ↦
        (w, refuse server_not_running "Use /api/v1/disconnect for client mode")
    | server port address ↦ (request_stop w, ok tt)
  ]
]

unfoldable pub remove_task : ℕ → List ℕ → List ℕ
remove_task id [] = []
remove_task id (t ∷ ts) = let rest = remove_task id ts in if t == id then rest else t ∷ rest

-- `spawn_client_task`, `spawn_server_task`.
unfoldable pub spawn_task : ℕ → World → World
spawn_task id w = record w { tasks = id ∷ w.tasks; unspawned = remove_task id w.unspawned }

-- The task that an invalid configuration spawns, which is yet to run `fail`.
unfoldable pub spawn_reset : String → World → World
spawn_reset message w = record w { resets = message ∷ w.resets }

-- The outcome of a task: it was stopped or returned, or failed with a message.
abbrev outcome : Option String → DaemonState → DaemonState
outcome none s = record s { connection_state = disconnected }
outcome (some message) s = record s { connection_state = error; error_message = some message }

-- The end of `spawn_client_task` and `spawn_server_task`: it clears the mode, whosever it is.
unfoldable pub task_ended : ℕ → Option String → World → World
task_ended id failure w = record w {
  state = record (outcome failure w.state) { mode = none; started_at = none; shutdown_tx = none };
  tasks = remove_task id w.tasks;
}

-- The sections that change the state, and the spawning of the tasks.
pub data Section : Type 0 where
  begins : Section
  fails : String → Section
  establishes : VpnMode → String → Section
  re_establishes : VpnMode → String → Section
  drops : String → Section
  spawns : ℕ → Section
  signals disconnects stops : Section
  ends : ℕ → Option String → Section

unfoldable pub perform : Section → World → World
perform begins w = begin w
perform (fails message) w = fail message w
perform (establishes mode now) w = establish mode now w
perform (re_establishes mode now) w = re_establish mode now w
perform (drops message) w = drop_mode message w
perform (spawns id) w = spawn_task id w
perform signals w = request_stop w
perform disconnects w = (disconnect_section w).0
perform stops w = (stop_section w).0
perform (ends id failure) w = task_ended id failure w

unfoldable pub perform_all : List Section → World → World
perform_all [] w = w
perform_all (section ∷ sections) w = perform_all sections (perform section w)
