-- ===== src/Daemon/Coherence.antt =====
-- What holds of the daemon's state in whatever order the sections run.
use secure_guard.Base.{
  ℕ, Bool, true, false, ◌||◌, ◌==◌, ==_iff, arith, List, [], ◌∷◌, Option, none, some, ◌≡◌, refl,
}
use secure_guard.Daemon.{
  World, ConnectionState, disconnected, connecting, connected, disconnecting, error, VpnMode,
  client, server,
}
use secure_guard.Daemon.Sections.{
  Section, begins, fails, establishes, re_establishes, drops, spawns, signals, disconnects, stops,
  ends, begin, fail, spawn_task, remove_task, re_establish, establish, drop_mode, request_stop,
  disconnect_section, stop_section, task_ended, perform, perform_all,
}

abbrev pub is_running : ℕ → List ℕ → Bool
is_running id [] = false
is_running id (t ∷ ts) = t == id || is_running id ts

-- A channel leads to a task that runs, or that a handler is yet to spawn.
abbrev pub Leads : Option ℕ → List ℕ → List ℕ → Type 0
Leads none tasks unspawned = Unit
Leads (some id) tasks unspawned = (is_running id tasks || is_running id unspawned) ≡ true

is_running-remove_task :
    (id j : ℕ) (ts : List ℕ)
    → (j == id || is_running id (remove_task j ts)) ≡ (j == id || is_running id ts)
unfolding remove_task
is_running-remove_task id j [] = refl
is_running-remove_task id j (t ∷ ts) =
    ground (arith, is_running-remove_task id j ts, ==_iff t j, ==_iff j id, ==_iff t id)

spawn_task-Leads :
    (tx : Option ℕ) (id : ℕ) (tasks unspawned : List ℕ)
    → Leads tx tasks unspawned
    → Leads tx (id ∷ tasks) (remove_task id unspawned)
spawn_task-Leads none id tasks unspawned h = tt
spawn_task-Leads (some j) id tasks unspawned h =
    ground (arith, is_running-remove_task j id unspawned)

-- With a mode there is a channel; without one the daemon does not say that it is connected.
abbrev pub Agree : ConnectionState → Option VpnMode → Option ℕ → Type 0
Agree c (some mode) (some id) = Unit
Agree c (some mode) none = ⊥
Agree disconnected none tx = Unit
Agree connecting none tx = Unit
Agree connected none tx = ⊥
Agree disconnecting none tx = Unit
Agree error none tx = Unit

pub record IsCoherent (w : World) : Type 0 where
  pub agree : Agree w.state.connection_state w.state.mode w.state.shutdown_tx
  pub leads : Leads w.state.shutdown_tx w.tasks w.unspawned

-- A state in which the daemon is not connected agrees with whatever its mode agreed with.
Agree-change :
    (c d : ConnectionState) (mode : Option VpnMode) (tx : Option ℕ)
    → Agree d none none
    → Agree c mode tx
    → Agree d mode tx
Agree-change c d (some mode) (some id) u v = tt
Agree-change c d (some mode) none u v = v
Agree-change c disconnected none tx u v = tt
Agree-change c connecting none tx u v = tt
Agree-change c connected none tx u v = u
Agree-change c disconnecting none tx u v = tt
Agree-change c error none tx u v = tt

request_stop-IsCoherent : (w : World) → IsCoherent w → IsCoherent (request_stop w)
unfolding request_stop
request_stop-IsCoherent w v = record {
  agree =
      Agree-change w.state.connection_state disconnecting w.state.mode w.state.shutdown_tx tt
        v.agree;
  leads = v.leads;
}

disconnect_section-IsCoherent : (w : World) → IsCoherent w → IsCoherent (disconnect_section w).0
unfolding disconnect_section
disconnect_section-IsCoherent w v = by_mode w.state.mode refl
  where
    by_mode : (m : Option VpnMode) → w.state.mode ≡ m → IsCoherent (disconnect_section w).0
    by_mode none e = rw (e, disconnect_section) v
    by_mode (some (client ip endpoint current previous)) e =
        rw (e, disconnect_section) (request_stop-IsCoherent w v)
    by_mode (some (server port address)) e = rw (e, disconnect_section) v

stop_section-IsCoherent : (w : World) → IsCoherent w → IsCoherent (stop_section w).0
unfolding stop_section
stop_section-IsCoherent w v = by_mode w.state.mode refl
  where
    by_mode : (m : Option VpnMode) → w.state.mode ≡ m → IsCoherent (stop_section w).0
    by_mode none e = rw (e, stop_section) v
    by_mode (some (client ip endpoint current previous)) e = rw (e, stop_section) v
    by_mode (some (server port address)) e = rw (e, stop_section) (request_stop-IsCoherent w v)

perform-IsCoherent : (section : Section) (w : World) → IsCoherent w → IsCoherent (perform section w)
unfolding perform begin fail re_establish establish drop_mode spawn_task task_ended
perform-IsCoherent begins w v = record {
  agree =
      Agree-change w.state.connection_state connecting w.state.mode w.state.shutdown_tx tt v.agree;
  leads = v.leads;
}
perform-IsCoherent (fails message) w v = record {
  agree = Agree-change w.state.connection_state error w.state.mode w.state.shutdown_tx tt v.agree;
  leads = v.leads;
}
perform-IsCoherent (establishes mode now) w v = record {
  agree = tt;
  leads = ground (arith, ==_iff w.next_task w.next_task);
}
perform-IsCoherent (re_establishes mode now) w v = record {
  agree = tt;
  leads = ground (arith, ==_iff w.next_task w.next_task);
}
perform-IsCoherent (drops message) w v = record { agree = tt; leads = v.leads }
perform-IsCoherent (spawns id) w v = record {
  agree = v.agree;
  leads = spawn_task-Leads w.state.shutdown_tx id w.tasks w.unspawned v.leads;
}
perform-IsCoherent signals w v = request_stop-IsCoherent w v
perform-IsCoherent disconnects w v = disconnect_section-IsCoherent w v
perform-IsCoherent stops w v = stop_section-IsCoherent w v
perform-IsCoherent (ends id none) w v = record { agree = tt; leads = tt }
perform-IsCoherent (ends id (some message)) w v = record { agree = tt; leads = tt }

-- In whatever order the sections of the handlers, the spawning of the tasks and the ends of the
-- tasks come, a coherent daemon stays coherent: it says that it is connected only with a mode, it
-- has a channel whenever it has a mode, and the channel leads to a task that runs or that a handler
-- is yet to spawn.
pub perform_all-IsCoherent :
    (sections : List Section) (w : World) → IsCoherent w → IsCoherent (perform_all sections w)
unfolding perform_all
perform_all-IsCoherent [] w v = v
perform_all-IsCoherent (section ∷ sections) w v =
    perform_all-IsCoherent sections (perform section w) (perform-IsCoherent section w v)
