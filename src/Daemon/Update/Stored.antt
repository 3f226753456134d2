-- ===== src/Daemon/Update/Stored.antt =====
-- What an update of the configuration leaves in the state file.
use secure_guard.Base.{
  Bool, true, false, if◌then◌else◌, List, [], ◌∷◌, Option, none, some, String, ◌≡◌, refl, subst,
  sym, ap, ◌++◌, Option-cases, arith, ◌∙◌, inl, inr,
}
use secure_guard.Base.Result.{Result, ok, err, Result-cases}
use secure_guard.Error.{MinnowVpnError}
use secure_guard.Config.{WireGuardConfig}
use secure_guard.Config.Parser.{Syntax}
use secure_guard.Daemon.{
  World, ApiError, ConnectionStateFile, be_connected, update_desired_state, update_last_connected,
  VpnMode, client, server, save_connection_state, file_or_default,
}
use secure_guard.Daemon.Sections.{
  Section, begins, fails, establishes, re_establishes, drops, spawns, signals, disconnects, stops,
  ends, begin, fail, re_establish, establish, drop_mode, request_stop, disconnect_section,
  stop_section, task_ended, spawn_task, perform,
}
use secure_guard.Daemon.Routes.{Texts, Inputs}
use secure_guard.Daemon.Update.{
  is_connected, Event, section, saves, desires, connects, happen, happen_all, Meanwhile, pause,
  created, roll_back, reconnect, updated_file, prepare_update, handle_update_config,
}

perform-file : (x : Section) (w : World) → (perform x w).file ≡ w.file
unfolding perform begin fail re_establish establish drop_mode spawn_task request_stop
    disconnect_section stop_section task_ended
perform-file begins w = refl
perform-file (fails message) w = refl
perform-file (establishes mode now) w = refl
perform-file (re_establishes mode now) w = refl
perform-file (drops message) w = refl
perform-file (spawns id) w = refl
perform-file signals w = refl
perform-file disconnects w = by_mode w.state.mode refl
  where
    by_mode : (m : Option VpnMode) → w.state.mode ≡ m → (disconnect_section w).0.file ≡ w.file
    by_mode none e = rw (e, disconnect_section) refl
    by_mode (some (client ip endpoint current previous)) e = rw (e, disconnect_section) refl
    by_mode (some (server port address)) e = rw (e, disconnect_section) refl
perform-file stops w = by_mode w.state.mode refl
  where
    by_mode : (m : Option VpnMode) → w.state.mode ≡ m → (stop_section w).0.file ≡ w.file
    by_mode none e = rw (e, stop_section) refl
    by_mode (some (client ip endpoint current previous)) e = rw (e, stop_section) refl
    by_mode (some (server port address)) e = rw (e, stop_section) refl
perform-file (ends id failure) w = refl

-- What an event makes of the file.
unfoldable pub write : Event → Option ConnectionStateFile → Option ConnectionStateFile
write (section x) file = file
write (saves writable new) file = if writable then some new else file
write (desires writable now desired) file =
    let old = file_or_default now file in
    if writable then some (record old { desired_state = desired; last_updated_at = now }) else file
write (connects writable now) none = none
write (connects writable now) (some old) =
    if writable
    then some (record old { last_connected_at = some now; retry_count = 0; last_updated_at = now })
    else some old

unfoldable pub write_all : List Event → Option ConnectionStateFile → Option ConnectionStateFile
write_all [] file = file
write_all (e ∷ es) file = write_all es (write e file)

write_all-append :
    (front back : List Event) (file : Option ConnectionStateFile)
    → write_all (front ++ back) file ≡ write_all back (write_all front file)
unfolding write_all
write_all-append [] back file = refl
write_all-append (e ∷ front) back file = write_all-append front back (write e file)

happen-file : (e : Event) (w : World) → (happen e w).file ≡ write e w.file
unfolding happen write save_connection_state update_desired_state update_last_connected
happen-file (section x) w = perform-file x w
happen-file (saves true file) w = refl
happen-file (saves false file) w = refl
happen-file (desires true now desired) w = refl
happen-file (desires false now desired) w = refl
happen-file (connects writable now) w = elim (Option-cases w.file) [
  | inl e ↦ ground (arith, e)
  | inr (file, e) ↦ ground (arith, e)
]

happen_all-file : (es : List Event) (w : World) → (happen_all es w).file ≡ write_all es w.file
unfolding happen_all write_all
happen_all-file [] w = refl
happen_all-file (e ∷ es) w = happen_all-file es (happen e w) ∙ ap (write_all es) (happen-file e w)

pause-file :
    (running : Bool) (m : Meanwhile) (w : World)
    → (pause running m w).file ≡ write_all (m.before ++ m.pausing) w.file
unfolding pause request_stop
pause-file true m w =
    happen_all-file m.pausing (request_stop (happen_all m.before w))
    ∙ ap (write_all m.pausing) (happen_all-file m.before w)
    ∙ sym (write_all-append m.before m.pausing w.file)
pause-file false m w =
    happen_all-file m.pausing (happen_all m.before w)
    ∙ ap (write_all m.pausing) (happen_all-file m.before w)
    ∙ sym (write_all-append m.before m.pausing w.file)

-- The file has the configuration and asks for a connection if the answer is good, and is `others` if
-- it is not.
abbrev pub Stored :
    String
    → Option ConnectionStateFile
    → Option ConnectionStateFile
    → Result (Unit {0}) ApiError
    → Type 0
Stored content others after (ok done) =
    (file : ConnectionStateFile) × (after ≡ some file)
    × (file.config ≡ some content)
    × (file.desired_state ≡ be_connected)
Stored content others after (err e) = after ≡ others

module _ (x : Syntax) (texts : Texts) (content : String) (inp again : Inputs) (m : Meanwhile) where
  -- What the file would be without the update: a refused one does not wait.
  unfoldable pub left_by_others : World → Option ConnectionStateFile
  left_by_others w = elim (prepare_update x texts content w) [
    | err e ↦ w.file
    | ok prepared ↦ write_all ((m.before ++ m.pausing) ++ (m.retrying ++ m.notifying)) w.file
  ]

  roll_back-file :
      (previous : WireGuardConfig) (e : MinnowVpnError) (w : World)
      → let done = roll_back x texts previous e again m w in
        (done.0.file ≡ write_all (m.retrying ++ m.notifying) w.file)
        × ((why : ApiError) × (done.1 ≡ err why))
  unfolding roll_back re_establish drop_mode spawn_task
  roll_back-file previous e w =
      let w' = happen_all m.retrying w in
      let whole : write_all m.notifying w'.file ≡ write_all (m.retrying ++ m.notifying) w.file =
        ap (write_all m.notifying) (happen_all-file m.retrying w)
        ∙ sym (write_all-append m.retrying m.notifying w.file) in
      elim (Result-cases (created x texts previous again w')) [
        | inl (made, good) ↦ rw (good, roll_back) (happen_all-file m.notifying _ ∙ whole, (_, refl))
        | inr (e', bad) ↦ rw (bad, roll_back) (happen_all-file m.notifying _ ∙ whole, (_, refl))
      ]

  reconnect-Stored :
      (config previous : WireGuardConfig) (w : World)
      → inp.writable ≡ true
      → let done = reconnect x texts content config previous inp again m w in
        Stored content (write_all (m.retrying ++ m.notifying) w.file) done.0.file done.1
  unfolding reconnect re_establish save_connection_state updated_file spawn_task
  reconnect-Stored config previous w writable = elim (Result-cases (created x texts config inp w)) [
    | inl (made, good) ↦ rw (good, writable, reconnect) (_, refl, refl, refl)
    | inr (e, bad) ↦
        let (file, (why, failed)) = roll_back-file previous e w in rw (bad, reconnect, failed) file
  ]

  -- The state file follows the answer of an update, while the update can write it: after a good
  -- answer it has the new configuration and asks for a connection, and after a refusal, a rollback
  -- or a failure it is what the writes of the others that ran meanwhile make of it; whatever
  -- sections they run and whatever they write, at any point at which the update waits.
  pub handle_update_config-Stored :
      (w : World)
      → inp.writable ≡ true
      → let done = handle_update_config x texts content inp again m w in
        Stored content (left_by_others w) done.0.file done.1
  unfolding handle_update_config left_by_others
  handle_update_config-Stored w writable = elim (Result-cases (prepare_update x texts content w)) [
    | inr (e, refused) ↦ rw (refused, handle_update_config, left_by_others) refl
    | inl ((config, previous), ready) ↦
        let running = is_connected w.state.connection_state in
        let w' = pause running m w in
        let same : write_all (m.retrying ++ m.notifying) w'.file
            ≡ write_all ((m.before ++ m.pausing) ++ (m.retrying ++ m.notifying)) w.file =
          ap (write_all (m.retrying ++ m.notifying)) (pause-file running m w)
          ∙ sym (write_all-append (m.before ++ m.pausing) (m.retrying ++ m.notifying) w.file) in
        rw (ready, handle_update_config, left_by_others)
          (subst
            (λ file.
              Stored content file (reconnect x texts content config previous inp again m w').0.file
                (reconnect x texts content config previous inp again m w').1)
            same (reconnect-Stored config previous w' writable))
  ]
