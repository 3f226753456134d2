-- ===== src/Tests/Daemons.antt =====
-- A daemon.
use secure_guard.Base.{true, List, [], ◌∷◌, none, ◌≡◌, refl}
use secure_guard.Base.Result.{ok}
use secure_guard.Config.Parser.{from_string}
use secure_guard.Client as Client
use secure_guard.Daemon.{World, VpnMode, client, default_state, be_disconnected}
use secure_guard.Daemon.Sections.{
  Section, begins, establishes, spawns, disconnects, ends, begin, start_check, connect_check,
  perform_all,
}
use secure_guard.Daemon.Routes.{Texts, Inputs, handle_connect, connect_client}
use secure_guard.Daemon.Coherence.{IsCoherent, perform_all-IsCoherent}
use secure_guard.Daemon.Races.{IsStranded, start_within_connect, start_within_connect-IsStranded}
use secure_guard.Daemon.Lifecycle.{Disconnects, handle_disconnect-handle_connect}
use secure_guard.Daemon.Update.{Meanwhile, section, desires, handle_update_config}
use secure_guard.Daemon.Update.Stored.{Stored, left_by_others, handle_update_config-Stored}
use secure_guard.Tests.Configs.{toy_syntax, file, config, parsed}

abbrev idle : World
idle = record {
  state = default_state;
  file = none;
  tasks = [];
  unspawned = [];
  signalled = [];
  next_task = 1;
  resets = [];
}

abbrev texts : Texts
texts = record {
  show_error = λ e. "error";
  show_config_error = λ e. "config error";
  show_net = λ net. "10.0.0.0/24";
  show_ip = λ ip. "10.0.0.0";
  show_addr = λ addr. "192.168.1.1:51820";
}

abbrev inputs : Inputs
inputs = record {
  now = "1700000000";
  writable = true;
  tun = ok tt;
  bind_error = none;
  server_created = ok tt;
}

abbrev a_client : VpnMode
a_client = client "10.0.0.2/24" "192.168.1.1:51820" config none

idle-IsCoherent : IsCoherent idle
idle-IsCoherent = record { agree = tt; leads = tt }

abbrev some_sections : List Section
some_sections = begins ∷ establishes a_client "1" ∷ spawns 1 ∷ disconnects ∷ ends 1 none ∷ []

perform_all-IsCoherent_example : IsCoherent (perform_all some_sections idle)
perform_all-IsCoherent_example = perform_all-IsCoherent some_sections idle idle-IsCoherent

start_within_connect-IsStranded_example :
    (start_check (begin idle) ≡ ok tt)
    × IsStranded 1 idle
        (perform_all (start_within_connect idle a_client "1" 51820 "10.0.0.1/24" "2") idle)
start_within_connect-IsStranded_example =
    start_within_connect-IsStranded idle a_client "1" 51820 "10.0.0.1/24" "2"

connects : (handle_connect toy_syntax texts file inputs idle).1 ≡ ok tt
unfolding handle_connect connect_client connect_check from_string Client.new
connects = rw (parsed, handle_connect, from_string) refl

handle_disconnect-handle_connect_example :
    Disconnects toy_syntax texts file inputs 1 (handle_connect toy_syntax texts file inputs idle).0
handle_disconnect-handle_connect_example =
    handle_disconnect-handle_connect toy_syntax texts file inputs inputs idle refl refl connects

abbrev meanwhile : Meanwhile
meanwhile = record {
  before = [];
  pausing = section (ends 1 none) ∷ desires true "1700000001" be_disconnected ∷ [];
  retrying = [];
  notifying = [];
}

handle_update_config-Stored_example :
    let w = (handle_connect toy_syntax texts file inputs idle).0 in
    let done = handle_update_config toy_syntax texts file inputs inputs meanwhile w in
    Stored file (left_by_others toy_syntax texts file inputs inputs meanwhile w) done.0.file done.1
handle_update_config-Stored_example =
    handle_update_config-Stored toy_syntax texts file inputs inputs meanwhile
      (handle_connect toy_syntax texts file inputs idle).0 refl
