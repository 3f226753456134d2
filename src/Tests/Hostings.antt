-- ===== src/Tests/Hostings.antt =====
-- A server that the daemon runs.
use secure_guard.Base.{true, false, List, [], ◌∷◌, replicate, none, some, refl, arith}
use secure_guard.Base.Result.{ok}
use secure_guard.Base.HashMap.{get}
use secure_guard.Config.{WireGuardConfig}
use secure_guard.Crypto.{public_key}
use secure_guard.Session.{no_traffic}
use secure_guard.Peer.Manager
use secure_guard.Server.{WireGuardServer, active_peers}
use secure_guard.Server.Inputs.{Inputs}
use secure_guard.Server.Loop.{Event, udp_packet, tun_packet, run}
use secure_guard.Server.Startup.{Surroundings, open_server, add_peers, new, new_with_channels}
use secure_guard.Server.Startup.Known.{AllKnown, new-AllKnown}
use secure_guard.Server.Deserted.{IsDeserted}
use secure_guard.Daemon.{default_state, connected, server}
use secure_guard.Daemon.Hosting.{
  start_server, Hosted, Writing, AddPeerRequest, check_server, decode_key, parse_allowed_ips,
  read_request, send_update, handle_add_peer, handle_remove_peer, was_connected,
}
use secure_guard.Daemon.Hosting.Strangers.{start_server-IsDeserted}
use secure_guard.Daemon.Hosting.Changes.{
  IsAdded, handle_add_peer-IsAdded, IsRemoved, handle_remove_peer-IsRemoved,
}
use secure_guard.Tests.Toy.{toy}
use secure_guard.Tests.Servers as Servers
use secure_guard.Tests.Configs.{toy_syntax, config}
use secure_guard.Tests.Exchanges.{every}

abbrev server_config : WireGuardConfig
server_config = record config { interface = record config.interface { listen_port = some 51820 } }

abbrev surroundings : Surroundings
surroundings = record { show_port = λ port. "51820"; tun = ok tt; bind_error = none }

abbrev alone : WireGuardServer
alone = record {
  static_private = replicate 32 7;
  static_public = public_key toy (replicate 32 7);
  peers = add_peers server_config.peers Manager.new;
  shared_peers = none;
  has_event_channel = false;
  traffic_stats = none;
}

new-AllKnown_example : AllKnown server_config.peers (active_peers alone)
unfolding new open_server
new-AllKnown_example = new-AllKnown toy surroundings server_config alone refl

abbrev hosted : WireGuardServer
hosted = record alone {
  peers = Manager.new;
  shared_peers = some Manager.new;
  has_event_channel = true;
  traffic_stats = some no_traffic;
}

abbrev rounds : List (Event × Inputs)
rounds =
    (udp_packet (4 ∷ 0 ∷ 0 ∷ 0 ∷ []) Servers.home, Servers.inputs)
    ∷ (tun_packet (69 ∷ []), Servers.inputs)
    ∷ []

start_server-IsDeserted_example :
    IsDeserted (run toy every hosted rounds).0 (run toy every hosted rounds).1
unfolding start_server new_with_channels open_server
start_server-IsDeserted_example =
    start_server-IsDeserted toy every surroundings server_config no_traffic hosted rounds refl
      (omega arith)

abbrev daemon : Hosted
daemon = record {
  daemon = record {
    state = record default_state {
      connection_state = connected;
      mode = some (server 51820 "10.0.0.1/24");
    };
    file = none;
    tasks = [];
    unspawned = [];
    signalled = [];
    resets = [];
    next_task = 1;
  };
  server = hosted;
  updates = [];
  listening = true;
}

abbrev writing : Writing
writing = record {
  encode_base64 = λ bytes. "aa=";
  write_net = λ net. "10.0.0.0/24";
  write_addr = λ addr. "192.168.1.1:51820";
  net_error = λ text. "invalid IP address syntax";
}

abbrev request : AddPeerRequest
request = record { public_key = "aa="; allowed_ips = "10.0.0.0/24" ∷ []; preshared_key = none }

handle_add_peer-IsAdded_example :
    IsAdded toy_syntax writing "1" request daemon
      (handle_add_peer toy_syntax writing request daemon).0
unfolding handle_add_peer read_request check_server decode_key parse_allowed_ips send_update
handle_add_peer-IsAdded_example =
    handle_add_peer-IsAdded toy_syntax writing "1" request daemon "aa=" refl

handle_remove_peer-IsRemoved_example :
    IsRemoved toy_syntax writing "1" "aa=" daemon (handle_remove_peer toy_syntax "aa=" daemon).0
unfolding handle_remove_peer check_server decode_key send_update was_connected Manager.get_peer
    Manager.new get
handle_remove_peer-IsRemoved_example =
    handle_remove_peer-IsRemoved toy_syntax writing "1" "aa=" daemon ("aa=", false) refl
