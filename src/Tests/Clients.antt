-- ===== src/Tests/Clients.antt =====
-- A client, alone and with the server of the other tests.
use secure_guard.Base.{ℕ, ◌+◌, arith, List, [], ◌∷◌, replicate, none, some, ◌≡◌, ◌≢◌, refl}
use secure_guard.Net.{v4_net}
use secure_guard.Config.{PeerConfig}
use secure_guard.Handshake.{HandshakeResult}
use secure_guard.Session.{from_secs}
use secure_guard.Session.Manager as SessionManager
use secure_guard.Cookie
use secure_guard.Peer
use secure_guard.Peer.Manager
use secure_guard.Base.HashMap.{get, insert}
use secure_guard.Base.{bytes_eq}
use secure_guard.Client.{WireGuardClient}
use secure_guard.Client.Handshake.{
  Turn, arrives, timed_out, finish_handshake, perform_handshake, connect_with_retry,
}
use secure_guard.Client.Handshake.Ends.{perform_handshake-Ends}
use secure_guard.Client.Traffic.{Inputs}
use secure_guard.Client.Loop.{Event, tun_packet, keepalive_tick, rekey_check, run}
use secure_guard.Client.Loop.Sends.{Silent, AllSent}
use secure_guard.Client.Loop.Stalled.{AllFrom, run-finish_handshake}
use secure_guard.Client.Loop.Homed.{run-peer_endpoint}
use secure_guard.Client.Retry.{pauses, backoff, failures, connect_with_retry-backoff}
use secure_guard.Connection.{Acquainted, Fits, Connects, perform_handshake-Connects}
use secure_guard.Tests.Toy.{toy, toy_laws}
use secure_guard.Tests.Servers.{server, server_key, client_key, home, elsewhere, inputs}

abbrev server_entry : PeerConfig
server_entry = record {
  public_key = server_key;
  preshared_key = none;
  endpoint = some home;
  allowed_ips = v4_net 167772160 8 ∷ [];
  persistent_keepalive = some 25;
}

abbrev pub client : WireGuardClient
client = record {
  config = record {
    interface = record {
      private_key = client_key;
      address = (167772162, 24) ∷ [];
      dns = [];
      listen_port = none;
      mtu = none;
      preshared_key = none;
    };
    peers = server_entry ∷ [];
  };
  peer = server_entry;
  sessions = SessionManager.new;
  cookie_state = Cookie.new;
  pending_handshake = none;
  last_mac1 = replicate 16 0;
  peer_endpoint = home;
  keepalive_interval = some (from_secs 25);
  traffic_stats = none;
}

abbrev pub at_time : ℕ → Inputs
at_time secs = record { now = from_secs secs; send_error = none; write_error = none }

abbrev pub first_turn : Turn
first_turn = record {
  now = 1;
  later = 2;
  sender_index = 7;
  secret = replicate 32 4;
  timestamp = replicate 12 6;
  send_error = none;
  answer = timed_out;
}

abbrev keys : HandshakeResult
keys = record {
  local_index = 7;
  remote_index = 12;
  sending_key = replicate 32 8;
  receiving_key = replicate 32 9;
}

abbrev busy_rounds : List (Event × Inputs)
busy_rounds = (tun_packet (1 ∷ 2 ∷ []), at_time 10) ∷ (keepalive_tick, at_time 40) ∷ []

abbrev late_rounds : List (Event × Inputs)
late_rounds =
    (rekey_check (first_turn ∷ []), at_time 185) ∷ (tun_packet (1 ∷ 2 ∷ []), at_time 186) ∷ []

late_enough : AllFrom (from_secs 5 + from_secs 180) late_rounds
late_enough = omega arith

run-finish_handshake_example :
    Silent
      (run toy
        (run toy (finish_handshake client keys home (from_secs 5)) busy_rounds).0
        late_rounds).1
run-finish_handshake_example =
    run-finish_handshake toy client keys home (from_secs 5) busy_rounds late_rounds late_enough

run-peer_endpoint_example :
    ((run toy client busy_rounds).0.peer_endpoint ≡ home)
    × AllSent (λ bytes to. to ≡ home) (run toy client busy_rounds).1
run-peer_endpoint_example = run-peer_endpoint toy client busy_rounds

abbrev attempts : List (List Turn)
attempts = (first_turn ∷ []) ∷ (first_turn ∷ []) ∷ []

connect_with_retry-backoff_example :
    pauses (connect_with_retry toy client attempts).1 ≡ backoff 0 (failures toy client attempts)
connect_with_retry-backoff_example = connect_with_retry-backoff toy client attempts

acquainted : Acquainted toy client server
unfolding Manager.get_peer Manager.add_peer Manager.new Peer.new get insert bytes_eq
acquainted = record {
  peer = Peer.new client_key none [];
  own_key = refl;
  server_key = refl;
  known = refl;
  same_psk = refl;
}

pub fits : Fits first_turn inputs
fits = record { client_index = omega arith; server_index = omega arith; timestamp = refl }

perform_handshake-Connects_example : Connects toy client first_turn server inputs elsewhere home []
perform_handshake-Connects_example =
    perform_handshake-Connects toy toy_laws client first_turn server inputs acquainted fits
      elsewhere home [] refl

-- A turn in which the server asks for a cookie.
abbrev cookie_turn : Turn
cookie_turn = record first_turn { answer = arrives (3 ∷ 0 ∷ 0 ∷ 0 ∷ replicate 60 1) home }

perform_handshake-Ends_example :
    (perform_handshake toy client (cookie_turn ∷ first_turn ∷ cookie_turn ∷ [])
      ≡ perform_handshake toy client (cookie_turn ∷ first_turn ∷ []))
    × ((perform_handshake toy client (cookie_turn ∷ first_turn ∷ [])).2 ≢ none)
perform_handshake-Ends_example =
    perform_handshake-Ends toy client (cookie_turn ∷ []) (cookie_turn ∷ []) first_turn tt
