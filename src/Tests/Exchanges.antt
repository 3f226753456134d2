-- ===== src/Tests/Exchanges.antt =====
-- A client and a server that connect and exchange packets.
use secure_guard.Base.{ℕ, Bool, true, List, [], ◌∷◌, none, arith, refl, bytes_eq}
use secure_guard.Base.HashMap.{get, insert}
use secure_guard.Net.{IpNet, v4_net, IpAddr}
use secure_guard.Peer
use secure_guard.Peer.{allows_ip}
use secure_guard.Peer.Manager
use secure_guard.Peer.Manager.{find_allowed}
use secure_guard.Server.{WireGuardServer, parse_ipv4_dest}
use secure_guard.Server.Handshake.{handle_handshake_initiation}
use secure_guard.Client.Handshake.{finish_handshake}
use secure_guard.Connection.{Acquainted, Connects}
use secure_guard.Connection.FirstPacket.Exchange.{Exchanges, perform_handshake-Exchanges}
use secure_guard.Connection.Stream.{Item, AllDelivered}
use secure_guard.Connection.FirstPacket.Streams.{perform_handshake-AllDelivered}
use secure_guard.Tests.Toy.{toy, toy_laws}
use secure_guard.Tests.Servers.{server, client_key, home, elsewhere, inputs}
use secure_guard.Tests.Clients.{client, at_time, first_turn, fits}

abbrev office : WireGuardServer
office = record server {
  peers = Manager.add_peer Manager.new client_key none (v4_net 167772162 32 ∷ []);
}

abbrev pub every : IpNet → IpAddr → Bool
every net ip = true

abbrev rest : List ℕ
rest = 0 ∷ 0 ∷ 20 ∷ 0 ∷ 0 ∷ 0 ∷ 0 ∷ 64 ∷ 1 ∷ 0 ∷ 0 ∷ 10 ∷ 0 ∷ 0 ∷ 1 ∷ 10 ∷ 0 ∷ 0 ∷ 2 ∷ []

known : Acquainted toy client office
unfolding Manager.get_peer Manager.add_peer Manager.new Peer.new get insert bytes_eq
known = record {
  peer = Peer.new client_key none (v4_net 167772162 32 ∷ []);
  own_key = refl;
  server_key = refl;
  known = refl;
  same_psk = refl;
}

perform_handshake-Exchanges_example :
    (x : Connects toy client first_turn office inputs elsewhere home []) × Exchanges toy every
      (finish_handshake x.waiting x.at_client home 2)
      (69 ∷ 0 ∷ [])
      (at_time 10)
      (handle_handshake_initiation toy office x.datagram elsewhere inputs).0
      elsewhere
      inputs
      (69 ∷ rest)
      inputs
      home
      (at_time 20)
unfolding parse_ipv4_dest Manager.find_by_allowed_ip Manager.add_peer Manager.new Peer.new insert
    bytes_eq allows_ip known
perform_handshake-Exchanges_example =
    perform_handshake-Exchanges toy toy_laws every client first_turn office inputs known fits
      elsewhere home [] 69 (0 ∷ []) (at_time 10) elsewhere inputs 69 rest 167772162 inputs home
      (at_time 20) refl (omega arith) (omega arith) (omega arith) (omega arith) (omega arith)
      (omega arith) refl refl

abbrev packet : Item
packet = record {
  first = 69;
  rest = 0 ∷ [];
  at_tun = at_time 10;
  from = elsewhere;
  at_udp = inputs;
}

perform_handshake-AllDelivered_example :
    (x : Connects toy client first_turn office inputs elsewhere home []) × AllDelivered toy
      (finish_handshake x.waiting x.at_client home 2)
      (handle_handshake_initiation toy office x.datagram elsewhere inputs).0
      (packet ∷ record packet { at_tun = at_time 20; from = home } ∷ [])
perform_handshake-AllDelivered_example =
    perform_handshake-AllDelivered toy toy_laws client first_turn office inputs elsewhere home []
      (packet ∷ record packet { at_tun = at_time 20; from = home } ∷ []) known fits refl
      (omega arith)
      (omega arith, omega arith, omega arith, (omega arith, omega arith, omega arith, tt))
