-- ===== src/Connection/FirstPacket/Exchange.antt =====
-- From the handshake to the first packet and the answer to it.
use secure_guard.Base.{
  ℕ, ◌+◌, ◌<◌, ◌^◌, Bool, List, ◌∷◌, length, false, none, some, ◌≡◌, refl, sym, ◌∙◌, inl, inr,
  Option-cases, arith,
}
use secure_guard.Base.Result.{ok}
use secure_guard.Base.HashMap.{key_eq}
use secure_guard.Net.{SocketAddr, IpAddr, IpNet}
use secure_guard.Crypto.{Primitives, PrimitiveLaws}
use secure_guard.Transport.{TransportState, encrypt_packet}
use secure_guard.Transport
use secure_guard.Session.{
  Session, TrafficStats, from_secs, is_expired, age, add_received, mark_received, mark_sent,
}
use secure_guard.Session
use secure_guard.Session.Slots.{at_current}
use secure_guard.Session.Slots.Found.{find_in_current}
use secure_guard.Session.Manager.{current_mut}
use secure_guard.Session.Manager as SessionManager
use secure_guard.Peer.Manager
use secure_guard.Server.{WireGuardServer, active_peers, parse_ipv4_dest}
use secure_guard.Server.Inputs as ServerInputs
use secure_guard.Server.Handshake.{handle_handshake_initiation}
use secure_guard.Server.Handshake.Reachable.{find_by_allowed_ip-Entered}
use secure_guard.Server.Traffic.{handle_transport_packet}
use secure_guard.Server.Traffic.Heard.{heard_session, route_packet-heard}
use secure_guard.Client.{WireGuardClient}
use secure_guard.Client.Handshake.{Turn, finish_handshake}
use secure_guard.Client.Traffic.{Inputs, send_sealed, handle_tun_packet}
use secure_guard.Connection.{
  Acquainted, Fits, Connects, perform_handshake-Connects, begin_handshake-eq, prepare_response-eq,
  datagram, response, result_r,
}
use secure_guard.Connection.Delivery.{used_session, Linked-Carried, Delivers, Carried-arrives}
use secure_guard.Connection.Return.{Returns, handle_tun_packet-Returns}
use secure_guard.Connection.FirstPacket.{new_unexpired, Connects-Linked}

-- Sending a packet keeps the session under its index, and the keys and the window of its other
-- direction.
find_by_index-handle_tun_packet :
    (p : Primitives) (c : WireGuardClient) (session : Session) (text packet : List ℕ) (inp : Inputs)
    (now : ℕ)
    → current_mut c.sessions inp.now ≡ some session
    → encrypt_packet p session.transport.sending_key session.transport.sending_counter
        session.remote_index text
      ≡ ok packet
    → is_expired session now ≡ false
    → SessionManager.find_by_index
        (handle_tun_packet p c text inp).client.sessions
        session.local_index
        now
      ≡ some (at_current, used_session session inp.now)
unfolding handle_tun_packet send_sealed Transport.encrypt SessionManager.find_by_index
    SessionManager.set_current mark_sent is_expired age
find_by_index-handle_tun_packet p c session text packet inp now current sealed live =
    let here =
      find_in_current (used_session session inp.now) c.sessions.previous_session now live in
    elim (Option-cases inp.send_error) [
      | inl e ↦ rw (current, sealed, e, handle_tun_packet, send_sealed) here
      | inr (reason, e) ↦ rw (current, sealed, e, handle_tun_packet, send_sealed) here
    ]

-- The packet that arrives, and the answer that comes back, in a connection `x`.
pub record Exchanges (p : Primitives) (contains : IpNet → IpAddr → Bool) (c : WireGuardClient)
    (text : List ℕ) (at_tun : Inputs) (s : WireGuardServer) (from : SocketAddr)
    (at_udp : ServerInputs.Inputs) (answer : List ℕ) (back : ServerInputs.Inputs) (via : SocketAddr)
    (at_home : Inputs) : Type 0 where
  pub there : Delivers p c text at_tun s from at_udp
  pub back_again :
      Returns p contains
        (handle_transport_packet p s there.packet from at_udp).0
        answer
        back
        from
        (handle_tun_packet p c text at_tun).client
        via
        at_home

module _ (p : Primitives) (laws : PrimitiveLaws p) (contains : IpNet → IpAddr → Bool)
    (c : WireGuardClient) (t : Turn) (s : WireGuardServer) (inp : ServerInputs.Inputs)
    (meet : Acquainted p c s) (fits : Fits t inp) (from home : SocketAddr) (later : List Turn) where
  abbrev client_key : List ℕ
  client_key = p.derive_public c.config.interface.private_key

  -- The server routes to the client that has connected as it did before.
  routed_after :
      (dest : ℕ) (x : Connects p c t s inp from home later)
      → inp.send_error ≡ none
      → Manager.find_by_allowed_ip contains (active_peers s) dest ≡ some (client_key, meet.peer)
      → Manager.find_by_allowed_ip contains
          (active_peers (handle_handshake_initiation p s x.datagram from inp).0)
          dest
        ≡ some (client_key, x.entered.peer)
  routed_after dest x sent routed =
      let same : x.datagram ≡ datagram p laws c t s inp meet fits =
        cc (sym x.begun ∙ begin_handshake-eq p laws c t s inp meet fits) in
      find_by_allowed_ip-Entered p contains s x.datagram from inp client_key
        (response p laws c t s inp meet fits) (result_r p laws c t s inp meet fits) x.at_server dest
        meet.peer (rw same (prepare_response-eq p laws c t s inp meet fits)) sent meet.known routed
        x.entered

  -- From nothing to the first packet and its answer: a client and a server that are configured for
  -- each other connect, a packet that comes to the client's TUN device within three minutes of the
  -- reply reaches the server's TUN device, and an answer that comes to the server's TUN device for
  -- an address that the server routes to the client leaves for the address that the packet came
  -- from and reaches the client's TUN device, each as it was and in one datagram. The primitives
  -- keep their laws, the datagrams arrive within three minutes of the initiation and of the reply,
  -- the server's sending of the handshake's reply does not fail, the answer is an IPv4 packet, and
  -- the packets are not empty and shorter than 2^37 bytes.
  pub perform_handshake-Exchanges :
      (b : ℕ) (bs : List ℕ) (at_tun : Inputs) (from' : SocketAddr) (at_udp : ServerInputs.Inputs)
      (d : ℕ) (ds : List ℕ) (dest : ℕ) (back : ServerInputs.Inputs) (via : SocketAddr)
      (at_home : Inputs)
      → inp.send_error ≡ none
      → length (b ∷ bs) < 2 ^ 37
      → length (d ∷ ds) < 2 ^ 37
      → at_tun.now < t.later + from_secs 180
      → at_udp.now < inp.now + from_secs 180
      → back.now < inp.now + from_secs 180
      → at_home.now < t.later + from_secs 180
      → parse_ipv4_dest (d ∷ ds) ≡ ok dest
      → Manager.find_by_allowed_ip contains (active_peers s) dest ≡ some (client_key, meet.peer)
      → (x : Connects p c t s inp from home later) × Exchanges p contains
          (finish_handshake x.waiting x.at_client home t.later)
          (b ∷ bs)
          at_tun
          (handle_handshake_initiation p s x.datagram from inp).0
          from'
          at_udp
          (d ∷ ds)
          back
          via
          at_home
  unfolding Connects-Linked Session.new Transport.new mark_received mark_sent is_expired age
  perform_handshake-Exchanges b bs at_tun from' at_udp d ds dest back via at_home sent short short'
        soon arrives soon' arrives' parsed routed =
      let x = perform_handshake-Connects p laws c t s inp meet fits from home later sent in
      let c' = finish_handshake x.waiting x.at_client home t.later in
      let s' = (handle_handshake_initiation p s x.datagram from inp).0 in
      let link =
        Connects-Linked p c t s inp from home later at_tun.now at_udp.now x fits.server_index soon
          arrives in
      let carried = Linked-Carried p laws c' s' at_tun.now at_udp.now link (b ∷ bs) short in
      let (sends, writes) = Carried-arrives p c' b bs at_tun s' from' at_udp link carried in
      let at_client = used_session link.at_client at_tun.now in
      let at_server =
        heard_session link.at_server
          (record link.at_server.transport { replay_window = carried.window }) at_udp.now in
      (
        x,
        record {
          there = record { packet = carried.packet; sends = sends; writes = writes };
          back_again =
              handle_tun_packet-Returns p laws contains
                (handle_transport_packet p s' carried.packet from' at_udp).0 d ds back
                (handle_tun_packet p c' (b ∷ bs) at_tun).client via at_home short'
                (record {
                  key = client_key;
                  peer = _;
                  endpoint = from';
                  at_server = at_server;
                  place = at_current;
                  at_client = at_client;
                  routed =
                      route_packet-heard p s' carried.packet from' at_udp client_key x.entered.peer
                        link.at_server
                        (record link.at_server.transport { replay_window = carried.window }) b bs
                        carried.located carried.opened contains (d ∷ ds) dest back.now parsed
                        (routed_after dest x sent routed)
                        (new_unexpired x.at_server from inp.now back.now soon');
                  found = rw (x.client_index.1 ∙ sym x.client_index.0) (
                      find_by_index-handle_tun_packet p c' link.at_client (b ∷ bs) carried.packet
                        at_tun at_home.now link.is_current carried.sealed
                        (new_unexpired x.at_client home t.later at_home.now arrives'));
                  same_key = x.receiving;
                  before = inl refl;
                  limit = omega arith;
                  index = omega (arith, x.client_index.1, fits.client_index);
                });
        },
      )
