-- ===== src/Connection/Return.antt =====
-- A packet from the server's TUN device to the client's.
use secure_guard.Base.{
  ℕ, ◌<◌, ◌^◌, Bool, List, [], ◌∷◌, length, some, ◌≡◌, refl, sym, ap, ◌∙◌, inl, inr, arith,
}
use secure_guard.Base.Result.{ok, Result-cases}
use secure_guard.Net.{SocketAddr, IpAddr, IpNet}
use secure_guard.Messages.{get_message_type, try_from, transport_data}
use secure_guard.Messages.Header
use secure_guard.Crypto.{Primitives, PrimitiveLaws}
use secure_guard.Crypto
use secure_guard.Replay.Order.{Before, Before-fresh}
use secure_guard.Transport.{TransportState, reject_after_messages, encrypt_packet}
use secure_guard.Transport
use secure_guard.Transport.Delivery.{decrypt_packet-encrypt_packet}
use secure_guard.Transport.Counters.{decrypt_fresh}
use secure_guard.Session.{Session}
use secure_guard.Session.Slots.{Place}
use secure_guard.Session.Manager as SessionManager
use secure_guard.Peer.{PeerState}
use secure_guard.Server.{WireGuardServer}
use secure_guard.Server as Server
use secure_guard.Server.Inputs as ServerInputs
use secure_guard.Server.Traffic.{route_packet, handle_tun_packet}
use secure_guard.Client.{WireGuardClient, write_tun}
use secure_guard.Client.Traffic.{Inputs, locate, handle_transport_packet, handle_udp_packet}
use secure_guard.Connection.Delivery.{from_bytes-encrypt_packet}

-- The session in which the server sends `text` and the one that the client keeps for it, at the
-- times `now` and `later`: the server routes the packet to an endpoint, the client finds its own
-- session by the index that the server writes, opens with the server's key, and has let through
-- no counter from the server's on.
pub record LinkedBack (contains : IpNet → IpAddr → Bool) (s : WireGuardServer) (text : List ℕ)
    (c : WireGuardClient) (now later : ℕ) : Type 0 where
  pub key : List ℕ
  pub peer : PeerState
  pub endpoint : SocketAddr
  pub at_server : Session
  pub place : Place
  pub at_client : Session
  pub routed : route_packet contains s text now ≡ ok (key, peer, endpoint, at_server)
  pub found :
      SessionManager.find_by_index c.sessions at_server.remote_index later ≡ some (place, at_client)
  pub same_key : at_client.transport.receiving_key ≡ at_server.transport.sending_key
  pub before : Before at_client.transport.replay_window at_server.transport.sending_counter
  pub limit : at_server.transport.sending_counter < reject_after_messages
  pub index : at_server.remote_index < 2 ^ 32

module _ (p : Primitives) where
  -- What the server sends for a packet that the session encrypts.
  handle_tun_packet-effects :
      (contains : IpNet → IpAddr → Bool) (s : WireGuardServer) (text packet : List ℕ)
      (inp : ServerInputs.Inputs) (key : List ℕ) (peer : PeerState) (endpoint : SocketAddr)
      (session : Session)
      → route_packet contains s text inp.now ≡ ok (key, peer, endpoint, session)
      → encrypt_packet p session.transport.sending_key session.transport.sending_counter
          session.remote_index text
        ≡ ok packet
      → (handle_tun_packet p contains s text inp).1 ≡ Server.send_udp packet endpoint ∷ []
  unfolding handle_tun_packet Transport.encrypt
  handle_tun_packet-effects contains s text packet inp key peer endpoint session routed sealed =
      rw (routed, sealed, handle_tun_packet) refl

  -- An encrypted packet is a transport packet.
  get_message_type-encrypt_packet :
      (key : List ℕ) (counter index : ℕ) (text packet : List ℕ)
      → encrypt_packet p key counter index text ≡ ok packet
      → (b : ℕ) × (bs : List ℕ) × (packet ≡ b ∷ bs) × (get_message_type packet ≡ ok transport_data)
  unfolding encrypt_packet get_message_type try_from Header.build_message
  get_message_type-encrypt_packet key counter index text packet h =
      elim (Result-cases (Crypto.encrypt p key counter text [])) [
        | inr (e, bad) ↦ absurd (ground arith)
        | inl (sealed, good) ↦
            let made : Header.build_message index counter sealed ≡ packet = ground arith in
            (_, _, sym made, rw (← made) refl)
      ]

  -- What the client does with a packet that its session decrypts to a text that is not empty.
  handle_transport_packet-effects :
      (c : WireGuardClient) (packet : List ℕ) (from : SocketAddr) (inp : Inputs) (place : Place)
      (session : Session) (transport : TransportState) (b : ℕ) (bs : List ℕ)
      → locate c packet inp.now ≡ ok (place, session)
      → Transport.decrypt p session.transport packet ≡ (transport, ok (b ∷ bs))
      → (handle_transport_packet p c packet from inp).effects ≡ write_tun (b ∷ bs) ∷ []
  unfolding handle_transport_packet
  handle_transport_packet-effects c packet from inp place session transport b bs found opened =
      rw (found, opened, handle_transport_packet) refl

  handle_udp_packet-transport :
      (c : WireGuardClient) (packet : List ℕ) (from : SocketAddr) (inp : Inputs) (b : ℕ)
      (bs : List ℕ)
      → packet ≡ b ∷ bs
      → get_message_type packet ≡ ok transport_data
      → handle_udp_packet p c packet from inp ≡ handle_transport_packet p c packet from inp
  unfolding handle_udp_packet
  handle_udp_packet-transport c packet from inp b bs e t =
      rw e (rw (ap get_message_type (sym e) ∙ t, handle_udp_packet) refl)

  locate-eq :
      (c : WireGuardClient) (packet : List ℕ) (now index counter : ℕ) (place : Place)
      (session : Session)
      → Header.from_bytes packet ≡ ok (record { receiver_index = index; counter = counter })
      → SessionManager.find_by_index c.sessions index now ≡ some (place, session)
      → locate c packet now ≡ ok (place, session)
  unfolding locate
  locate-eq c packet now index counter place session header found = rw (header, found, locate) refl

-- The packet that the server sends for `text`, and what the client does with it.
pub record Returns (p : Primitives) (contains : IpNet → IpAddr → Bool) (s : WireGuardServer)
    (text : List ℕ) (inp : ServerInputs.Inputs) (endpoint : SocketAddr) (c : WireGuardClient)
    (from : SocketAddr) (inp' : Inputs) : Type 0 where
  pub packet : List ℕ
  pub sends : (handle_tun_packet p contains s text inp).1 ≡ Server.send_udp packet endpoint ∷ []
  pub writes : (handle_udp_packet p c packet from inp').effects ≡ write_tun text ∷ []

-- A packet from the server's TUN device reaches the client's as it is: where the server's session
-- for it and the client's are linked, the primitives keep their laws, and the packet is not empty
-- and shorter than 2^37 bytes, the server sends one datagram, to the peer's endpoint, and the
-- client, wherever that datagram comes from, writes the packet to its TUN device.
pub handle_tun_packet-Returns :
    (p : Primitives)
    → PrimitiveLaws p
    → (contains : IpNet → IpAddr → Bool) (s : WireGuardServer) (b : ℕ) (bs : List ℕ)
      (inp : ServerInputs.Inputs) (c : WireGuardClient) (from : SocketAddr) (inp' : Inputs)
    → length (b ∷ bs) < 2 ^ 37
    → (link : LinkedBack contains s (b ∷ bs) c inp.now inp'.now)
    → Returns p contains s (b ∷ bs) inp link.endpoint c from inp'
handle_tun_packet-Returns p laws contains s b bs inp c from inp' short link =
    let t = link.at_server.transport in
    let index = link.at_server.remote_index in
    let (packet, sealed, opened) =
      decrypt_packet-encrypt_packet p laws t.sending_key t.sending_counter index (b ∷ bs) link.limit
        link.index short in
    let header =
      from_bytes-encrypt_packet p t.sending_key t.sending_counter index (b ∷ bs) packet
        (omega (arith, link.limit)) link.index sealed in
    let located =
      locate-eq p c packet inp'.now index t.sending_counter link.place link.at_client header
        link.found in
    let fresh = Before-fresh link.at_client.transport.replay_window t.sending_counter link.before in
    let (d, ds, made, typed) =
      get_message_type-encrypt_packet p t.sending_key t.sending_counter index (b ∷ bs) packet
        sealed in
    record {
      packet = packet;
      sends =
          handle_tun_packet-effects p contains s (b ∷ bs) packet inp link.key link.peer
            link.endpoint link.at_server link.routed sealed;
      writes =
          ap (λ done. done.effects)
            (handle_udp_packet-transport p c packet from inp' d ds made typed)
          ∙ handle_transport_packet-effects p c packet from inp' link.place link.at_client _ b bs
              located
              (decrypt_fresh p laws link.at_client.transport packet (b ∷ bs) t.sending_counter
                (rw link.same_key opened) fresh.0);
    }
