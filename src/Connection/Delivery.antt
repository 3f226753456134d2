-- ===== src/Connection/Delivery.antt =====
-- A packet from the client's TUN device to the server's.
use secure_guard.Base.{
  ℕ, ◌+◌, ◌<◌, ◌^◌, List, [], ◌∷◌, length, some, ◌≡◌, refl, sym, ap, ◌∙◌, inl, inr, Option-cases,
  arith,
}
use secure_guard.Base.Words.{wrap_u64}
use secure_guard.Base.Result.{ok, Result-cases}
use secure_guard.Net.{SocketAddr}
use secure_guard.Messages.Header
use secure_guard.Messages.Header.RoundTrip.{from_bytes-build_message}
use secure_guard.Crypto.{Primitives, PrimitiveLaws}
use secure_guard.Crypto
use secure_guard.Replay.{ReplayWindow, check_and_update}
use secure_guard.Replay.Order.{Before, Before-fresh}
use secure_guard.Transport.{
  TransportState, reject_after_messages, encrypt_packet, decrypt_packet, admit,
}
use secure_guard.Transport
use secure_guard.Transport.Delivery.{decrypt_packet-encrypt_packet}
use secure_guard.Transport.Counters.{decrypt_fresh}
use secure_guard.Session.{Session, mark_sent}
use secure_guard.Session.Slots.{Place, at_current}
use secure_guard.Session.Manager.{current_mut}
use secure_guard.Peer.{PeerState, find_session_by_index}
use secure_guard.Peer.Manager
use secure_guard.Server.{WireGuardServer, active_peers, write_tun}
use secure_guard.Server.Inputs as ServerInputs
use secure_guard.Server.Inputs.{written}
use secure_guard.Server.Traffic.{handle_transport_packet, locate, accept_packet}
use secure_guard.Client.{WireGuardClient, send_udp}
use secure_guard.Client.Traffic.{Inputs, send_sealed, handle_tun_packet}

-- The client's session after it sent a packet.
abbrev pub used_session : Session → ℕ → Session
used_session session now =
    mark_sent
      (record session {
        transport = record session.transport {
          sending_counter = wrap_u64 (session.transport.sending_counter + 1);
        };
      })
      now

-- The client's current session and the one that the server keeps for it, at the times `now` and
-- `later`: the server finds its own by the index that the client writes, opens with the client's
-- key, and has let through no counter from the client's on.
pub record Linked (c : WireGuardClient) (s : WireGuardServer) (now later : ℕ) : Type 0 where
  pub at_client : Session
  pub key : List ℕ
  pub peer : PeerState
  pub at_server : Session
  pub is_current : current_mut c.sessions now ≡ some at_client
  pub found : Manager.find_by_index (active_peers s) at_client.remote_index ≡ some (key, peer)
  pub is_session :
      find_session_by_index peer at_client.remote_index later ≡ some (at_current, at_server)
  pub same_key : at_server.transport.receiving_key ≡ at_client.transport.sending_key
  pub before : Before at_server.transport.replay_window at_client.transport.sending_counter
  pub limit : at_client.transport.sending_counter < reject_after_messages
  pub index : at_client.remote_index < 2 ^ 32

module _ (p : Primitives) where
  -- The header of an encrypted packet.
  pub from_bytes-encrypt_packet :
      (key : List ℕ) (counter index : ℕ) (text packet : List ℕ)
      → counter < 2 ^ 64
      → index < 2 ^ 32
      → encrypt_packet p key counter index text ≡ ok packet
      → Header.from_bytes packet ≡ ok (record { receiver_index = index; counter = counter })
  unfolding encrypt_packet
  from_bytes-encrypt_packet key counter index text packet fits small h =
      elim (Result-cases (Crypto.encrypt p key counter text [])) [
        | inr (e, bad) ↦ absurd (ground arith)
        | inl (sealed, good) ↦
            let made : Header.build_message index counter sealed ≡ packet = ground arith in
            ap Header.from_bytes (sym made)
            ∙ from_bytes-build_message index counter sealed small fits
      ]

  -- What the client sends for a packet that its session encrypts.
  handle_tun_packet-effects :
      (c : WireGuardClient) (session : Session) (text packet : List ℕ) (inp : Inputs)
      → current_mut c.sessions inp.now ≡ some session
      → encrypt_packet p session.transport.sending_key session.transport.sending_counter
          session.remote_index text
        ≡ ok packet
      → (handle_tun_packet p c text inp).effects ≡ send_udp packet c.peer_endpoint ∷ []
  unfolding handle_tun_packet send_sealed Transport.encrypt
  handle_tun_packet-effects c session text packet inp current sealed =
      elim (Option-cases inp.send_error) [
        | inl e ↦ rw (current, sealed, e, handle_tun_packet, send_sealed) refl
        | inr (reason, e) ↦ rw (current, sealed, e, handle_tun_packet, send_sealed) refl
      ]

  -- What the server does with a packet that the session decrypts to a text that is not empty.
  handle_transport_packet-effects :
      (s : WireGuardServer) (packet : List ℕ) (from : SocketAddr) (inp : ServerInputs.Inputs)
      (key : List ℕ) (peer : PeerState) (place : Place) (session : Session)
      (transport : TransportState) (b : ℕ) (bs : List ℕ)
      → locate s packet inp.now ≡ ok ((key, peer), (place, session))
      → Transport.decrypt p session.transport packet ≡ (transport, ok (b ∷ bs))
      → (handle_transport_packet p s packet from inp).1 ≡ write_tun (b ∷ bs) ∷ []
  unfolding handle_transport_packet accept_packet
  handle_transport_packet-effects s packet from inp key peer place session transport b bs found
        opened =
      rw (found, opened, handle_transport_packet) refl

  locate-eq :
      (s : WireGuardServer) (packet : List ℕ) (now index counter : ℕ) (key : List ℕ)
      (peer : PeerState) (place : Place) (session : Session)
      → Header.from_bytes packet ≡ ok (record { receiver_index = index; counter = counter })
      → Manager.find_by_index (active_peers s) index ≡ some (key, peer)
      → find_session_by_index peer index now ≡ some (place, session)
      → locate s packet now ≡ ok ((key, peer), (place, session))
  unfolding locate
  locate-eq s packet now index counter key peer place session header found in_peer =
      rw (header, found, in_peer, locate) refl

-- The packet that the client makes of `text` in a linked session, and how the server opens it.
pub record Carried (p : Primitives) (c : WireGuardClient) (s : WireGuardServer) (now later : ℕ)
    (link : Linked c s now later) (text : List ℕ) : Type 0 where
  pub packet : List ℕ
  pub sealed :
      encrypt_packet p link.at_client.transport.sending_key link.at_client.transport.sending_counter
        link.at_client.remote_index text
      ≡ ok packet
  pub located : locate s packet later ≡ ok ((link.key, link.peer), (at_current, link.at_server))
  pub window : ReplayWindow
  pub opened :
      Transport.decrypt p link.at_server.transport packet
      ≡ (record link.at_server.transport { replay_window = window }, ok text)
  pub after : Before window (link.at_client.transport.sending_counter + 1)

pub Linked-Carried :
    (p : Primitives)
    → PrimitiveLaws p
    → (c : WireGuardClient) (s : WireGuardServer) (now later : ℕ) (link : Linked c s now later)
      (text : List ℕ)
    → length text < 2 ^ 37
    → Carried p c s now later link text
Linked-Carried p laws c s now later link text short =
    let t = link.at_client.transport in
    let index = link.at_client.remote_index in
    let (packet, sealed, opened) =
      decrypt_packet-encrypt_packet p laws t.sending_key t.sending_counter index text link.limit
        link.index short in
    let header =
      from_bytes-encrypt_packet p t.sending_key t.sending_counter index text packet
        (omega (arith, link.limit)) link.index sealed in
    let fresh = Before-fresh link.at_server.transport.replay_window t.sending_counter link.before in
    record {
      packet = packet;
      sealed = sealed;
      located =
          locate-eq p s packet later index t.sending_counter link.key link.peer at_current
            link.at_server header link.found link.is_session;
      window = (check_and_update link.at_server.transport.replay_window t.sending_counter).0;
      opened =
          decrypt_fresh p laws link.at_server.transport packet text t.sending_counter
            (rw link.same_key opened) fresh.0;
      after = inr (omega (arith, fresh.1));
    }

-- The packet that the client sends for `text`, and what the server does with it.
pub record Delivers (p : Primitives) (c : WireGuardClient) (text : List ℕ) (inp : Inputs)
    (s : WireGuardServer) (from : SocketAddr) (inp' : ServerInputs.Inputs) : Type 0 where
  pub packet : List ℕ
  pub sends : (handle_tun_packet p c text inp).effects ≡ send_udp packet c.peer_endpoint ∷ []
  pub writes : (handle_transport_packet p s packet from inp').1 ≡ write_tun text ∷ []

pub Carried-arrives :
    (p : Primitives) (c : WireGuardClient) (b : ℕ) (bs : List ℕ) (inp : Inputs)
    (s : WireGuardServer) (from : SocketAddr) (inp' : ServerInputs.Inputs)
    (link : Linked c s inp.now inp'.now) (carried : Carried p c s inp.now inp'.now link (b ∷ bs))
    → ((handle_tun_packet p c (b ∷ bs) inp).effects ≡ send_udp carried.packet c.peer_endpoint ∷ [])
      × ((handle_transport_packet p s carried.packet from inp').1 ≡ write_tun (b ∷ bs) ∷ [])
Carried-arrives p c b bs inp s from inp' link carried = (
  handle_tun_packet-effects p c link.at_client (b ∷ bs) carried.packet inp link.is_current
      carried.sealed,
  handle_transport_packet-effects p s carried.packet from inp' link.key link.peer at_current
      link.at_server _ b bs carried.located carried.opened,
)

-- A packet from the client's TUN device reaches the server's as it is: where the sessions are
-- linked, the primitives keep their laws, and the packet is not empty and shorter than 2^37
-- bytes, the client sends one datagram, to its endpoint, and the server, wherever that datagram
-- comes from, writes the packet to its TUN device.
pub handle_tun_packet-Delivers :
    (p : Primitives)
    → PrimitiveLaws p
    → (c : WireGuardClient) (b : ℕ) (bs : List ℕ) (inp : Inputs) (s : WireGuardServer)
      (from : SocketAddr) (inp' : ServerInputs.Inputs)
    → length (b ∷ bs) < 2 ^ 37
    → Linked c s inp.now inp'.now
    → Delivers p c (b ∷ bs) inp s from inp'
handle_tun_packet-Delivers p laws c b bs inp s from inp' short link =
    let carried = Linked-Carried p laws c s inp.now inp'.now link (b ∷ bs) short in
    let (sends, writes) = Carried-arrives p c b bs inp s from inp' link carried in
    record { packet = carried.packet; sends = sends; writes = writes }
