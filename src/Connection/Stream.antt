-- ===== src/Connection/Stream.antt =====
-- A stream of packets from the client's TUN device to the server's.
use secure_guard.Base.{
  ℕ, ◌+◌, ◌<◌, ◌≤◌, ◌^◌, List, [], ◌∷◌, length, false, some, ◌≡◌, refl, sym, ap, ◌∙◌, inl, inr,
  Option-cases, arith,
}
use secure_guard.Base.Words.{wrap_u64}
use secure_guard.Base.Result.{ok}
use secure_guard.Base.HashMap.{key_eq}
use secure_guard.Net.{SocketAddr}
use secure_guard.Crypto.{Primitives, PrimitiveLaws}
use secure_guard.Replay.Order.{Before}
use secure_guard.Transport.{reject_after_messages, encrypt_packet}
use secure_guard.Transport
use secure_guard.Session.{Session, from_secs, is_expired, age, mark_sent, mark_received}
use secure_guard.Session.Slots.{at_current}
use secure_guard.Session.Slots.Found.{find_in_current}
use secure_guard.Session.Manager.{current_mut}
use secure_guard.Session.Manager as SessionManager
use secure_guard.Peer.{PeerState, find_session_by_index}
use secure_guard.Peer.Manager
use secure_guard.Peer.Manager.Index.{find_by_index-set_peer}
use secure_guard.Server.{WireGuardServer, active_peers}
use secure_guard.Server.Inputs as ServerInputs
use secure_guard.Server.Traffic.{handle_transport_packet}
use secure_guard.Server.Traffic.Heard.{heard_session, heard-kept, handle_transport_packet-peers}
use secure_guard.Client.{WireGuardClient}
use secure_guard.Client.Traffic.{Inputs, send_sealed, handle_tun_packet}
use secure_guard.Connection.Delivery.{
  used_session, Linked, Linked-Carried, Carried, Carried-arrives, Delivers,
}

-- The client's current session and the server's current session for it, while they last: the
-- server finds its own by the index that the client writes, opens with the client's key, and has
-- let through no counter from the client's on.
pub record Joined (c : WireGuardClient) (s : WireGuardServer) : Type 0 where
  pub at_client : Session
  pub key : List ℕ
  pub peer : PeerState
  pub at_server : Session
  pub is_current : c.sessions.current_session ≡ some at_client
  pub found : Manager.find_by_index (active_peers s) at_client.remote_index ≡ some (key, peer)
  pub is_session : peer.session ≡ some at_server
  pub own_index : at_server.local_index ≡ at_client.remote_index
  pub same_key : at_server.transport.receiving_key ≡ at_client.transport.sending_key
  pub before : Before at_server.transport.replay_window at_client.transport.sending_counter
  pub index : at_client.remote_index < 2 ^ 32

live :
    (session : Session) (now : ℕ)
    → now < session.created_at + from_secs 180
    → is_expired session now ≡ false
unfolding is_expired age
live session now soon = ground arith

current_mut-live :
    (c : WireGuardClient) (session : Session) (now : ℕ)
    → c.sessions.current_session ≡ some session
    → now < session.created_at + from_secs 180
    → current_mut c.sessions now ≡ some session
unfolding current_mut
current_mut-live c session now held soon = rw (held, live session now soon) refl

find_session_by_index-live :
    (peer : PeerState) (session : Session) (now : ℕ)
    → peer.session ≡ some session
    → now < session.created_at + from_secs 180
    → find_session_by_index peer session.local_index now ≡ some (at_current, session)
unfolding find_session_by_index
find_session_by_index-live peer session now held soon =
    rw held (find_in_current session peer.previous_session now (live session now soon))

abbrev linked :
    (c : WireGuardClient) (s : WireGuardServer) (j : Joined c s) (now later : ℕ)
    → j.at_client.transport.sending_counter < reject_after_messages
    → now < j.at_client.created_at + from_secs 180
    → later < j.at_server.created_at + from_secs 180
    → Linked c s now later
linked c s j now later limit soon soon' = record {
  at_client = j.at_client;
  key = j.key;
  peer = j.peer;
  at_server = j.at_server;
  is_current = current_mut-live c j.at_client now j.is_current soon;
  found = j.found;
  is_session =
      ap (λ i. find_session_by_index j.peer i later) (sym j.own_index)
      ∙ find_session_by_index-live j.peer j.at_server later j.is_session soon';
  same_key = j.same_key;
  before = j.before;
  limit = limit;
  index = j.index;
}

module _ (p : Primitives) where
  -- The client's session after a packet was sent, or sending it failed.
  current_session-handle_tun_packet :
      (c : WireGuardClient) (session : Session) (text packet : List ℕ) (inp : Inputs)
      → current_mut c.sessions inp.now ≡ some session
      → encrypt_packet p session.transport.sending_key session.transport.sending_counter
          session.remote_index text
        ≡ ok packet
      → (handle_tun_packet p c text inp).client.sessions.current_session
        ≡ some (used_session session inp.now)
  unfolding handle_tun_packet send_sealed Transport.encrypt SessionManager.set_current
  current_session-handle_tun_packet c session text packet inp current sealed =
      elim (Option-cases inp.send_error) [
        | inl e ↦ rw (current, sealed, e, handle_tun_packet, send_sealed) refl
        | inr (reason, e) ↦ rw (current, sealed, e, handle_tun_packet, send_sealed) refl
      ]

-- What the outside brings about a packet: its bytes, of which there is a first, what the client's
-- call takes in, where the datagram comes from, and what the server's call takes in.
pub record Item : Type 0 where
  pub first : ℕ
  pub rest : List ℕ
  pub at_tun : Inputs
  pub from : SocketAddr
  pub at_udp : ServerInputs.Inputs

abbrev pub text : Item → List ℕ
text i = i.first ∷ i.rest

-- The packets are short enough for the cipher, and come within three minutes of the times when
-- the sessions were made.
abbrev pub AllTimely : ℕ → ℕ → List Item → Type 0
AllTimely made made' [] = Unit {0}
AllTimely made made' (i ∷ is) =
    (length (text i) < 2 ^ 37)
    × (i.at_tun.now < made + from_secs 180)
    × (i.at_udp.now < made' + from_secs 180)
    × AllTimely made made' is

-- Each packet is delivered, by the client and the server as the packets before it left them.
abbrev pub AllDelivered : Primitives → WireGuardClient → WireGuardServer → List Item → Type 0
AllDelivered p c s [] = Unit {0}
AllDelivered p c s (i ∷ is) =
    (d : Delivers p c (text i) i.at_tun s i.from i.at_udp) × AllDelivered p
      (handle_tun_packet p c (text i) i.at_tun).client
      (handle_transport_packet p s d.packet i.from i.at_udp).0 is

module _ (p : Primitives) (laws : PrimitiveLaws p) where
  -- The sessions stay joined.
  Carried-Joined :
      (c : WireGuardClient) (s : WireGuardServer) (j : Joined c s) (i : Item)
      (limit : j.at_client.transport.sending_counter < reject_after_messages)
      (soon : i.at_tun.now < j.at_client.created_at + from_secs 180)
      (soon' : i.at_udp.now < j.at_server.created_at + from_secs 180)
      (carried : Carried p c s i.at_tun.now i.at_udp.now
        (linked c s j i.at_tun.now i.at_udp.now limit soon soon')
        (text i))
      → (k : Joined
          (handle_tun_packet p c (text i) i.at_tun).client
          (handle_transport_packet p s carried.packet i.from i.at_udp).0)
        × (k.at_client ≡ used_session j.at_client i.at_tun.now)
        × (k.at_server.created_at ≡ j.at_server.created_at)
  unfolding mark_sent mark_received
  Carried-Joined c s j i limit soon soon' carried =
      let transport = record j.at_server.transport { replay_window = carried.window } in
      let kept =
        heard-kept j.peer j.at_server transport (length carried.packet) i.at_udp.now i.from in
      let peers =
        handle_transport_packet-peers p s carried.packet i.from i.at_udp j.key j.peer j.at_server
          transport i.first i.rest carried.located carried.opened in
      let wrapped : wrap_u64 (j.at_client.transport.sending_counter + 1)
          ≡ j.at_client.transport.sending_counter + 1 =
        omega (arith, limit) in
      (
        record {
          at_client = used_session j.at_client i.at_tun.now;
          key = j.key;
          peer = _;
          at_server = heard_session j.at_server transport i.at_udp.now;
          is_current =
              current_session-handle_tun_packet p c j.at_client (text i) carried.packet i.at_tun
                (current_mut-live c j.at_client i.at_tun.now j.is_current soon) carried.sealed;
          found =
              ap (λ m. Manager.find_by_index m j.at_client.remote_index) peers
              ∙ find_by_index-set_peer (active_peers s) j.at_client.remote_index j.key j.peer _
                  j.found;
          is_session = kept.1;
          own_index = j.own_index;
          same_key = j.same_key;
          before = rw wrapped carried.after;
          index = j.index;
        },
        refl,
        refl,
      )

  -- Whatever stream of packets comes to the client's TUN device, each leaves in one datagram and is
  -- written to the server's TUN device as it was, wherever the datagrams come from: where the
  -- sessions are joined, the primitives keep their laws, each packet is shorter than 2^37 bytes and
  -- is delivered, before the next one comes, within three minutes of the times when the sessions
  -- were made, and the message limit is not passed.
  pub handle_tun_packet-AllDelivered :
      (c : WireGuardClient) (s : WireGuardServer) (items : List Item) (j : Joined c s)
      → j.at_client.transport.sending_counter + length items ≤ reject_after_messages
      → AllTimely j.at_client.created_at j.at_server.created_at items
      → AllDelivered p c s items
  unfolding mark_sent
  handle_tun_packet-AllDelivered c s [] j room timely = tt
  handle_tun_packet-AllDelivered c s (i ∷ is) j room (short, soon, soon', timely) =
      let limit : j.at_client.transport.sending_counter < reject_after_messages = omega arith in
      let link = linked c s j i.at_tun.now i.at_udp.now limit soon soon' in
      let carried = Linked-Carried p laws c s i.at_tun.now i.at_udp.now link (text i) short in
      let (sends, writes) =
        Carried-arrives p c i.first i.rest i.at_tun s i.from i.at_udp link carried in
      let (k, same, made) = Carried-Joined c s j i limit soon soon' carried in
      (
        record { packet = carried.packet; sends = sends; writes = writes },
        handle_tun_packet-AllDelivered (handle_tun_packet p c (text i) i.at_tun).client
            (handle_transport_packet p s carried.packet i.from i.at_udp).0 is k
            (rw same (omega arith)) (rw (same, made) timely),
      )
