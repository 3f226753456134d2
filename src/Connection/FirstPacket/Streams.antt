-- ===== src/Connection/FirstPacket/Streams.antt =====
-- From the handshake to a stream of packets.
use secure_guard.Base.{◌≤◌, ◌<◌, ◌^◌, List, length, none, some, ◌≡◌, refl, sym, ap, ◌∙◌, inl, arith}
use secure_guard.Net.{SocketAddr}
use secure_guard.Crypto.{Primitives, PrimitiveLaws}
use secure_guard.Transport
use secure_guard.Transport.{reject_after_messages}
use secure_guard.Session
use secure_guard.Session.Manager as SessionManager
use secure_guard.Server.{WireGuardServer}
use secure_guard.Server.Inputs as ServerInputs
use secure_guard.Server.Handshake.{handle_handshake_initiation}
use secure_guard.Server.Handshake.Answered.{entered}
use secure_guard.Client.{WireGuardClient}
use secure_guard.Client.Handshake.{Turn, finish_handshake}
use secure_guard.Connection.{Acquainted, Fits, Connects, perform_handshake-Connects}
use secure_guard.Connection.Stream.{
  Joined, Item, AllTimely, AllDelivered, handle_tun_packet-AllDelivered,
}

-- Where a client and a server have connected, their sessions are joined.
abbrev joined :
    (p : Primitives) (c : WireGuardClient) (t : Turn) (s : WireGuardServer)
    (inp : ServerInputs.Inputs) (from home : SocketAddr) (later : List Turn)
    (x : Connects p c t s inp from home later)
    → inp.sender_index < 2 ^ 32
    → Joined
        (finish_handshake x.waiting x.at_client home t.later)
        (handle_handshake_initiation p s x.datagram from inp).0
unfolding Session.new Transport.new finish_handshake SessionManager.establish_session
joined p c t s inp from home later x small =
    let same : x.at_client.remote_index ≡ x.at_server.local_index =
      x.server_index.1 ∙ sym x.server_index.0 in
    record {
      at_client = entered x.at_client home t.later;
      key = p.derive_public c.config.interface.private_key;
      peer = x.entered.peer;
      at_server = entered x.at_server from inp.now;
      is_current = refl;
      found = rw same x.entered.found;
      is_session = x.entered.is_current ∙ ap some x.entered.fresh;
      own_index = sym same;
      same_key = sym x.sending;
      before = inl refl;
      index = omega (arith, x.server_index.1);
    }

-- A client and a server that are configured for each other connect, and then whatever stream of
-- packets comes to the client's TUN device, each leaves in one datagram, which the server, wherever
-- it comes from, writes to its TUN device as it was. The primitives keep their laws, the indices
-- are below 2^32 and the time stamp has twelve bytes, both datagrams of the handshake arrive, the
-- server's sending does not fail, no packet is empty, each is shorter than 2^37 bytes and comes and
-- arrives, before the next one comes, within three minutes of the reply and of the initiation, and
-- there are no more of them than the message limit.
pub perform_handshake-AllDelivered :
    (p : Primitives) (laws : PrimitiveLaws p) (c : WireGuardClient) (t : Turn) (s : WireGuardServer)
    (inp : ServerInputs.Inputs) (from home : SocketAddr) (later : List Turn) (items : List Item)
    → Acquainted p c s
    → Fits t inp
    → inp.send_error ≡ none
    → length items ≤ reject_after_messages
    → AllTimely t.later inp.now items
    → (x : Connects p c t s inp from home later) × AllDelivered p
        (finish_handshake x.waiting x.at_client home t.later)
        (handle_handshake_initiation p s x.datagram from inp).0
        items
unfolding Session.new Transport.new joined
perform_handshake-AllDelivered p laws c t s inp from home later items meet fits sent room timely =
    let x = perform_handshake-Connects p laws c t s inp meet fits from home later sent in
    (
      x,
      handle_tun_packet-AllDelivered p laws (finish_handshake x.waiting x.at_client home t.later)
          (handle_handshake_initiation p s x.datagram from inp).0 items
          (joined p c t s inp from home later x fits.server_index) (omega arith) timely,
    )
