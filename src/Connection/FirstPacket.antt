-- ===== src/Connection/FirstPacket.antt =====
-- From the handshake to the first packet.
pub mod Exchange
pub mod Streams
use secure_guard.Base.{
  ℕ, ◌+◌, ◌<◌, ◌^◌, false, List, ◌∷◌, length, none, some, ◌≡◌, refl, sym, ap, ◌∙◌, inl, arith,
}
use secure_guard.Net.{SocketAddr}
use secure_guard.Crypto.{Primitives, PrimitiveLaws}
use secure_guard.Handshake.{HandshakeResult}
use secure_guard.Transport
use secure_guard.Session.{Session, from_secs, is_expired, age}
use secure_guard.Session
use secure_guard.Session.Slots.{at_current}
use secure_guard.Session.Slots.Found.{find_in_current}
use secure_guard.Session.Manager.{current_mut}
use secure_guard.Session.Manager as SessionManager
use secure_guard.Peer.{PeerState, find_session_by_index}
use secure_guard.Server.{WireGuardServer}
use secure_guard.Server.Inputs as ServerInputs
use secure_guard.Server.Handshake.{handle_handshake_initiation}
use secure_guard.Server.Handshake.Answered.{entered}
use secure_guard.Client.{WireGuardClient}
use secure_guard.Client.Handshake.{Turn, finish_handshake}
use secure_guard.Client.Traffic.{Inputs}
use secure_guard.Connection.{Acquainted, Fits, Connects, perform_handshake-Connects}
use secure_guard.Connection.Delivery.{Linked, Delivers, handle_tun_packet-Delivers}

pub new_unexpired :
    (result : HandshakeResult) (from : SocketAddr) (made now : ℕ)
    → now < made + from_secs 180
    → is_expired (entered result from made) now ≡ false
unfolding is_expired age Session.new
new_unexpired result from made now soon = ground arith

current_mut-finish_handshake :
    (c : WireGuardClient) (result : HandshakeResult) (home : SocketAddr) (made now : ℕ)
    → now < made + from_secs 180
    → current_mut (finish_handshake c result home made).sessions now
      ≡ some (entered result home made)
unfolding current_mut finish_handshake SessionManager.establish_session
current_mut-finish_handshake c result home made now soon =
    rw (new_unexpired result home made now soon) refl

find_session_by_index-entered :
    (peer : PeerState) (result : HandshakeResult) (from : SocketAddr) (made now : ℕ)
    → peer.session ≡ some (entered result from made)
    → now < made + from_secs 180
    → find_session_by_index peer result.local_index now
      ≡ some (at_current, entered result from made)
unfolding find_session_by_index Session.new
find_session_by_index-entered peer result from made now e soon = rw e (
    find_in_current (entered result from made) peer.previous_session now
      (new_unexpired result from made now soon))

-- Where a client and a server have connected, their sessions are linked while they last.
pub Connects-Linked :
    (p : Primitives) (c : WireGuardClient) (t : Turn) (s : WireGuardServer)
    (inp : ServerInputs.Inputs) (from home : SocketAddr) (later : List Turn) (now then_now : ℕ)
    (x : Connects p c t s inp from home later)
    → inp.sender_index < 2 ^ 32
    → now < t.later + from_secs 180
    → then_now < inp.now + from_secs 180
    → Linked
        (finish_handshake x.waiting x.at_client home t.later)
        (handle_handshake_initiation p s x.datagram from inp).0
        now
        then_now
unfolding Session.new Transport.new
Connects-Linked p c t s inp from home later now then_now x small soon soon' =
    let at_server = x.entered in
    let same : x.at_client.remote_index ≡ x.at_server.local_index =
      x.server_index.1 ∙ sym x.server_index.0 in
    let held : at_server.peer.session ≡ some (entered x.at_server from inp.now) =
      at_server.is_current ∙ ap some at_server.fresh in
    record {
      at_client = entered x.at_client home t.later;
      key = p.derive_public c.config.interface.private_key;
      peer = at_server.peer;
      at_server = entered x.at_server from inp.now;
      is_current = current_mut-finish_handshake x.waiting x.at_client home t.later now soon;
      found = rw same at_server.found;
      is_session = rw same (
          find_session_by_index-entered at_server.peer x.at_server from inp.now then_now held
            soon');
      same_key = sym x.sending;
      before = inl refl;
      limit = omega arith;
      index = omega (arith, x.server_index.1);
    }

-- From nothing to the first packet: a client and a server that are configured for each other
-- connect, and a packet that comes to the client's TUN device within three minutes of the reply
-- leaves in one datagram, which the server, if it arrives within three minutes of the
-- initiation, writes to its TUN device as it was. The primitives keep their laws, both datagrams
-- of the handshake arrive, the server's sending does not fail, and the packet is not empty and
-- shorter than 2^37 bytes.
pub perform_handshake-Delivers :
    (p : Primitives) (laws : PrimitiveLaws p) (c : WireGuardClient) (t : Turn) (s : WireGuardServer)
    (inp : ServerInputs.Inputs) (from home : SocketAddr) (later : List Turn) (b : ℕ) (bs : List ℕ)
    (at_tun : Inputs) (from' : SocketAddr) (at_udp : ServerInputs.Inputs)
    → Acquainted p c s
    → Fits t inp
    → inp.send_error ≡ none
    → length (b ∷ bs) < 2 ^ 37
    → at_tun.now < t.later + from_secs 180
    → at_udp.now < inp.now + from_secs 180
    → (x : Connects p c t s inp from home later) × Delivers p
        (finish_handshake x.waiting x.at_client home t.later)
        (b ∷ bs)
        at_tun
        (handle_handshake_initiation p s x.datagram from inp).0
        from'
        at_udp
perform_handshake-Delivers p laws c t s inp from home later b bs at_tun from' at_udp meet fits sent
      short soon soon' =
    let x = perform_handshake-Connects p laws c t s inp meet fits from home later sent in
    (
      x,
      handle_tun_packet-Delivers p laws (finish_handshake x.waiting x.at_client home t.later) b bs
          at_tun (handle_handshake_initiation p s x.datagram from inp).0 from' at_udp short
          (Connects-Linked p c t s inp from home later at_tun.now at_udp.now x fits.server_index
            soon soon'),
    )
