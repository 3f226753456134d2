-- ===== src/Tests/Servers.antt =====
-- A server and its rounds.
use secure_guard.Base.{
  ℕ, List, [], ◌∷◌, ◌++◌, replicate, none, Bool, true, ◌≡◌, refl, slice, bytes_eq,
}
use secure_guard.Base.Words.{to_le_bytes, from_le_bytes}
use secure_guard.Base.Result.{ok}
use secure_guard.Base.HashMap.{key_eq, nat_eq, get, insert}
use secure_guard.Net.{SocketAddr, IpAddr, IpNet, v4}
use secure_guard.Crypto
use secure_guard.Crypto.Noise
use secure_guard.Messages.{get_message_type, try_from}
use secure_guard.Messages.Initiation
use secure_guard.Messages.Response
use secure_guard.Messages.Response.{HandshakeResponse}
use secure_guard.Handshake
use secure_guard.Handshake.{HandshakeResult}
use secure_guard.Handshake.Responder
use secure_guard.Peer.Manager
use secure_guard.Peer.Manager.{PeerManager}
use secure_guard.Server.{WireGuardServer, active_peers}
use secure_guard.Server.Inputs.{Inputs}
use secure_guard.Peer.Manager.Registered.{new-IsConsistent}
use secure_guard.Server.Loop.{udp_packet, step}
use secure_guard.Server.Invariant.{IsRegistered, add_peer-IsRegistered}
use secure_guard.Server.Invariant.Steps.{Steady}
use secure_guard.Server.Invariant.Rounds.{step-Steady}
use secure_guard.Server.Handshake.Answered.{Entered, handle_handshake_initiation-Entered}
use secure_guard.Server.Handshake.{prepare_response, handle_handshake_initiation}
use secure_guard.Server.Handshake.Replayed.{Answers, handle_handshake_initiation_twice}
use secure_guard.Tests.Toy.{toy, toy_laws}

abbrev pub client_key : List ℕ
client_key = replicate 32 1

abbrev pub server_key : List ℕ
server_key = replicate 32 2

abbrev known : PeerManager
known = Manager.add_peer Manager.new client_key none []

abbrev pub server : WireGuardServer
server = record {
  static_private = server_key;
  static_public = server_key;
  peers = known;
  shared_peers = none;
  has_event_channel = true;
  traffic_stats = none;
}

abbrev pub home : SocketAddr
home = record { ip = v4 3232235777; port = 51820 }

abbrev packet : List ℕ
packet =
    1 ∷ 0 ∷ 0 ∷ 0 ∷ 7 ∷ 0 ∷ 0 ∷ 0 ∷ []
    ++ (replicate 32 4
        ++ (client_key
            ++ (replicate 16 0 ++ (replicate 28 6 ++ (replicate 16 110 ++ replicate 16 0)))))

abbrev pub inputs : Inputs
inputs = record {
  now = 5;
  sender_index = 12;
  secret = replicate 32 5;
  send_error = none;
  write_error = none;
}

abbrev response : HandshakeResponse
response = record {
  sender_index = 12;
  receiver_index = 7;
  ephemeral_public = replicate 32 5;
  encrypted_nothing = replicate 16 1;
  mac1 = replicate 16 111;
  mac2 = replicate 16 0;
}

abbrev result : HandshakeResult
result = record {
  local_index = 12;
  remote_index = 7;
  sending_key = 1 ∷ replicate 31 0;
  receiving_key = 1 ∷ replicate 31 0;
}

is_prepared : prepare_response toy server packet inputs ≡ ok (client_key, response, result)
unfolding prepare_response Manager.get_peer Manager.add_peer Manager.new get insert bytes_eq
    Initiation.from_bytes get_message_type try_from to_le_bytes from_le_bytes slice
    Handshake.verify_initiation_mac1 Noise.mac1_key Crypto.mac Crypto.hash Crypto.hash_two
    Crypto.hmac Crypto.kdf1 Crypto.kdf2 Crypto.kdf3 Crypto.dh Crypto.public_key
    Crypto.generate_keypair Crypto.encrypt Crypto.decrypt Crypto.nonce_bytes Noise.initial_chain_key
    Noise.initial_hash Noise.new_responder Noise.mix_hash Noise.mix_key Noise.mix_key_and_hash
    Noise.encrypt_and_hash Noise.decrypt_and_hash Noise.derive_responder Responder.new
    Responder.process_initiation Responder.create_response Responder.add_macs Responder.add_mac2
    Response.new Response.bytes_for_mac1_owned Response.to_bytes
is_prepared = refl

handle_handshake_initiation-Entered_example :
    ((handle_handshake_initiation toy server packet home inputs).2 ≡ ok tt)
    × Entered
        (active_peers (handle_handshake_initiation toy server packet home inputs).0)
        client_key
        result
        home
        inputs.now
handle_handshake_initiation-Entered_example =
    handle_handshake_initiation-Entered toy server packet home inputs client_key response result
      is_prepared refl

abbrev pub elsewhere : SocketAddr
elsewhere = record { ip = v4 167772161; port = 4000 }

abbrev inputs_later : Inputs
inputs_later = record inputs { now = 20; sender_index = 13; secret = replicate 32 9 }

handle_handshake_initiation_twice_example :
    Answers toy server packet home inputs client_key
    × Answers toy
        (handle_handshake_initiation toy server packet home inputs).0
        packet
        elsewhere
        inputs_later
        client_key
handle_handshake_initiation_twice_example =
    handle_handshake_initiation_twice toy toy_laws server packet home elsewhere inputs inputs_later
      client_key response result is_prepared refl refl

nobody : get client_key (Manager.new).peers ≡ none
unfolding Manager.new get
nobody = refl

empty-IsRegistered : IsRegistered Manager.new
unfolding Manager.new
empty-IsRegistered = record { consistent = new-IsConsistent; unique = tt }

server-Steady : Steady server
server-Steady = add_peer-IsRegistered Manager.new client_key none [] nobody empty-IsRegistered

abbrev contains : IpNet → IpAddr → Bool
contains net ip = true

step-Steady_example : Steady (step toy contains server (udp_packet packet home) inputs).0
step-Steady_example =
    step-Steady toy contains server (udp_packet packet home) inputs tt server-Steady
