-- ===== src/Lib.antt =====
-- secure-guard: a WireGuard client and server in Rust (src/ of the repository), as functions on
-- immutable states, and what holds of them.
--
-- The parts, from the bottom up.
--   Error, Net            the error enums (src/error.rs), addresses and networks; in Error.Codes the
--                         exit codes, also those of src/main.rs.
--   Config                src/config/parser.rs: the records, and in Config.Parser the parser. Text is
--                         what it uses of `str`, Numbers its `u16`s.
--   Replay                `ReplayWindow` of src/protocol/transport.rs. The window is two numbers, a
--                         u64 and a u128; the shift is cut off at 128 bits.
--   Messages              src/protocol/messages.rs: the four message types. A child module each for
--                         `HandshakeInitiation`, `HandshakeResponse`, `CookieReply` and
--                         `TransportHeader` (Header). Byte arrays are lists of numbers.
--   Crypto, Crypto.Noise  src/crypto/: the wrappers of BLAKE2s, the AEADs and X25519, and the
--                         symmetric state of the Noise handshake.
--   Handshake             src/protocol/handshake.rs: `InitiatorHandshake`, `ResponderHandshake` and
--                         the checks of MAC1.
--   Transport             the rest of src/protocol/transport.rs: `encrypt_packet`,
--                         `decrypt_packet`, `TransportState`.
--   Cookie                src/protocol/cookie.rs: `CookieState`.
--   Session, Peer         src/protocol/session.rs: `Session` and `SessionManager` (the client's
--                         side), `PeerState` and `PeerManager` (the server's side).
--   Server                src/server.rs: `WireGuardServer` and the handlers of its event loop, which
--                         use all of the above; Server.Startup its creation, alone or by the daemon.
--   Client                src/client.rs: `WireGuardClient`; Client.Handshake its handshakes and
--                         retries, Client.Traffic the handlers, Client.Loop the event loop.
--   Connection            the client and the server together: the handshake, in Delivery and Return one
--                         packet in each direction, in Stream many, in FirstPacket what the handshake
--                         is followed by.
--   Daemon                src/daemon/: the state that the HTTP handlers share and the file that is kept
--                         (Daemon), the sections of the handlers that hold the lock
--                         (Daemon.Sections), and the handlers made of them (Daemon.Routes,
--                         Daemon.Update), of which others may run between two sections.
--                         Daemon.Hosting has the handlers for the peers, together with the server
--                         that takes the updates they send; Daemon.Auth (src/daemon/auth.rs) the
--                         token and the check of the requests.
--   CommandLine           src/main.rs: what the program is started as, and the detection of the mode.
--   Tunnel                src/tunnel/mod.rs: `RouteManager` and its state file; Tunnel.Commands the
--                         commands of the three platforms, and in Tunnel.Commands.Reading what is
--                         read in their output; Tunnel.Stale the clean-up at the start. Tunnel.History
--                         tells from the calls and the answers alone which routes are held.
--
-- How code becomes definitions. A method that changes `self` returns the new state with its
-- result; an error is a value of `Result`, and the changes made before it are in the state that is
-- returned beside it. What code reads from outside (the clock in nanoseconds, random keys and
-- indices, the answers of the socket and the TUN device) is an argument, in Server the record
-- `Inputs`; what it asks of the outside is a list of `Effect`s. A `&mut` to an element is the
-- element with its key or place, written back by `set_peer`, `set_at` or `set_session_at`. A
-- `HashMap` is an association list; its order stands for the iteration order. Numbers are natural
-- numbers, with the wrap-around of `+= 1` and `fetch_add` on a u64 written out. No definition runs
-- on fuel: each recurs on a list or a text. The loops that only the outside ends,
-- `perform_handshake` and `connect_with_retry` of the client, run over a list of the turns that the
-- outside supplies, and answer `none` where they still go on after these.
--
-- Parameters. The crates blake2, hmac, chacha20poly1305 and x25519-dalek are the record
-- `Crypto.Primitives`; what proofs use of them is the record `Crypto.PrimitiveLaws`: an AEAD opens
-- what it sealed and adds 16 bytes, seals every text below 2^37 bytes, X25519 agrees on both sides,
-- and outputs have their lengths. Secrecy is not among them and nothing is said of it.
-- `IpNet::contains` is a parameter of the routing. What the configuration parser calls (base64, the
-- parsers of addresses and networks, the resolver) is the record `Config.Parser.Syntax`, of which
-- nothing is assumed; nor is anything assumed of `Tunnel.Commands.System`, which says what comes of
-- a command, and of `Notation`, which writes addresses and networks.
--
-- Not modelled: of the daemon the status, the notifications and the JSON-RPC handlers of
-- src/daemon/mod.rs, which the router does not reach, and the modes and groups of files; the reads
-- and writes of the TUN device, the JSON form of files, and the calls of Windows for the privilege
-- and the index of an interface; the parser of the arguments and the messages for the user, the
-- debugging programs, logging, and the parts of the repository in other languages.
pub mod Base
pub mod Error
pub mod Net
pub mod Config
pub mod Replay
pub mod Messages
pub mod Crypto
pub mod Handshake
pub mod Transport
pub mod Cookie
pub mod Session
pub mod Peer
pub mod Server
pub mod Client
pub mod CommandLine
pub mod Connection
pub mod Daemon
pub mod Tunnel
pub mod Tests
