-- ===== src/Config/Parser.antt =====
-- src/config/parser.rs: `WireGuardConfig::parse`, line by line. Text is a `String`, a list of
-- characters.
pub mod Outcomes
pub mod Lines
pub mod Valid
pub mod Sections
use Prim.Native.String.{◌++◌}
use secure_guard.Base.{
  ℕ, ◌+◌, Bool, true, false, ◌||◌, ◌==◌, if◌then◌else◌, List, length, replicate, Option, none, some,
  String, bytes_eq,
}
use secure_guard.Base as Base
use secure_guard.Base.Result.{Result, ok, err, ◌>>=◌, ◌>>◌, ok_or, fail_if}
use secure_guard.Error.{
  ConfigError, file_not_found, parse_error, invalid_key, invalid_address, missing_field,
  invalid_cidr, io,
}
use secure_guard.Net.{IpAddr, SocketAddr, IpNet, v4_net, v6_net}
use secure_guard.Config.{InterfaceConfig, PeerConfig, WireGuardConfig}
use secure_guard.Config.Text.{
  is_empty, trim, starts_with, lines, split, split_once, eq_ignore_ascii_case, is_key,
}
use secure_guard.Config.Numbers.{parse_u16}
use secure_guard.Crypto.{Primitives, public_key}

-- What the parser calls outside: `BASE64.decode`, the parsers of ipnet and `std::net`, and
-- `to_socket_addrs`, which asks the resolver.
pub record Syntax : Type 0 where
  pub decode_base64 : String → Option (List ℕ)
  pub parse_net : String → Option IpNet
  pub parse_ip : String → Option IpAddr
  pub parse_socket : String → Option SocketAddr
  pub to_socket_addrs : String → Option (List SocketAddr)

pub data Section : Type 0 where
  interface peer : Section

pub record PeerBuilder : Type 0 where
  pub public_key : Option (List ℕ)
  pub preshared_key : Option (List ℕ)
  pub endpoint : Option SocketAddr
  pub allowed_ips : List IpNet
  pub persistent_keepalive : Option ℕ

unfoldable pub new : PeerBuilder
new = record {
  public_key = none;
  preshared_key = none;
  endpoint = none;
  allowed_ips = Base.[];
  persistent_keepalive = none;
}

unfoldable pub build : PeerBuilder → Result PeerConfig ConfigError
build b = do
  key ← ok_or b.public_key (missing_field "PublicKey in [Peer]")
  ok (record {
    public_key = key;
    preshared_key = b.preshared_key;
    endpoint = b.endpoint;
    allowed_ips = b.allowed_ips;
    persistent_keepalive = b.persistent_keepalive;
  })

-- The variables of the loop.
pub record State : Type 0 where
  pub interface : Option InterfaceConfig
  pub peers : List PeerConfig
  pub current_section : Option Section
  pub current_peer : Option PeerBuilder

abbrev pub start : State
start = record { interface = none; peers = Base.[]; current_section = none; current_peer = none }

abbrev pub empty_interface : InterfaceConfig
empty_interface = record {
  private_key = replicate 32 0;
  address = Base.[];
  dns = Base.[];
  listen_port = none;
  mtu = none;
  preshared_key = none;
}

-- `if let Some(peer) = current_peer.take() { peers.push(peer.build()?) }`.
unfoldable pub save_peer : State → Result State ConfigError
save_peer s = elim s.current_peer [
  | none ↦ ok s
  | some builder ↦ do
    built ← build builder
    ok (record s { peers = Base.◌++◌ s.peers (Base.◌∷◌ built Base.[]); current_peer = none })
]

abbrev pub first_addr : String → List SocketAddr → Result SocketAddr ConfigError
first_addr value Base.[] = err (invalid_address value)
first_addr value (Base.◌∷◌ addr addrs) = ok addr

-- Of the networks in `Address` those of IPv6 are dropped.
unfoldable pub only_v4 : List IpNet → List (ℕ × ℕ)
only_v4 Base.[] = Base.[]
only_v4 (Base.◌∷◌ (v4_net a n) nets) = Base.◌∷◌ (a, n) (only_v4 nets)
only_v4 (Base.◌∷◌ (v6_net a n) nets) = only_v4 nets

-- `peers.first()` gives its pre-shared key to the interface.
abbrev pub copy_psk : InterfaceConfig → List PeerConfig → InterfaceConfig
copy_psk iface Base.[] = iface
copy_psk iface (Base.◌∷◌ first others) = record iface { preshared_key = first.preshared_key }

-- Blank lines and comments; the line is trimmed.
abbrev pub is_skipped : String → Bool
is_skipped line = is_empty line || starts_with 35 line

-- What is made of the state after the loop.
unfoldable pub validate : State → Result WireGuardConfig ConfigError
validate s = do
  iface ← ok_or s.interface (missing_field "[Interface] section")
  fail_if (bytes_eq iface.private_key (replicate 32 0)) (missing_field "PrivateKey")
  ok (record { interface = copy_psk iface s.peers; peers = s.peers })

unfoldable pub finish : State → Result WireGuardConfig ConfigError
finish s = save_peer s >>= validate

module _ (x : Syntax) where
  unfoldable pub parse_key : String → String → Result (List ℕ) ConfigError
  parse_key value field_name = do
    bytes ← ok_or (x.decode_base64 value) (invalid_key field_name)
    if length bytes == 32 then ok bytes else err (invalid_key field_name)

  unfoldable pub parse_endpoint : String → Result SocketAddr ConfigError
  parse_endpoint value = elim (x.parse_socket value) [
    | some addr ↦ ok addr
    | none ↦ ok_or (x.to_socket_addrs value) (invalid_address value) >>= first_addr value
  ]

  -- The pieces of `AllowedIPs`, of which empty ones are left out.
  unfoldable pub parse_nets : List String → Result (List IpNet) ConfigError
  parse_nets Base.[] = ok Base.[]
  parse_nets (Base.◌∷◌ piece pieces) =
      let rest = parse_nets pieces in
      if is_empty (trim piece) then rest else (do
        net ← ok_or (x.parse_net (trim piece)) (invalid_cidr (trim piece))
        nets ← rest
        ok (Base.◌∷◌ net nets))

  -- The pieces of `DNS`, where an empty one is an error.
  unfoldable pub parse_ips : List String → Result (List IpAddr) ConfigError
  parse_ips Base.[] = ok Base.[]
  parse_ips (Base.◌∷◌ piece pieces) = do
    ip ← ok_or (x.parse_ip (trim piece)) (invalid_address (trim piece))
    ips ← parse_ips pieces
    ok (Base.◌∷◌ ip ips)

  abbrev pub u16_value : ℕ → String → String → Result ℕ ConfigError
  u16_value line_num what value = ok_or (parse_u16 value) (parse_error line_num (what ++ value))

  unfoldable pub interface_value :
      InterfaceConfig → ℕ → String → String → Result InterfaceConfig ConfigError
  interface_value iface line_num key value =
      if is_key key "privatekey"
      then (do bytes ← parse_key value "PrivateKey"; ok (record iface { private_key = bytes }))
      else if is_key key "address"
      then (do
        nets ← parse_nets (split 44 value)
        ok (record iface { address = Base.◌++◌ iface.address (only_v4 nets) }))
      else if is_key key "dns"
      then (do
        ips ← parse_ips (split 44 value)
        ok (record iface { dns = Base.◌++◌ iface.dns ips }))
      else if is_key key "listenport"
      then (do
        port ← u16_value line_num "Invalid ListenPort: " value
        ok (record iface { listen_port = some port }))
      else if is_key key "mtu"
      then (do mtu ← u16_value line_num "Invalid MTU: " value; ok (record iface { mtu = some mtu }))
      else ok iface

  unfoldable pub peer_value : PeerBuilder → ℕ → String → String → Result PeerBuilder ConfigError
  peer_value b line_num key value =
      if is_key key "publickey"
      then (do bytes ← parse_key value "PublicKey"; ok (record b { public_key = some bytes }))
      else if is_key key "presharedkey"
      then (do bytes ← parse_key value "PresharedKey"; ok (record b { preshared_key = some bytes }))
      else if is_key key "endpoint"
      then (do addr ← parse_endpoint value; ok (record b { endpoint = some addr }))
      else if is_key key "allowedips"
      then (do
        nets ← parse_nets (split 44 value)
        ok (record b { allowed_ips = Base.◌++◌ b.allowed_ips nets }))
      else if is_key key "persistentkeepalive"
      then (do
        secs ← u16_value line_num "Invalid PersistentKeepalive: " value
        ok (record b { persistent_keepalive = some secs }))
      else ok b

  -- A pair of key and value, in the section that is open.
  unfoldable pub process_pair : State → ℕ → String → String → Result State ConfigError
  process_pair s line_num key value = elim s.current_section [
    | none ↦ err (parse_error line_num "Configuration value outside of any section")
    | some section ↦ elim section [
      | interface ↦ do
        iface ←
            interface_value (elim s.interface [ none ↦ empty_interface | some i ↦ i ]) line_num key
              value
        ok (record s { interface = some iface })
      | peer ↦ do
        builder ← ok_or s.current_peer (parse_error line_num "Peer value outside of [Peer] section")
        builder' ← peer_value builder line_num key value
        ok (record s { current_peer = some builder' })
    ]
  ]

  -- A line that is no header.
  unfoldable pub process_entry : State → ℕ → String → Result State ConfigError
  process_entry s line_num line = elim (split_once 61 line) [
    | none ↦ err (parse_error line_num ("Expected 'key = value', got: " ++ line))
    | some (key, value) ↦ process_pair s line_num (trim key) (trim value)
  ]

  -- One turn of the loop, on the trimmed line.
  unfoldable pub process_line : State → ℕ → String → Result State ConfigError
  process_line s line_num line =
      if is_skipped line
      then ok s
      else if eq_ignore_ascii_case line "[interface]"
      then (do s' ← save_peer s; ok (record s' { current_section = some interface }))
      else if eq_ignore_ascii_case line "[peer]"
      then (do
        s' ← save_peer s
        ok (record s' { current_section = some peer; current_peer = some new }))
      else process_entry s line_num line

  -- The loop, from a line number on.
  unfoldable pub process_lines : State → ℕ → List String → Result State ConfigError
  process_lines s line_num Base.[] = ok s
  process_lines s line_num (Base.◌∷◌ line rest) = do
    s' ← process_line s line_num (trim line)
    process_lines s' (line_num + 1) rest

  unfoldable pub parse : String → Result WireGuardConfig ConfigError
  parse content = process_lines start 1 (lines content) >>= finish

  unfoldable pub from_string : String → Result WireGuardConfig ConfigError
  from_string content = parse content

-- What `read_to_string` gives.
pub data ReadError : Type 0 where
  not_found : ReadError
  other : String → ReadError

unfoldable pub from_file :
    Syntax → String → Result String ReadError → Result WireGuardConfig ConfigError
from_file x path (ok content) = parse x content
from_file x path (err not_found) = err (file_not_found path)
from_file x path (err (other reason)) = err (io reason)

unfoldable pub config_public_key : Primitives → WireGuardConfig → List ℕ
config_public_key p c = public_key p c.interface.private_key
