-- ===== src/Tests/Configs.antt =====
-- A configuration file.
use secure_guard.Base.{[], ◌∷◌, length, replicate, none, some, false, String, ◌≡◌, refl}
use secure_guard.Base.{bytes_eq}
use secure_guard.Base.Result.{ok, err}
use secure_guard.Error.{parse_error}
use secure_guard.Net.{v4, v4_net}
use secure_guard.Config.{WireGuardConfig}
use secure_guard.Config.Text.{
  is_whitespace, trim_start, trim_end, trim, lines, split, split_once, matches,
}
use secure_guard.Config.Numbers.{digits, parse_u16}
use secure_guard.Config.Parser.{
  Syntax, start, new, build, save_peer, parse_key, parse_endpoint, parse_nets, only_v4, parse_ips,
  interface_value, peer_value, process_pair, process_entry, process_line, process_lines, validate,
  finish, parse,
}
use secure_guard.Config.Parser.Lines.{Fails, parse-Fails}
use secure_guard.Config.Parser.Valid.{IsValid, parse-IsValid}
use secure_guard.CommandLine.{Args, run}
use secure_guard.CommandLine.Detection.{Detects, run-Detects}
use secure_guard.Config.Parser.Sections.{peer_headers, parse-peer_headers}

abbrev pub toy_syntax : Syntax
toy_syntax = record {
  decode_base64 = λ s. some (replicate 32 7);
  parse_net = λ s. some (v4_net 167772160 24);
  parse_ip = λ s. some (v4 134744072);
  parse_socket = λ s. some (record { ip = v4 3232235777; port = 51820 });
  to_socket_addrs = λ s. none;
}

abbrev pub file : String
file =
    "# a client\n[Interface]\nPrivateKey = aa=\nAddress = 10.0.0.2/24,\nMTU= 1420\r\n\n[PEER]\npublickey=bb\nPresharedKey = cc\nEndpoint = vpn:1\nAllowedIPs = 0.0.0.0/0, ::/0\n"

abbrev wrong_file : String
wrong_file = "[Interface]\n\nPrivateKey = aa\nMTU = 65536\n"

abbrev pub config : WireGuardConfig
config = record {
  interface = record {
    private_key = replicate 32 7;
    address = (167772160, 24) ∷ [];
    dns = [];
    listen_port = none;
    mtu = some 1420;
    preshared_key = some (replicate 32 7);
  };
  peers =
      record {
        public_key = replicate 32 7;
        preshared_key = some (replicate 32 7);
        endpoint = some (record { ip = v4 3232235777; port = 51820 });
        allowed_ips = v4_net 167772160 24 ∷ v4_net 167772160 24 ∷ [];
        persistent_keepalive = none;
      }
      ∷ [];
}

pub parsed : parse toy_syntax file ≡ ok config
unfolding parse process_lines process_line process_entry process_pair interface_value peer_value
    parse_key parse_endpoint parse_nets only_v4 parse_ips save_peer build new finish validate
    is_whitespace trim_start trim_end trim lines split split_once matches digits parse_u16 bytes_eq
parsed = refl

refused : parse toy_syntax wrong_file ≡ err (parse_error 4 "Invalid MTU: 65536")
unfolding parse process_lines process_line process_entry process_pair interface_value peer_value
    parse_key parse_endpoint parse_nets only_v4 parse_ips save_peer build new finish validate
    is_whitespace trim_start trim_end trim lines split split_once matches digits parse_u16 bytes_eq
refused = refl

parse-Fails_example : Fails toy_syntax start 1 (lines wrong_file) 4 "Invalid MTU: 65536"
parse-Fails_example = parse-Fails toy_syntax wrong_file 4 "Invalid MTU: 65536" refused

parse-IsValid_example : IsValid config
parse-IsValid_example = parse-IsValid toy_syntax file config parsed

parse-peer_headers_example : length config.peers ≡ peer_headers (lines file)
parse-peer_headers_example = parse-peer_headers toy_syntax file config parsed

abbrev no_flags : Args
no_flags = record {
  server = false;
  client = false;
  daemon = false;
  http_port = none;
  token_path = none;
}

run-Detects_example : Detects config (run toy_syntax no_flags "client.conf" (ok file))
run-Detects_example =
    run-Detects toy_syntax no_flags "client.conf" file config refl refl refl parsed
