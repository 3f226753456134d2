-- ===== src/Tunnel/Stale.antt =====
-- src/tunnel/mod.rs: the clean-up at the start, from the state file of a session that crashed.
pub mod Complete
use Prim.Native.String.{◌++◌ as append}
use secure_guard.Base.{
  ℕ, Bool, true, false, not, if◌then◌else◌, List, [], ◌∷◌, ◌++◌, Option, none, some, String,
}
use secure_guard.Config.Text.{trim, is_empty}
use secure_guard.Tunnel.{RouteState}
use secure_guard.Tunnel.Commands.{
  Platform, macos, linux, windows, Command, Ran, not_run, ran, System, Notation,
}
use secure_guard.Tunnel.Commands.Reading.{words, any_word}

abbrev command : String → List String → Command
command program args = record { program = program; args = args }

abbrev pub interface_query : Platform → String → Command
interface_query macos interface = command "ifconfig" ("-l" ∷ [])
interface_query linux interface = command "ip" ("link" ∷ "show" ∷ interface ∷ [])
interface_query windows interface = command "powershell" (
    "-Command"
    ∷ append "Get-NetAdapter -Name '" (append interface "' -ErrorAction SilentlyContinue")
    ∷ [])

unfoldable pub interface_exists : System → Platform → String → Bool
interface_exists sys platform interface = elim (sys (interface_query platform interface)) [
  | not_run why ↦ false
  | ran success status out ↦ elim platform [
    | macos ↦ any_word interface (words out)
    | linux ↦ success
    | windows ↦ not (is_empty (trim out))
  ]
]

-- `&format!("IF {}", idx)`, if there is an index.
abbrev if_argument : Notation → Option ℕ → List String
if_argument n none = []
if_argument n (some index) = append "IF " (n.show_index index) ∷ []

-- The command that removes a route of a session that is gone.
abbrev pub stale_route_command : Notation → Platform → String → Option ℕ → ℕ × ℕ → Command
stale_route_command n macos interface index net =
    command "route" ("-n" ∷ "delete" ∷ "-net" ∷ n.show_net net ∷ "-interface" ∷ interface ∷ [])
stale_route_command n linux interface index net =
    command "ip" ("route" ∷ "del" ∷ n.show_net net ∷ "dev" ∷ interface ∷ [])
stale_route_command n windows interface index net =
    command "route" ("delete" ∷ n.show_net net ∷ if_argument n index)

abbrev of_interface : Notation → Option ℕ → String
of_interface n none = ""
of_interface n (some index) = append " -InterfaceIndex " (n.show_index index)

-- What is tried when that command fails.
abbrev pub fallback_commands : Notation → Platform → Option ℕ → ℕ × ℕ → List Command
fallback_commands n macos index net =
    command "route" ("-n" ∷ "delete" ∷ "-net" ∷ n.show_net net ∷ []) ∷ []
fallback_commands n linux index net = []
fallback_commands n windows index net =
    command "powershell" (
      "-Command"
      ∷ append "Remove-NetRoute -DestinationPrefix '" (
          append (n.show_net net) (
            append "'"
              (append (of_interface n index) " -Confirm:$false -ErrorAction SilentlyContinue")))
      ∷ [])
    ∷ []

-- The commands that are run; whether the route was removed is only counted.
unfoldable pub cleanup_single_route :
    System → Notation → Platform → String → Option ℕ → ℕ × ℕ → List Command
cleanup_single_route sys n platform interface index net =
    let c = stale_route_command n platform interface index net in
    elim (sys c) [
      | not_run why ↦ c ∷ []
      | ran success status out ↦
          if success then c ∷ [] else c ∷ fallback_commands n platform index net
    ]

abbrev pub stale_bypass_command : Notation → Platform → ℕ → String → Command
stale_bypass_command n macos endpoint gateway =
    command "route" ("-n" ∷ "delete" ∷ "-host" ∷ n.show_ip endpoint ∷ gateway ∷ [])
stale_bypass_command n linux endpoint gateway =
    command "ip" ("route" ∷ "del" ∷ append (n.show_ip endpoint) "/32" ∷ "via" ∷ gateway ∷ [])
stale_bypass_command n windows endpoint gateway =
    command "route" ("delete" ∷ n.show_ip endpoint ∷ "mask" ∷ "255.255.255.255" ∷ gateway ∷ [])

unfoldable pub cleanup_endpoint_bypass :
    Notation → Platform → Option ℕ → Option String → List Command
cleanup_endpoint_bypass n platform none gateway = []
cleanup_endpoint_bypass n platform (some endpoint) none = []
cleanup_endpoint_bypass n platform (some endpoint) (some gateway) =
    stale_bypass_command n platform endpoint gateway ∷ []

unfoldable pub cleanup_routes :
    System → Notation → Platform → String → Option ℕ → List (ℕ × ℕ) → List Command
cleanup_routes sys n platform interface index [] = []
cleanup_routes sys n platform interface index (net ∷ nets) =
    cleanup_single_route sys n platform interface index net
    ++ cleanup_routes sys n platform interface index nets

-- Nothing is cleaned up while the interface is there.
unfoldable pub cleanup_from_state_file :
    System → Notation → Platform → Option RouteState → List Command × Option RouteState
cleanup_from_state_file sys n platform none = ([], none)
cleanup_from_state_file sys n platform (some state) =
    let query = interface_query platform state.interface in
    if interface_exists sys platform state.interface then (query ∷ [], some state) else (
      query ∷ cleanup_routes sys n platform state.interface state.interface_index state.routes
          ++ cleanup_endpoint_bypass n platform state.endpoint_bypass state.default_gateway,
      none,
    )
