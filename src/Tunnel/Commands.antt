-- ===== src/Tunnel/Commands.antt =====
-- src/tunnel/mod.rs: the commands of the operating system by which routes are set and removed, on
-- the three platforms that the code is compiled for. What a command answers is up to the system.
pub mod Reading
pub mod Checked
use Prim.Native.String.{◌++◌ as append}
use secure_guard.Base.{
  ℕ, Bool, true, false, not, if◌then◌else◌, List, [], ◌∷◌, ◌++◌, Option, none, some, String,
}
use secure_guard.Base.Result.{Result, ok, err}
use secure_guard.Error.{
  MinnowVpnError, tunnel, route_setup_failed, route_cleanup_failed, insufficient_privileges,
  create_failed,
}
use secure_guard.Config.Text.{trim, is_empty}
use secure_guard.Tunnel.Commands.Reading.{any_word, gateway_line, gateway_word}

pub data Platform : Type 0 where
  macos linux windows : Platform

pub record Command : Type 0 where
  pub program : String
  pub args : List String

-- A command could not be run, for a reason; or it ran: whether it ended well, how its exit status
-- is written, and what it wrote.
pub data Ran : Type 0 where
  not_run : String → Ran
  ran : Bool → String → String → Ran

abbrev pub System : Type 0
System = Command → Ran

-- How networks, addresses and numbers are written.
pub record Notation : Type 0 where
  pub show_net : ℕ × ℕ → String
  pub show_ip : ℕ → String
  pub show_index : ℕ → String

-- The commands that were run, with what came of it.
abbrev pub Done : Type 0
Done = List Command × Result (Unit {0}) MinnowVpnError

abbrev command : String → List String → Command
command program args = record { program = program; args = args }

-- `status().await.map_err(..)?` and the check of the status.
abbrev pub run_checked : System → Command → (String → MinnowVpnError) → (String → String) → Done
run_checked sys c failed reason = elim (sys c) [
  | not_run why ↦ (c ∷ [], err (failed why))
  | ran success status out ↦ (c ∷ [], if success then ok tt else err (failed (reason status)))
]

-- On Windows the index of the interface is asked for first.
abbrev pub if_index_query : String → Command
if_index_query device =
    command "powershell"
      ("-Command" ∷ append "(Get-NetAdapter -Name '" (append device "').ifIndex") ∷ [])

abbrev pub with_if_index : System → String → (String → MinnowVpnError) → (String → Done) → Done
with_if_index sys device failed next =
    let query = if_index_query device in
    elim (sys query) [
      | not_run why ↦ (query ∷ [], err (failed why))
      | ran success status out ↦
          let (commands, result) = next (trim out) in (query ∷ commands, result)
    ]

abbrev pub add_route_command : Notation → Platform → String → ℕ × ℕ → Command
add_route_command n macos device net =
    command "route" ("-n" ∷ "add" ∷ "-net" ∷ n.show_net net ∷ "-interface" ∷ device ∷ [])
add_route_command n linux device net =
    command "ip" ("route" ∷ "add" ∷ n.show_net net ∷ "dev" ∷ device ∷ [])
add_route_command n windows if_index net =
    command "netsh" ("interface" ∷ "ip" ∷ "add" ∷ "route" ∷ n.show_net net ∷ if_index ∷ [])

unfoldable pub add_route_platform : System → Notation → Platform → String → ℕ × ℕ → Done
add_route_platform sys n platform device net =
    let failed = λ (why : String). tunnel (route_setup_failed (n.show_net net) why) in
    elim platform [
      | macos ↦
          run_checked sys (add_route_command n macos device net) failed
            (append "route command exited with ")
      | linux ↦
          run_checked sys (add_route_command n linux device net) failed
            (append "ip route command exited with ")
      | windows ↦ with_if_index sys device failed (λ if_index.
          run_checked sys (add_route_command n windows if_index net) failed
            (append "netsh command exited with "))
    ]

abbrev pub remove_route_command : Notation → Platform → String → ℕ × ℕ → Command
remove_route_command n macos device net =
    command "route" ("-n" ∷ "delete" ∷ "-net" ∷ n.show_net net ∷ [])
remove_route_command n linux device net =
    command "ip" ("route" ∷ "del" ∷ n.show_net net ∷ "dev" ∷ device ∷ [])
remove_route_command n windows if_index net =
    command "netsh" ("interface" ∷ "ip" ∷ "delete" ∷ "route" ∷ n.show_net net ∷ if_index ∷ [])

unfoldable pub remove_route_platform : System → Notation → Platform → String → ℕ × ℕ → Done
remove_route_platform sys n platform device net =
    let failed = λ (why : String). tunnel (route_cleanup_failed (n.show_net net) why) in
    elim platform [
      | macos ↦
          run_checked sys (remove_route_command n macos device net) failed
            (append "route command exited with ")
      | linux ↦
          run_checked sys (remove_route_command n linux device net) failed
            (append "ip route command exited with ")
      | windows ↦ with_if_index sys device failed (λ if_index.
          run_checked sys (remove_route_command n windows if_index net) failed
            (append "netsh command exited with "))
    ]

-- The command that tells the default gateway.
abbrev pub gateway_query : Platform → Command
gateway_query macos = command "route" ("-n" ∷ "get" ∷ "default" ∷ [])
gateway_query linux = command "ip" ("route" ∷ "show" ∷ "default" ∷ [])
gateway_query windows = command "powershell" (
    "-Command"
    ∷ "Get-NetRoute -DestinationPrefix '0.0.0.0/0' | Select-Object -First 1 -ExpandProperty NextHop"
    ∷ [])

-- What `add_endpoint_bypass_platform` reads of the answer; on Windows also an empty text.
abbrev pub read_gateway : Platform → String → Option String
read_gateway macos out = gateway_line out
read_gateway linux out = gateway_word out
read_gateway windows out = some (trim out)

abbrev pub add_bypass_command : Notation → Platform → ℕ → String → Command
add_bypass_command n macos endpoint gateway =
    command "route" ("-n" ∷ "add" ∷ "-host" ∷ n.show_ip endpoint ∷ gateway ∷ [])
add_bypass_command n linux endpoint gateway =
    command "ip" ("route" ∷ "add" ∷ n.show_ip endpoint ∷ "via" ∷ gateway ∷ [])
add_bypass_command n windows endpoint gateway =
    command "route" ("add" ∷ n.show_ip endpoint ∷ "mask" ∷ "255.255.255.255" ∷ gateway ∷ [])

abbrev pub add_failed : Platform → String
add_failed macos = "route add command failed"
add_failed linux = "ip route add command failed"
add_failed windows = "route add command failed"

unfoldable pub add_endpoint_bypass_platform : System → Notation → Platform → ℕ → Done
add_endpoint_bypass_platform sys n platform endpoint =
    let failed = λ (why : String). tunnel (route_setup_failed (n.show_ip endpoint) why) in
    let query = gateway_query platform in
    elim (sys query) [
      | not_run why ↦ (query ∷ [], err (failed (append "Failed to get default gateway: " why)))
      | ran success status out ↦ elim (read_gateway platform out) [
        | none ↦ (query ∷ [], err (failed "Could not parse default gateway"))
        | some gateway ↦
            let (commands, result) =
              run_checked sys (add_bypass_command n platform endpoint gateway) failed
                (λ shown. add_failed platform) in
            (query ∷ commands, result)
      ]
    ]

abbrev pub remove_bypass_command : Notation → Platform → ℕ → Command
remove_bypass_command n macos endpoint =
    command "route" ("-n" ∷ "delete" ∷ "-host" ∷ n.show_ip endpoint ∷ [])
remove_bypass_command n linux endpoint = command "ip" ("route" ∷ "del" ∷ n.show_ip endpoint ∷ [])
remove_bypass_command n windows endpoint = command "route" ("delete" ∷ n.show_ip endpoint ∷ [])

-- Whatever comes of it is ignored.
unfoldable pub remove_endpoint_bypass_platform : Notation → Platform → ℕ → Done
remove_endpoint_bypass_platform n platform endpoint =
    (remove_bypass_command n platform endpoint ∷ [], ok tt)

-- For the state file; `none` also where the command could not be run.
unfoldable pub get_default_gateway : System → Platform → Option String
get_default_gateway sys platform = elim (sys (gateway_query platform)) [
  | not_run why ↦ none
  | ran success status out ↦ elim platform [
    | macos ↦ gateway_line out
    | linux ↦ gateway_word out
    | windows ↦ if is_empty (trim out) then none else some (trim out)
  ]
]

-- Root on macOS, an administrator on Windows; on Linux the lack is only logged.
unfoldable pub check_privileges : Platform → Bool → Result (Unit {0}) MinnowVpnError
check_privileges macos privileged =
    if privileged
    then ok tt
    else err (tunnel (insufficient_privileges "Root privileges required on macOS. Run with sudo."))
check_privileges linux privileged = ok tt
check_privileges windows privileged =
    if privileged
    then ok tt
    else err (tunnel (insufficient_privileges "Administrator privileges required on Windows."))

-- `TunDevice::create`: `built` is the answer of the crate tun-rs, `named` the device's name.
unfoldable pub create :
    Platform → Bool → Option String → Result String String → Result String MinnowVpnError
create platform privileged build_error named = elim (check_privileges platform privileged) [
  | err e ↦ err e
  | ok done ↦ elim build_error [
    | some reason ↦ err (tunnel (create_failed reason))
    | none ↦ elim named [
      | err why ↦ err (tunnel (create_failed (append "Failed to get device name: " why)))
      | ok name ↦ ok name
    ]
  ]
]
