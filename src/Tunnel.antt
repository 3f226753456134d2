-- ===== src/Tunnel.antt =====
-- src/tunnel/mod.rs: `RouteManager`, and the state file by which a later start cleans up. A v4
-- network is its address and its prefix length. The calls of the operating system are outside:
-- what a method asks of it is a list of `Call`s, and the answer is an argument.
pub mod History
pub mod Recorded
pub mod Commands
pub mod Stale
use secure_guard.Base.{
  ℕ, Bool, true, false, not, ◌&&◌, ◌==◌, if◌then◌else◌, List, [], ◌∷◌, ◌++◌, Option, none, some,
  String,
}
use secure_guard.Base.Result.{Result, ok, err}
use secure_guard.Error.{MinnowVpnError}

pub data Call : Type 0 where
  add_bypass_call remove_bypass_call : ℕ → Call
  add_route_call remove_route_call : String → ℕ × ℕ → Call

pub record RouteManager : Type 0 where
  pub device_name : String
  pub added_routes : List (ℕ × ℕ)
  pub endpoint_bypass : Option ℕ
  pub default_gateway : Option String
  pub interface_index : Option ℕ

-- Addresses and networks are written as texts, which stand here as they are.
pub record RouteState : Type 0 where
  pub interface : String
  pub interface_index : Option ℕ
  pub endpoint_bypass : Option ℕ
  pub default_gateway : Option String
  pub routes : List (ℕ × ℕ)
  pub timestamp : String

-- The manager with the state file.
pub record Routing : Type 0 where
  pub manager : RouteManager
  pub file : Option RouteState

-- `interface_index` is what `get_interface_index` answers on Windows, and none elsewhere.
unfoldable pub new : String → Option String → Option ℕ → RouteManager
new device_name default_gateway interface_index = record {
  device_name = device_name;
  added_routes = [];
  endpoint_bypass = none;
  default_gateway = default_gateway;
  interface_index = interface_index;
}

-- At the time `now`; the file can be written, which else is only logged.
unfoldable pub save_state : String → RouteManager → Routing
save_state now m = record {
  manager = m;
  file = some (record {
    interface = m.device_name;
    interface_index = m.interface_index;
    endpoint_bypass = m.endpoint_bypass;
    default_gateway = m.default_gateway;
    routes = m.added_routes;
    timestamp = now;
  });
}

abbrev pub Done : Type 0
Done = Routing × List Call × Result (Unit {0}) MinnowVpnError

unfoldable pub add_endpoint_bypass : String → ℕ → Result (Unit {0}) MinnowVpnError → Routing → Done
add_endpoint_bypass now endpoint answer r =
    let calls = add_bypass_call endpoint ∷ [] in
    elim answer [
      | err e ↦ (r, calls, err e)
      | ok done ↦
          (save_state now (record r.manager { endpoint_bypass = some endpoint }), calls, ok tt)
    ]

unfoldable pub add_route : String → ℕ × ℕ → Result (Unit {0}) MinnowVpnError → Routing → Done
add_route now net answer r =
    let calls = add_route_call r.manager.device_name net ∷ [] in
    elim answer [
      | err e ↦ (r, calls, err e)
      | ok done ↦ (
        save_state now (record r.manager { added_routes = r.manager.added_routes ++ (net ∷ []) }),
        calls,
        ok tt,
      )
    ]

-- `retain(|r| r != &network)`.
unfoldable pub retain_others : ℕ × ℕ → List (ℕ × ℕ) → List (ℕ × ℕ)
retain_others net [] = []
retain_others net (r ∷ rs) =
    let rest = retain_others net rs in if r.0 == net.0 && r.1 == net.1 then rest else r ∷ rest

unfoldable pub remove_route : String → ℕ × ℕ → Result (Unit {0}) MinnowVpnError → Routing → Done
remove_route now net answer r =
    let calls = remove_route_call r.manager.device_name net ∷ [] in
    elim answer [
      | err e ↦ (r, calls, err e)
      | ok done ↦ (
        save_state now
            (record r.manager { added_routes = retain_others net r.manager.added_routes }),
        calls,
        ok tt,
      )
    ]

abbrev bypass_calls : Option ℕ → List Call
bypass_calls none = []
bypass_calls (some endpoint) = remove_bypass_call endpoint ∷ []

unfoldable pub route_calls : String → List (ℕ × ℕ) → List Call
route_calls device_name [] = []
route_calls device_name (net ∷ nets) =
    remove_route_call device_name net ∷ route_calls device_name nets

-- Whatever the system answers, which is only logged: everything is forgotten and the file deleted.
unfoldable pub cleanup : Routing → Done
cleanup r = (
  record { manager = record r.manager { added_routes = []; endpoint_bypass = none }; file = none },
  bypass_calls r.manager.endpoint_bypass
      ++ route_calls r.manager.device_name r.manager.added_routes,
  ok tt,
)

-- The calls of the methods, with the time and the system's answer.
pub data Operation : Type 0 where
  bypasses : String → ℕ → Result (Unit {0}) MinnowVpnError → Operation
  adds removes : String → ℕ × ℕ → Result (Unit {0}) MinnowVpnError → Operation
  cleans : Operation

unfoldable pub perform : Operation → Routing → Done
perform (bypasses now endpoint answer) r = add_endpoint_bypass now endpoint answer r
perform (adds now net answer) r = add_route now net answer r
perform (removes now net answer) r = remove_route now net answer r
perform cleans r = cleanup r

unfoldable pub perform_all : List Operation → Routing → Routing
perform_all [] r = r
perform_all (o ∷ os) r = perform_all os (perform o r).0
