-- ===== src/Daemon/Hosting/Strangers.antt =====
-- The peers of the configuration of a server that the daemon starts.
use secure_guard.Base.{Bool, List, ◌≡◌, inl, inr, arith}
use secure_guard.Base.Result.{ok, Result-cases}
use secure_guard.Net.{IpNet, IpAddr}
use secure_guard.Config.{WireGuardConfig}
use secure_guard.Crypto.{Primitives}
use secure_guard.Session.{TrafficStats}
use secure_guard.Peer.Manager
use secure_guard.Server.{WireGuardServer, active_peers}
use secure_guard.Server.Inputs.{Inputs}
use secure_guard.Server.Loop.{Event, run}
use secure_guard.Server.Startup.{Surroundings, open_server, new_with_channels}
use secure_guard.Server.Deserted.{AllAddNone, IsDeserted, run-IsDeserted}
use secure_guard.Daemon.Hosting.{start_server}

-- A server that the daemon starts knows none of the peers that its configuration lists: until a
-- request adds one, it answers nothing and sends nothing, whatever packets and removals come.
pub start_server-IsDeserted :
    (p : Primitives) (contains : IpNet → IpAddr → Bool) (x : Surroundings)
    (config : WireGuardConfig) (stats : TrafficStats) (s : WireGuardServer)
    (rounds : List (Event × Inputs))
    → (start_server p x config stats).1 ≡ ok s
    → AllAddNone rounds
    → IsDeserted (run p contains s rounds).0 (run p contains s rounds).1
unfolding start_server new_with_channels
start_server-IsDeserted p contains x config stats s rounds h adds =
    elim (Result-cases (open_server x config).1) [
      | inr (e, bad) ↦ absurd (ground arith)
      | inl (done, good) ↦
          let empty : active_peers s ≡ Manager.new = ground arith in
          run-IsDeserted p contains s rounds empty adds
    ]
