-- ===== src/Tunnel/Stale/Complete.antt =====
-- What the clean-up at the start removes.
use secure_guard.Base.{ℕ, List, [], ◌∷◌, Option, none, some, String, ◌≡◌, ◌⊎◌}
use secure_guard.Tunnel.Commands.{Platform, Command, Notation}
use secure_guard.Tunnel.Stale.{stale_route_command, stale_bypass_command}

-- One of the commands.
abbrev pub Among : Command → List Command → Type 0
Among c [] = ⊥
Among c (d ∷ ds) = (d ≡ c) ⊎ Among c ds

-- For each of the networks the command that removes its route at the interface.
abbrev pub AllRemoved :
    Notation → Platform → String → Option ℕ → List (ℕ × ℕ) → List Command → Type 0
AllRemoved n platform interface index [] commands = Unit {0}
AllRemoved n platform interface index (net ∷ nets) commands =
    Among (stale_route_command n platform interface index net) commands
    × AllRemoved n platform interface index nets commands

-- If there is a bypass, and the gateway is known, the command that removes it.
abbrev pub BypassRemoved : Notation → Platform → Option String → Option ℕ → List Command → Type 0
BypassRemoved n platform gateway none commands = Unit {0}
BypassRemoved n platform none (some endpoint) commands = Unit {0}
BypassRemoved n platform (some gateway) (some endpoint) commands =
    Among (stale_bypass_command n platform endpoint gateway) commands
