-- ===== src/CommandLine/Detection.antt =====
-- What a configuration is taken for when no mode is asked for.
use secure_guard.Base.{
  true, false, not, List, [], ◌∷◌, Option, none, some, String, ◌≡◌, ◌≢◌, ◌↔◌, refl, ◌⊎◌, inl, inr,
  Option-cases, Bool-cases,
}
use secure_guard.Base.Result.{Result, ok, err}
use secure_guard.Error.{MinnowVpnError}
use secure_guard.Net.{SocketAddr}
use secure_guard.Config.{PeerConfig, WireGuardConfig}
use secure_guard.Config.Parser.{Syntax, parse, from_file}
use secure_guard.CommandLine.{
  Args, has_value, all_peers_no_endpoint, any_peer_has_endpoint, undetermined, determine_mode,
  Service, client_service, server_service, run,
}

-- One of the peers has an endpoint.
abbrev pub SomeEndpoint : List PeerConfig → Type 0
SomeEndpoint [] = ⊥
SomeEndpoint (p ∷ ps) = ((e : SocketAddr) × (p.endpoint ≡ some e)) ⊎ SomeEndpoint ps

any_peer_has_endpoint-some :
    (ps : List PeerConfig) → any_peer_has_endpoint ps ≡ true → SomeEndpoint ps
unfolding any_peer_has_endpoint has_value
any_peer_has_endpoint-some [] h = absurd (cc h)
any_peer_has_endpoint-some (p ∷ ps) h = elim (Option-cases p.endpoint) [
  | inl e ↦ inr (any_peer_has_endpoint-some ps (rw e at h))
  | inr found ↦ inl found
]

any_peer_has_endpoint-none :
    (ps : List PeerConfig) → any_peer_has_endpoint ps ≡ false → ¬ SomeEndpoint ps
unfolding any_peer_has_endpoint has_value
any_peer_has_endpoint-none [] h found = found
any_peer_has_endpoint-none (p ∷ ps) h (inl (e, found)) = absurd (cc (rw found at h))
any_peer_has_endpoint-none (p ∷ ps) h (inr later) = elim (Option-cases p.endpoint) [
  | inl e ↦ any_peer_has_endpoint-none ps (rw e at h) later
  | inr (a, e) ↦ absurd (cc (rw e at h))
]

all_peers_no_endpoint-eq :
    (ps : List PeerConfig) → all_peers_no_endpoint ps ≡ not (any_peer_has_endpoint ps)
unfolding all_peers_no_endpoint any_peer_has_endpoint has_value
all_peers_no_endpoint-eq [] = refl
all_peers_no_endpoint-eq (p ∷ ps) = elim (Option-cases p.endpoint) [
  | inl e ↦ rw e (all_peers_no_endpoint-eq ps)
  | inr (a, e) ↦ rw e refl
]

has_value_lem {ℓ} :
    {A : Type ℓ} (o : Option A)
    → ((has_value o ≡ true) → o ≢ none) × ((has_value o ≡ false) → o ≡ none)
unfolding has_value
has_value_lem none = ((λ h. absurd (cc h)), (λ h. refl))
has_value_lem (some a) = ((λ h e. absurd (cc e)), (λ h. absurd (cc h)))

-- A server has a listen port and no peer with an endpoint; a client has a peer with an endpoint.
abbrev pub Detects : WireGuardConfig → Result Service MinnowVpnError → Type 0
Detects c result =
    ((result ≡ ok (server_service c))
      ↔ ((¬ SomeEndpoint c.peers) × (c.interface.listen_port ≢ none)))
    × ((result ≡ ok (client_service c)) ↔ SomeEndpoint c.peers)
    × ((result ≡ err undetermined) ↔ ((¬ SomeEndpoint c.peers) × (c.interface.listen_port ≡ none)))

Detects-client : (c : WireGuardConfig) → SomeEndpoint c.peers → Detects c (ok (client_service c))
Detects-client c found = (
  ((λ h. absurd (cc h)), (λ h. absurd (h.0 found))),
  ((λ h. found), (λ h. refl)),
  ((λ h. absurd (cc h)), (λ h. absurd (h.0 found))),
)

Detects-server :
    (c : WireGuardConfig)
    → ¬ SomeEndpoint c.peers
    → c.interface.listen_port ≢ none
    → Detects c (ok (server_service c))
Detects-server c none_found port = (
  ((λ h. (none_found, port)), (λ h. refl)),
  ((λ h. absurd (cc h)), (λ h. absurd (none_found h))),
  ((λ h. absurd (cc h)), (λ h. absurd (port h.1))),
)

Detects-undetermined :
    (c : WireGuardConfig)
    → ¬ SomeEndpoint c.peers
    → c.interface.listen_port ≡ none
    → Detects c (err undetermined)
Detects-undetermined c none_found port = (
  ((λ h. absurd (cc h)), (λ h. absurd (h.1 port))),
  ((λ h. absurd (cc h)), (λ h. absurd (none_found h))),
  ((λ h. (none_found, port)), (λ h. refl)),
)

-- Without a flag the configuration decides: one that parses runs as a server exactly when it has a
-- listen port and none of its peers has an endpoint, as a client exactly when one of its peers has
-- an endpoint, and is refused exactly when there is neither.
pub run-Detects :
    (x : Syntax) (args : Args) (path content : String) (c : WireGuardConfig)
    → args.daemon ≡ false
    → args.server ≡ false
    → args.client ≡ false
    → parse x content ≡ ok c
    → Detects c (run x args path (ok content))
unfolding run determine_mode from_file
run-Detects x args path content c no_daemon no_server no_client parsed =
    let opposite = all_peers_no_endpoint-eq c.peers in
    let (valued, unvalued) = has_value_lem c.interface.listen_port in
    elim (Bool-cases (any_peer_has_endpoint c.peers)) [
      | inl e ↦ elim (Bool-cases (has_value c.interface.listen_port)) [
        | inl f ↦
            rw (no_daemon, parsed, no_server, no_client, f, opposite, e, run, determine_mode)
              (Detects-client c (any_peer_has_endpoint-some c.peers e))
        | inr f ↦
            rw (no_daemon, parsed, no_server, no_client, f, e, run, determine_mode)
              (Detects-client c (any_peer_has_endpoint-some c.peers e))
      ]
      | inr e ↦ elim (Bool-cases (has_value c.interface.listen_port)) [
        | inl f ↦
            rw (no_daemon, parsed, no_server, no_client, f, opposite, e, run, determine_mode)
              (Detects-server c (any_peer_has_endpoint-none c.peers e) (valued f))
        | inr f ↦
            rw (no_daemon, parsed, no_server, no_client, f, e, run, determine_mode)
              (Detects-undetermined c (any_peer_has_endpoint-none c.peers e) (unvalued f))
      ]
    ]
